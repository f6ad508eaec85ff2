-- ===== src/Snek/Parser/Primitives.antt =====
-- parser.rs: the methods that take single tokens, and paths, lists and phantom inputs.
use serpentine.Prelude.{
  ℕ, zero, suc, ◌+◌, ◌≤◌, ◌<◌, ◌≡◌, ◌≢◌, refl, ap, Bool, true, false, Option, none, some, [], ◌∷◌,
  length, arith, Bool-cases, inl, inr, ◌==◌,
}
use serpentine.Prelude.Outcome.{Outcome, Total, returned, rejected, Total-bind}
use serpentine.Snek.Span.{Span, Spanned}
use serpentine.Snek.Token.{Token, token_eq, token_beq_iff}
use serpentine.Snek.CompileError.{CompileError, unexpected_token, required_after_default}
use serpentine.Snek.Parser.{
  Tokens, P, expect, expect_ident, expect_str, next_if, fuel_of, more_segments, segments,
  parse_item_path, separator, list_loop, parse_list,
}
use serpentine.Snek.Parser.Grammar.{
  IsSegments, done, segment, IsPath, path, IsSeparator, first, unseparated, separated, IsList,
  close, item,
}

-- What the parser may report of a file: no internal error.
abbrev pub IsParseError : CompileError → Type 0
IsParseError (unexpected_token _ _ _) = Unit
IsParseError (required_after_default _) = Unit
IsParseError _ = ⊥

-- One `Eof`, at the end.
abbrev pub EndsEof : Tokens → Type 0
EndsEof [] = ⊥
EndsEof ((t, s) ∷ []) = t ≡ Token.eof
EndsEof ((t, s) ∷ u ∷ ts) = (t ≢ Token.eof) × EndsEof (u ∷ ts)

pub EndsEof-tail :
    (t : Spanned Token) (ts : Tokens) → EndsEof (t ∷ ts) → t.0 ≢ Token.eof → EndsEof ts
EndsEof-tail t [] h ne = absurd (ne h)
EndsEof-tail t (u ∷ ts) h ne = h.1

-- The run returns a phrase that `R` relates to the tokens before and after it and that takes at
-- least `k` tokens, `Eof` still ahead; or an error of the parser.
abbrev pub Parses :
    {A : Type 0}
    → (Tokens → A → Tokens → Type 0)
    → ℕ
    → Tokens
    → Outcome CompileError (A × Tokens)
    → Type 0
Parses {A} R k ts r =
    Total {A = A × Tokens} IsParseError
      (λ (a, us). R ts a us × EndsEof us × (length us + k ≤ length ts)) r

-- The token that is taken.
abbrev pub Takes : Token → Tokens → Span → Tokens → Type 0
Takes token ts s us = ts ≡ (token, s) ∷ us

-- The token that is taken, if it is next.
abbrev pub TakesIf : Token → Tokens → Option Span → Tokens → Type 0
TakesIf token ts none us = ts ≡ us
TakesIf token ts (some s) us = ts ≡ (token, s) ∷ us

pub expect-Parses :
    (token : Token) (ts : Tokens)
    → token ≢ Token.eof
    → EndsEof ts
    → Parses (Takes token) 1 ts (expect token ts)
unfolding expect
expect-Parses token [] ne h = absurd h
expect-Parses token ((got, s) ∷ ts) ne h = elim (Bool-cases (got == token)) [
  | inl e ↦
      let p : got ≡ token = (token_beq_iff got token).0 e in
      rw e (returned (rw p refl, EndsEof-tail (got, s) ts h (rw p ne), omega arith))
  | inr e ↦ rw e (rejected tt)
]

pub expect_ident-Parses :
    (ts : Tokens)
    → EndsEof ts
    → Parses (λ ts i us. ts ≡ (Token.ident i.0, i.1) ∷ us) 1 ts (expect_ident ts)
unfolding expect_ident
expect_ident-Parses [] h = absurd h
expect_ident-Parses ((Token.ident v, s) ∷ ts) h =
    returned (refl, EndsEof-tail (Token.ident v, s) ts h (cc), omega arith)
expect_ident-Parses ((_, s) ∷ ts) h = rejected tt

pub expect_str-Parses :
    (ts : Tokens)
    → EndsEof ts
    → Parses (λ ts v us. ts ≡ (Token.string v.0, v.1) ∷ us) 1 ts (expect_str ts)
unfolding expect_str
expect_str-Parses [] h = absurd h
expect_str-Parses ((Token.string v, s) ∷ ts) h =
    returned (refl, EndsEof-tail (Token.string v, s) ts h (cc), omega arith)
expect_str-Parses ((_, s) ∷ ts) h = rejected tt

pub next_if-Parses :
    (token : Token) (ts : Tokens)
    → token ≢ Token.eof
    → EndsEof ts
    → Parses (TakesIf token) 0 ts (next_if token ts)
unfolding next_if
next_if-Parses token [] ne h = absurd h
next_if-Parses token ((got, s) ∷ ts) ne h = elim (Bool-cases (got == token)) [
  | inl e ↦
      let p : got ≡ token = (token_beq_iff got token).0 e in
      rw e (returned (rw p refl, EndsEof-tail (got, s) ts h (rw p ne), omega arith))
  | inr e ↦ rw e (returned (refl, h, omega arith))
]

segments-Parses :
    (fuel : ℕ) (ts : Tokens)
    → length ts < fuel
    → EndsEof ts
    → Parses IsSegments 0 ts (segments fuel ts)
unfolding segments
segments-Parses zero ts lt h = absurd (omega arith)
segments-Parses (suc fuel) ts lt h =
    Total-bind (next_if-Parses Token.path_sep ts (cc) h)
      λ (o, us) (t, e, l). go o us t e l λ us' k k'. segments-Parses fuel us' k k'
  where
    go :
        (o : Option Span) (us : Tokens)
        → TakesIf Token.path_sep ts o us
        → EndsEof us
        → length us + 0 ≤ length ts
        → ((us' : Tokens)
            → length us' < fuel
            → EndsEof us'
            → Parses IsSegments 0 us' (segments fuel us'))
        → Parses IsSegments 0 ts (more_segments (segments fuel) o us)
    go none us t e l again = returned (rw t done, e, omega arith)
    go (some s) us t e l again = Total-bind (expect_ident-Parses us e) λ ((i, s'), vs) (p, e₁, l₁).
        Total-bind (again vs (omega (arith, ap length t)) e₁)
          λ (is, ws) (d, e₂, l₂). returned (rw (t, p) (segment d), e₂, omega (arith, ap length t))

pub parse_item_path-Parses : (ts : Tokens) → EndsEof ts → Parses IsPath 1 ts (parse_item_path ts)
unfolding parse_item_path
parse_item_path-Parses ts h = Total-bind (expect_ident-Parses ts h) λ ((i, s), us) (p, e, l).
    Total-bind (segments-Parses (fuel_of us) us (omega arith) e)
      λ (is, vs) (d, e₁, l₁). returned (rw p (path d), e₁, omega arith)

separator-Parses :
    (b : Bool) (o : Option Token) (ts : Tokens)
    → ((t : Token) → o ≡ some t → t ≢ Token.eof)
    → EndsEof ts
    → Parses (λ ts u us. IsSeparator b o ts us) 0 ts (separator b o ts)
separator-Parses true o ts ne h = returned (first, h, omega arith)
separator-Parses false none ts ne h = returned (unseparated, h, omega arith)
separator-Parses false (some t) ts ne h =
    Total-bind (expect-Parses t ts (ne t refl) h)
      λ (s, us) (p, e, l). returned (rw p separated, e, omega arith)

-- A list of items, each of which takes a token and can be parsed from fewer tokens than `bound`.
module _ {A : Type 0} (closing : Token) (sep : Option Token) (it : P A)
    (Item : Tokens → A → Tokens → Type 0) (bound : ℕ) (closing_ne : closing ≢ Token.eof)
    (sep_ne : (t : Token) → sep ≡ some t → t ≢ Token.eof)
    (it-Parses : (ts : Tokens) → length ts < bound → EndsEof ts → Parses Item 1 ts (it ts)) where
  list_loop-Parses :
      (fuel : ℕ) (b : Bool) (ts : Tokens)
      → length ts < fuel
      → length ts < bound
      → EndsEof ts
      → Parses (IsList closing sep Item b) 1 ts (list_loop closing sep it fuel b ts)
  unfolding list_loop
  list_loop-Parses zero b ts lt lt' h = absurd (omega arith)
  list_loop-Parses (suc fuel) b [] lt lt' h = absurd h
  list_loop-Parses (suc fuel) b ((got, s) ∷ ts) lt lt' h = elim (Bool-cases (got == closing)) [
    | inl e ↦
        let p : got ≡ closing = (token_beq_iff got closing).0 e in
        rw e (returned (rw p close, EndsEof-tail (got, s) ts h (rw p closing_ne), omega arith))
    | inr e ↦ rw e (
        Total-bind (separator-Parses b sep ((got, s) ∷ ts) sep_ne h) λ (u, us) (d, e₁, l₁).
          Total-bind (it-Parses us (omega arith) e₁) λ (a, vs) (d₂, e₂, l₂).
            Total-bind (list_loop-Parses fuel false vs (omega arith) (omega arith) e₂)
              λ (as', ws) (d₃, e₃, l₃). returned (item d d₂ d₃, e₃, omega arith))
  ]

  pub parse_list-Parses :
      (ts : Tokens)
      → length ts < bound
      → EndsEof ts
      → Parses (IsList closing sep Item true) 1 ts (parse_list closing sep it ts)
  unfolding parse_list
  parse_list-Parses ts lt h = list_loop-Parses (fuel_of ts) true ts (omega arith) lt h
