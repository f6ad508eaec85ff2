-- ===== src/Snek/Tokenizer/Spans.antt =====
-- tokenizer.rs: the loop of `tokenize` and the spans of its tokens.
use serpentine.Prelude.{
  ℕ, zero, suc, ◌≤◌, ◌<◌, ◌≡◌, ◌≢◌, refl, ap, ◌∙◌, sym, length-append, subst, some, none, Option,
  List, [], ◌∷◌, ◌++◌, append-nil, length, arith,
}
use serpentine.Prelude.Outcome.{Total, returned, Total-bind}
use serpentine.Prelude.Text.{Text, bytes, bytes-append, bytes-nil}
use serpentine.Snek.Span.{Span, Spanned}
use serpentine.Snek.Token.{Token}
use serpentine.Snek.Tokenizer.{
  Tokenizer, CharClasses, fuel_of, read_next_token, go_on, token_loop, tokenize,
}
use serpentine.Snek.Tokenizer.Position.{IsLexError, At}
use serpentine.Snek.Tokenizer.Loops.{Lexes, ReadsToken}
use serpentine.Snek.Tokenizer.Reads.{read_after_space-Lexes}

-- From the byte `from`, tokens that follow one another within a file of `size` bytes, then one `Eof`
-- that ends at the end of the file.
abbrev pub IsSpanned : ℕ → ℕ → ℕ → List (Spanned Token) → Type 0
IsSpanned file size from [] = ⊥
IsSpanned file size from ((token, s) ∷ []) =
    (token ≡ Token.eof) × (s.file_id ≡ file) × (s.end ≡ size) × (from ≤ s.end)
IsSpanned file size from ((token, s) ∷ x ∷ rest) =
    (token ≢ Token.eof)
    × (s.file_id ≡ file)
    × (from ≤ s.start)
    × (s.start < s.end)
    × IsSpanned file size s.end (x ∷ rest)

IsSpanned-cons :
    (file size from : ℕ) (token : Token) (s : Span) (rest : List (Spanned Token))
    → token ≢ Token.eof
    → s.file_id ≡ file
    → from ≤ s.start
    → s.start < s.end
    → IsSpanned file size s.end rest
    → IsSpanned file size from ((token, s) ∷ rest)
IsSpanned-cons file size from token s [] ne f a b h = absurd h
IsSpanned-cons file size from token s (x ∷ rest) ne f a b h = (ne, f, a, b, h)

module _ {file : ℕ} {code : Text} (classes : CharClasses) where
  read_next_token-Lexes :
      (fuel : ℕ) (before rest : Text) (st : Tokenizer)
      → length rest < fuel
      → At file code st before rest
      → Lexes file code before rest (read_next_token classes fuel st)
  unfolding read_next_token
  read_next_token-Lexes zero before rest st lt h = absurd (omega arith)
  read_next_token-Lexes (suc fuel) before rest st lt h =
      read_after_space-Lexes classes (read_next_token classes fuel) fuel
        (read_next_token-Lexes fuel) before rest st lt h

  enough :
      {before rest : Text} {st : Tokenizer} → At file code st before rest → length rest < fuel_of st
  enough {before} {rest} h = rw (h.same_code, h.split) (omega (arith, length-append before rest))

  -- Without a token, all the code is taken.
  at_end :
      {before rest : Text} {st : Tokenizer}
      → ReadsToken file code before rest none st
      → st.byte ≡ bytes code
  at_end {before} x =
      let e : x.took.left ≡ [] = x.at_token in
      x.took.at.offset
      ∙ sym
          (ap bytes (x.took.at.split ∙ (ap (λ l. (before ++ x.took.taken) ++ l) e ∙ append-nil _)))

  token_loop-Total :
      (fuel : ℕ) (before rest : Text) (st : Tokenizer)
      → length rest < fuel
      → At file code st before rest
      → Total IsLexError
          (λ (ts, st'). IsSpanned file (bytes code) (bytes before) ts)
          (token_loop classes fuel st)
  unfolding token_loop
  token_loop-Total zero before rest st lt h = absurd (omega arith)
  token_loop-Total (suc fuel) before rest st lt h =
      Total-bind (read_next_token-Lexes (fuel_of st) before rest st (enough h) h)
        λ (r, st₁) x. next r st₁ x (token_loop-Total fuel)
    where
      next :
          (r : Option (Spanned Token)) (st₁ : Tokenizer)
          → ReadsToken file code before rest r st₁
          → ((before' rest' : Text) (st' : Tokenizer)
              → length rest' < fuel
              → At file code st' before' rest'
              → Total IsLexError
                  (λ (ts, st''). IsSpanned file (bytes code) (bytes before') ts)
                  (token_loop classes fuel st'))
          → Total IsLexError
              (λ (ts, st'). IsSpanned file (bytes code) (bytes before) ts)
              (go_on classes (token_loop classes fuel) r st₁)
      next none st₁ x more = returned (
        refl,
        x.took.at.same_file,
        at_end x,
        omega (arith, x.took.at.offset, bytes-append before x.took.taken),
      )
      next (some (token, s)) st₁ x more =
          Total-bind
            (more (before ++ x.took.taken) x.took.left st₁ (omega (arith, x.at_token.5)) x.took.at)
            λ (ts, st₂) h'. returned (
              IsSpanned-cons file (bytes code) (bytes before) token s ts x.at_token.0 x.at_token.1
                x.at_token.2 x.at_token.3
                (subst (λ b. IsSpanned file (bytes code) b ts)
                  (omega (arith, x.took.at.offset, x.at_token.4)) h'))

-- For any file and any table of character classes `tokenize` gives tokens or an error of the lexer
-- (an unknown character, an unterminated string, an integer that overflows): its loops end within
-- their fuel, and it neither panics nor reports an internal error. The tokens are in the order of
-- the code: each has a non-empty span in this file that starts at or after the end of the one
-- before, and exactly one `Eof` closes the list, at the last byte.
pub tokenize-IsSpanned :
    (classes : CharClasses) (file : ℕ) (code : Text)
    → Total IsLexError (IsSpanned file (bytes code) 0) (tokenize classes file code)
unfolding tokenize
tokenize-IsSpanned classes file code =
    Total-bind
      (subst
        (λ b.
          Total IsLexError (λ (ts, st'). IsSpanned file (bytes code) b ts)
            (token_loop classes (suc (length code))
              (record { file_id = file; code = code; byte = 0 })))
        bytes-nil
        (token_loop-Total classes (suc (length code)) [] code _ (omega arith)
          (record { same_file = refl; same_code = refl; split = refl; offset = sym bytes-nil })))
      λ (ts, st) h. returned h
