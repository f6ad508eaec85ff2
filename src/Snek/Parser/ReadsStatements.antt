-- ===== src/Snek/Parser/ReadsStatements.antt =====
-- parser.rs: statements, function definitions and files.
use serpentine.Prelude.{
  ℕ, zero, suc, ◌+◌, ◌≤◌, ◌<◌, ◌≡◌, refl, sym, ap, subst, Bool, true, false, Option, none, some,
  List, [], ◌∷◌, length, arith, Bool-cases, inl, inr, ◌==◌,
}
use serpentine.Prelude.Outcome.{Total, returned, rejected, Total-bind, Total-mono}
use serpentine.Prelude.Text.{Text}
use serpentine.Snek.Span.{Span, Spanned}
use serpentine.Snek.Token.{Token, token_eq, token_beq_iff}
use serpentine.Snek.Ast.{Ident, Expression, Statement, statements_of}
use serpentine.Snek.Parser.{
  Tokens, P, next, fuel_of, parameter_default, parse_parameter, split_parameters, parse_label,
  parse_import, parse_return, parse_function_def, lift, exported, statement_at, statement_with,
  parse_statement, statement, file_loop, parse_file,
}
use serpentine.Snek.Parser.Grammar.{
  IsList, close, item, first, unseparated, IsExpression, IsParameter, required, defaulted, IsSplit,
  only_defaults, default, require, IsExport, unexported, export, IsStatement, IsBody, end_body,
  in_body, IsFile, end_file, in_file,
}
use serpentine.Snek.Parser.Primitives.{
  EndsEof, EndsEof-tail, Parses, IsParseError, TakesIf, expect-Parses, expect_ident-Parses,
  expect_str-Parses, next_if-Parses, parse_list-Parses,
}
use serpentine.Snek.Parser.ReadsExpressions.{expression-Parses, comma_ne}

parse_parameter-Parses : (ts : Tokens) → EndsEof ts → Parses IsParameter 1 ts (parse_parameter ts)
unfolding parse_parameter
parse_parameter-Parses ts h = Total-bind (expect_ident-Parses ts h) λ ((i, s), us) (p, e, l).
    Total-bind (next_if-Parses Token.equals us (cc) e)
      λ (o, vs) (t, e₁, l₁). go i s us p o vs t e₁ (omega arith)
  where
    go :
        (i : Text) (s : Span) (us : Tokens)
        → ts ≡ (Token.ident i, s) ∷ us
        → (o : Option Span) (vs : Tokens) → TakesIf Token.equals us o vs
        → EndsEof vs
        → length vs + 1 ≤ length ts
        → Parses IsParameter 1 ts (parameter_default (i, s) o vs)
    go i s us p none vs t e l = returned (rw (p, t) required, e, omega arith)
    go i s us p (some s') vs t e l =
        Total-bind (expression-Parses vs e)
          λ (x, ws) (d, e₁, l₁). returned (rw (p, t) (defaulted d), e₁, omega arith)

split_parameters-IsSplit :
    (ps : List (Ident × Option Expression))
    → Total IsParseError (λ (is, ds). IsSplit ps is ds) (split_parameters false ps)
      × Total IsParseError (λ (is, ds). (is ≡ []) × IsSplit ps [] ds) (split_parameters true ps)
unfolding split_parameters
split_parameters-IsSplit [] = (returned only_defaults, returned (refl, only_defaults))
split_parameters-IsSplit ((i, none) ∷ ps) =
    (Total-bind (split_parameters-IsSplit ps).0 λ (is, ds) d. returned (require d), rejected tt)
split_parameters-IsSplit ((i, some e) ∷ ps) =
    let rest = (split_parameters-IsSplit ps).1 in
    (
      Total-bind rest λ (is, ds) (p, d). returned (rw p (default d)),
      Total-bind rest λ (is, ds) (p, d). returned (p, default d),
    )

IsBody-list :
    {b : Bool} {ts us : Tokens} {ss : List Statement}
    → IsList Token.closing_bracket none IsStatement b ts ss us
    → IsBody ts ss us
IsBody-list close = end_body
IsBody-list (item first d ds) = in_body d (IsBody-list ds)
IsBody-list (item unseparated d ds) = in_body d (IsBody-list ds)

parse_return-Parses :
    (s : Span) (ts : Tokens)
    → EndsEof ts
    → Parses (λ us t vs. IsStatement ((Token.return_kw, s) ∷ us) t vs) 0 ts (parse_return s ts)
unfolding parse_return
parse_return-Parses s ts h = Total-bind (expression-Parses ts h) λ (x, us) (d, e, l).
    Total-bind (expect-Parses Token.semi_colon us (cc) e) λ (s', vs) (t, e₁, l₁).
      returned (IsStatement.return (subst (λ us. IsExpression ts x us) t d), e₁, omega arith)

-- The methods that may follow `export` are given the tokens that it began with.
module _ (ts : Tokens) (x : Option Span) where
  parse_label-Parses :
      (s : Span) (i : Text) (us : Tokens)
      → IsExport ts x ((Token.ident i, s) ∷ us)
      → EndsEof us
      → Parses (λ us' t vs. IsStatement ts t vs) 0 us (parse_label x s i us)
  unfolding parse_label
  parse_label-Parses s i us g h =
      Total-bind (expect-Parses Token.equals us (cc) h) λ (s₁, vs) (t, e, l).
        Total-bind (expression-Parses vs e) λ (v, ws) (d, e₁, l₁).
          Total-bind (expect-Parses Token.semi_colon ws (cc) e₁) λ (s₂, xs) (t₂, e₂, l₂). returned (
            IsStatement.labelled (subst (λ us. IsExport ts x ((Token.ident i, s) ∷ us)) t g)
                (subst (λ ws. IsExpression vs v ws) t₂ d),
            e₂,
            omega arith,
          )

  parse_import-Parses :
      (s : Span) (us : Tokens)
      → IsExport ts x ((Token.import_kw, s) ∷ us)
      → EndsEof us
      → Parses (λ us' t vs. IsStatement ts t vs) 0 us (parse_import x us)
  unfolding parse_import
  parse_import-Parses s us g h = Total-bind (expect_str-Parses us h) λ ((v, s₁), vs) (t, e, l).
      Total-bind (expect-Parses Token.as_kw vs (cc) e) λ (s₂, ws) (t₁, e₁, l₁).
        Total-bind (expect_ident-Parses ws e₁) λ ((i, s₃), xs) (t₂, e₂, l₂).
          Total-bind (expect-Parses Token.semi_colon xs (cc) e₂) λ (s₄, ys) (t₃, e₃, l₃).
            let q : us
                ≡ (Token.string v, s₁)
                  ∷ (Token.as_kw, s₂)
                  ∷ (Token.ident i, s₃)
                  ∷ (Token.semi_colon, s₄)
                  ∷ ys =
              cc in
            returned (
              IsStatement.import (subst (λ us. IsExport ts x ((Token.import_kw, s) ∷ us)) q g),
              e₃,
              omega arith,
            )

lift-IsSplit :
    (ps : List (Ident × Option Expression)) (ts : Tokens)
    → Total IsParseError
        (λ ((is, ds), us). IsSplit ps is ds × (us ≡ ts))
        (lift (split_parameters false ps) ts)
lift-IsSplit ps ts = Total-bind (split_parameters-IsSplit ps).0 λ (is, ds) d. returned (d, refl)

module _ (again : P Statement) (bound : ℕ)
    (again-Parses : (ts : Tokens)
      → length ts < bound
      → EndsEof ts
      → Parses IsStatement 1 ts (again ts)) where
  parse_function_def-Parses :
      (ts : Tokens) (x : Option Span) (s : Span) (us : Tokens)
      → IsExport ts x ((Token.def_kw, s) ∷ us)
      → length us < suc bound
      → EndsEof us
      → Parses (λ us' t vs. IsStatement ts t vs) 0 us (parse_function_def again x us)
  unfolding parse_function_def
  parse_function_def-Parses ts x s us g lt h =
      Total-bind (expect_ident-Parses us h) λ ((i, s₁), vs) (t, e, l).
        Total-bind (expect-Parses Token.open_paren vs (cc) e) λ (s₂, ws) (t₁, e₁, l₁).
          Total-bind
            (parse_list-Parses Token.closing_paren (some Token.comma) parse_parameter IsParameter
              (suc (length ws)) (cc) comma_ne (λ zs k h'. parse_parameter-Parses zs h') ws
              (omega arith) e₁)
            λ (ps, xs) (d, e₂, l₂). Total-bind (lift-IsSplit ps xs) λ ((is, ds), xs') (k, same).
              Total-bind (expect-Parses Token.open_bracket xs' (cc) (subst EndsEof (sym same) e₂))
                λ (s₃, ys) (t₃, e₃, l₃).
                  Total-bind
                    (parse_list-Parses Token.closing_bracket none again IsStatement bound (cc)
                      (λ o q. cc) again-Parses ys (omega (arith, ap length same)) e₃)
                    λ (ss, zs) (b, e₄, l₄).
                      let q : us ≡ (Token.ident i, s₁) ∷ (Token.open_paren, s₂) ∷ ws = cc in
                      let q' : xs ≡ (Token.open_bracket, s₃) ∷ ys = cc in
                      returned (
                        IsStatement.function
                            (subst (λ us. IsExport ts x ((Token.def_kw, s) ∷ us)) q g)
                            (subst
                              (λ xs.
                                IsList Token.closing_paren (some Token.comma) IsParameter true ws ps
                                  xs)
                              q' d)
                            k (IsBody-list b),
                        e₄,
                        omega (arith, ap length same),
                      )

  exported-Parses :
      (s : Span) (t : Spanned Token) (us : Tokens)
      → length us < bound
      → EndsEof (t ∷ us)
      → Parses
          (λ us' st vs. IsStatement ((Token.export_kw, s) ∷ t ∷ us) st vs)
          0
          us
          (exported again s t us)
  exported-Parses s (Token.def_kw, at) us lt h =
      parse_function_def-Parses ((Token.export_kw, s) ∷ (Token.def_kw, at) ∷ us) (some s) at us
        export (omega arith) (EndsEof-tail (Token.def_kw, at) us h (cc))
  exported-Parses s (Token.ident i, at) us lt h =
      parse_label-Parses ((Token.export_kw, s) ∷ (Token.ident i, at) ∷ us) (some s) at i us export
        (EndsEof-tail (Token.ident i, at) us h (cc))
  exported-Parses s (Token.import_kw, at) us lt h =
      parse_import-Parses ((Token.export_kw, s) ∷ (Token.import_kw, at) ∷ us) (some s) at us export
        (EndsEof-tail (Token.import_kw, at) us h (cc))
  exported-Parses s (_, at) us lt h = rejected tt

  statement_at-Parses :
      (t : Spanned Token) (us : Tokens)
      → length us < bound
      → EndsEof (t ∷ us)
      → Parses (λ us' st vs. IsStatement (t ∷ us) st vs) 0 us (statement_at again t us)
  unfolding next
  statement_at-Parses (Token.return_kw, s) us lt h =
      parse_return-Parses s us (EndsEof-tail (Token.return_kw, s) us h (cc))
  statement_at-Parses (Token.def_kw, s) us lt h =
      parse_function_def-Parses ((Token.def_kw, s) ∷ us) none s us unexported (omega arith)
        (EndsEof-tail (Token.def_kw, s) us h (cc))
  statement_at-Parses (Token.ident i, s) us lt h =
      parse_label-Parses ((Token.ident i, s) ∷ us) none s i us unexported
        (EndsEof-tail (Token.ident i, s) us h (cc))
  statement_at-Parses (Token.import_kw, s) us lt h =
      parse_import-Parses ((Token.import_kw, s) ∷ us) none s us unexported
        (EndsEof-tail (Token.import_kw, s) us h (cc))
  statement_at-Parses (Token.export_kw, s) [] lt h = cc
  statement_at-Parses (Token.export_kw, s) (t ∷ us) lt h =
      Total-mono (λ (st, vs) (d, e, l). (d, e, omega arith))
        (exported-Parses s t us (omega arith) (EndsEof-tail (Token.export_kw, s) (t ∷ us) h (cc)))
  statement_at-Parses (_, s) us lt h = rejected tt

  statement_with-Parses :
      (ts : Tokens)
      → length ts < suc bound
      → EndsEof ts
      → Parses IsStatement 1 ts (statement_with again ts)
  unfolding statement_with
  statement_with-Parses [] lt h = absurd h
  statement_with-Parses (t ∷ ts) lt h =
      Total-mono (λ (st, us) (d, e, l). (d, e, omega arith))
        (statement_at-Parses t ts (omega arith) h)

parse_statement-Parses :
    (fuel : ℕ) (ts : Tokens)
    → length ts < fuel
    → EndsEof ts
    → Parses IsStatement 1 ts (parse_statement fuel ts)
unfolding parse_statement
parse_statement-Parses zero ts lt h = absurd (omega arith)
parse_statement-Parses (suc fuel) ts lt h =
    statement_with-Parses (parse_statement fuel) fuel (parse_statement-Parses fuel) ts lt h

file_loop-IsFile :
    (fuel : ℕ) (ts : Tokens)
    → length ts < fuel
    → EndsEof ts
    → Total IsParseError (IsFile ts) (file_loop fuel ts)
unfolding file_loop statement
file_loop-IsFile zero ts lt h = absurd (omega arith)
file_loop-IsFile (suc fuel) [] lt h = absurd h
file_loop-IsFile (suc fuel) ((t, s) ∷ ts) lt h = elim (Bool-cases (t == Token.eof)) [
  | inl e ↦ let p : t ≡ Token.eof = (token_beq_iff t Token.eof).0 e in rw e (returned (last ts p h))
  | inr e ↦ rw e (
      Total-bind (parse_statement-Parses (fuel_of ((t, s) ∷ ts)) ((t, s) ∷ ts) (omega arith) h)
        λ (st, us) (d, e₁, l).
          Total-bind (file_loop-IsFile fuel us (omega arith) e₁) λ ss d'. returned (in_file d d'))
]
  where
    last : (ts : Tokens) → t ≡ Token.eof → EndsEof ((t, s) ∷ ts) → IsFile ((t, s) ∷ ts) []
    last [] p h = rw p end_file
    last (u ∷ us) p h = absurd (h.0 p)

-- Where the tokens end with their only `Eof`, `parse_file` gives a syntax tree or an error of the
-- parser (an unexpected token, or a parameter without a default after one with a default): its
-- recursion ends within its fuel, and it neither panics nor reports an internal error. The
-- statements of the tree are derived from all of the tokens by the grammar.
pub parse_file-IsFile :
    (ts : Tokens)
    → EndsEof ts
    → Total IsParseError
        (λ tree. (ss : List Statement) × (tree ≡ statements_of ss) × IsFile ts ss)
        (parse_file ts)
unfolding parse_file
parse_file-IsFile ts h =
    Total-bind (file_loop-IsFile (fuel_of ts) ts (omega arith) h) λ ss d. returned (ss, refl, d)
