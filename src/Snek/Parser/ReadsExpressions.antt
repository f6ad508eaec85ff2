-- ===== src/Snek/Parser/ReadsExpressions.antt =====
-- parser.rs: nodes, chains and expressions.
use serpentine.Prelude.{
  ℕ, zero, suc, ◌+◌, ◌≤◌, ◌<◌, ◌≡◌, ◌≢◌, ap, Bool, Option, none, some, List, [], ◌∷◌, length, arith,
  Bool-cases, inl, inr, ◌==◌,
}
use serpentine.Prelude.Outcome.{returned, Total-bind, Total-mono}
use serpentine.Snek.Span.{Span, Spanned}
use serpentine.Snek.Token.{Token, token_eq}
use serpentine.Snek.Ast.{ItemPath, path_span, Expression}
use serpentine.Snek.Parser.{
  Tokens, P, ◌>>=◌, peek, fuel_of, parse_item_path, phantom_list, start_span, parse_phantoms,
  finish_node, parse_node, call_or_label, parse_atom, more_nodes, chain_loop, chain_or,
  expression_with, parse_expression, expression,
}
use serpentine.Snek.Parser.Grammar.{
  IsList, close, item, IsPath, IsPhantoms, unblocked, one, many, IsExpression, plain, chained,
  IsAtom, numeric, text, named, called, blocked, IsNode, after_phantoms, IsCall, call, IsArguments,
  end_arguments, argument, IsChain, end_chain, link,
}
use serpentine.Snek.Parser.Primitives.{
  EndsEof, EndsEof-tail, Parses, TakesIf, expect-Parses, next_if-Parses, parse_item_path-Parses,
  parse_list-Parses,
}

pub comma_ne : (t : Token) → ◌≡◌ {A = Option Token} (some Token.comma) (some t) → t ≢ Token.eof
comma_ne t e = λ q. cc

IsArguments-list :
    {b : Bool} {ts us : Tokens} {es : List Expression}
    → IsList Token.closing_paren (some Token.comma) IsExpression b ts es us
    → IsArguments b ts es us
IsArguments-list close = end_arguments
IsArguments-list (item s e es) = argument s e (IsArguments-list es)

start_span-Parses :
    (ts : Tokens) → EndsEof ts → Parses (λ ts s us. IsPhantoms ts s [] us) 0 ts (start_span ts)
unfolding start_span
start_span-Parses [] h = absurd h
start_span-Parses ((t, s) ∷ ts) h = returned (unblocked, h, omega arith)

-- From the `!` on, or from the name on.
parse_phantoms-Parses :
    (o : Option Span) (ts us : Tokens)
    → TakesIf Token.wait ts o us
    → EndsEof us
    → Parses (λ us' sp vs. IsPhantoms ts sp.0 sp.1 vs) 0 us (parse_phantoms o us)
parse_phantoms-Parses none ts us t h =
    Total-bind (start_span-Parses us h) λ (s, vs) (d, e, l). returned (rw t d, e, omega arith)
parse_phantoms-Parses (some s) ts us t h =
    Total-bind (next_if-Parses Token.open_paren us (cc) h) λ (o, vs) (t₁, e, l).
      Total-bind (listed o vs t₁ e (omega arith)) λ (ps, ws) (d, e₁, l₁). returned (d, e₁, l₁)
  where
    listed :
        (o : Option Span) (vs : Tokens)
        → TakesIf Token.open_paren us o vs
        → EndsEof vs
        → length vs ≤ length us
        → Parses (λ vs' ps ws. IsPhantoms ts s ps ws) 0 us (phantom_list o vs)
    listed none vs t₁ e l =
        Total-bind (parse_item_path-Parses vs e)
          λ (p, ws) (d, e₁, l₁). returned (rw (t, t₁) (one d), e₁, omega arith)
    listed (some s') vs t₁ e l =
        Total-bind
          (parse_list-Parses Token.closing_paren (some Token.comma) parse_item_path IsPath
            (suc (length vs)) (cc) comma_ne (λ xs lt h'. parse_item_path-Parses xs h') vs
            (omega arith) e)
          λ (ps, ws) (d, e₁, l₁). returned (rw (t, t₁) (many d), e₁, omega arith)

module _ (again : P Expression) (bound : ℕ)
    (again-Parses : (ts : Tokens)
      → length ts < bound
      → EndsEof ts
      → Parses IsExpression 1 ts (again ts)) where
  finish_node-Parses :
      (start : Span) (p : ItemPath) (ps : List (Spanned ItemPath)) (ts : Tokens)
      → length ts < suc bound
      → EndsEof ts
      → Parses (λ ts n us. IsCall start p ps ts n.0 n.1 us) 1 ts (finish_node again start p ps ts)
  unfolding finish_node
  finish_node-Parses start p ps ts lt h =
      Total-bind (expect-Parses Token.open_paren ts (cc) h) λ (s, us) (t, e, l).
        Total-bind
          (parse_list-Parses Token.closing_paren (some Token.comma) again IsExpression bound (cc)
            comma_ne again-Parses us (omega arith) e)
          λ (es, vs) (d, e₁, l₁). returned (rw t (call (IsArguments-list d)), e₁, omega arith)

  parse_node-Parses :
      (ts : Tokens)
      → length ts < suc bound
      → EndsEof ts
      → Parses (λ ts n us. IsNode ts n.0 n.1 us) 1 ts (parse_node again none ts)
  unfolding parse_node
  parse_node-Parses ts lt h = Total-bind (next_if-Parses Token.wait ts (cc) h) λ (o, us) (t, e, l).
      Total-bind (parse_phantoms-Parses o ts us t e) λ ((start, ps), vs) (d, e₁, l₁).
        Total-bind (parse_item_path-Parses vs e₁) λ (p, ws) (d₂, e₂, l₂).
          Total-mono (λ ((n, s), xs) (d₃, e₃, l₃). (after_phantoms d d₂ d₃, e₃, omega arith))
            (finish_node-Parses start p ps ws (omega arith) e₂)

  call_or_label-Parses :
      (p : ItemPath) (ts us : Tokens)
      → IsPath ts p us
      → length us + 1 ≤ length ts
      → length ts < suc bound
      → EndsEof us
      → Parses (λ us' e vs. IsAtom ts e vs) 0 us ((do t ← peek; call_or_label again p t) us)
  unfolding peek parse_node
  call_or_label-Parses p ts [] d l lt h = absurd h
  call_or_label-Parses p ts ((got, s) ∷ us) d l lt h = elim (Bool-cases (got == Token.open_paren)) [
    | inl e ↦ rw e (
        Total-bind (finish_node-Parses (path_span p) p [] ((got, s) ∷ us) (omega arith) h)
          λ ((n, s'), vs) (d₁, e₁, l₁). returned (called d d₁, e₁, omega arith))
    | inr e ↦ rw e (returned (named d, h, omega arith))
  ]

  parse_atom-Parses :
      (ts : Tokens) → length ts < suc bound → EndsEof ts → Parses IsAtom 1 ts (parse_atom again ts)
  unfolding parse_atom
  parse_atom-Parses [] lt h = absurd h
  parse_atom-Parses ((Token.numeric v, s) ∷ ts) lt h =
      returned (numeric, EndsEof-tail (Token.numeric v, s) ts h (cc), omega arith)
  parse_atom-Parses ((Token.string v, s) ∷ ts) lt h =
      returned (text, EndsEof-tail (Token.string v, s) ts h (cc), omega arith)
  parse_atom-Parses ((Token.ident v, s) ∷ ts) lt h =
      Total-bind (parse_item_path-Parses ((Token.ident v, s) ∷ ts) h) λ (p, us) (d, e, l).
        Total-mono (λ (x, vs) (d₁, e₁, l₁). (d₁, e₁, omega arith))
          (call_or_label-Parses p ((Token.ident v, s) ∷ ts) us d l lt e)
  parse_atom-Parses ((t, s) ∷ ts) lt h =
      Total-bind (parse_node-Parses ((t, s) ∷ ts) lt h)
        λ ((n, s'), us) (d, e, l). returned (blocked d, e, l)

  chain_loop-Parses :
      (fuel : ℕ) (ts : Tokens)
      → length ts < fuel
      → length ts < suc bound
      → EndsEof ts
      → Parses IsChain 0 ts (chain_loop again fuel ts)
  unfolding chain_loop
  chain_loop-Parses zero ts lt lt' h = absurd (omega arith)
  chain_loop-Parses (suc fuel) ts lt lt' h =
      Total-bind (next_if-Parses Token.pipe ts (cc) h)
        λ (o, us) (t, e, l). go o us t e λ us' k k' h'. chain_loop-Parses fuel us' k k' h'
    where
      go :
          (o : Option Span) (us : Tokens)
          → TakesIf Token.pipe ts o us
          → EndsEof us
          → ((us' : Tokens)
              → length us' < fuel
              → length us' < suc bound
              → EndsEof us'
              → Parses IsChain 0 us' (chain_loop again fuel us'))
          → Parses IsChain 0 ts (more_nodes again (chain_loop again fuel) o us)
      go none us t e rest =
          let l : length ts ≡ length us = ap length t in returned (rw t end_chain, e, omega arith)
      go (some s) us t e rest =
          let l : length ts ≡ suc (length us) = ap length t in
          Total-bind (parse_node-Parses us (omega arith) e) λ ((n, s'), vs) (d, e₁, l₁).
            Total-bind (rest vs (omega arith) (omega arith) e₁)
              λ (ns, ws) (d₁, e₂, l₂). returned (rw t (link d d₁), e₂, omega arith)

  expression_with-Parses :
      (ts : Tokens)
      → length ts < suc bound
      → EndsEof ts
      → Parses IsExpression 1 ts (expression_with again ts)
  unfolding expression_with
  expression_with-Parses ts lt h =
      Total-bind (parse_atom-Parses ts lt h) λ (x, us) (d, e, l). go x us d e l
    where
      go :
          (x : Expression) (us : Tokens)
          → IsAtom ts x us
          → EndsEof us
          → length us + 1 ≤ length ts
          → Parses IsExpression 1 ts ((do t ← peek; chain_or again x t) us)
      go x [] d e l = absurd e
      go x ((got, s) ∷ us) d e l = elim (Bool-cases (got == Token.pipe)) [
        | inl k ↦ rw k (
            Total-bind
              (chain_loop-Parses (fuel_of ((got, s) ∷ us)) ((got, s) ∷ us) (omega arith)
                (omega arith) e)
              λ (ns, vs) (d₁, e₁, l₁). returned (chained d d₁, e₁, omega arith))
        | inr k ↦ rw k (returned (plain d, e, omega arith))
      ]

parse_expression-Parses :
    (fuel : ℕ) (ts : Tokens)
    → length ts < fuel
    → EndsEof ts
    → Parses IsExpression 1 ts (parse_expression fuel ts)
unfolding parse_expression
parse_expression-Parses zero ts lt h = absurd (omega arith)
parse_expression-Parses (suc fuel) ts lt h =
    expression_with-Parses (parse_expression fuel) fuel (parse_expression-Parses fuel) ts lt h

pub expression-Parses : (ts : Tokens) → EndsEof ts → Parses IsExpression 1 ts (expression ts)
unfolding expression
expression-Parses ts h = parse_expression-Parses (fuel_of ts) ts (omega arith) h
