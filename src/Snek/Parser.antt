-- ===== src/Snek/Parser.antt =====
-- serpentine/src/snek/parser.rs: from tokens to the syntax tree. The state is the tokens that are
-- left. A method that calls itself on a smaller part takes that call as an argument, `again`.
pub mod Grammar
pub mod Primitives
pub mod ReadsExpressions
pub mod ReadsStatements
use serpentine.Prelude.{
  ℕ, zero, suc, ◌+◌, Bool, true, false, Option, none, some, List, [], ◌∷◌, ◌++◌, map, length, ◌==◌,
  if◌then◌else◌,
}
use serpentine.Prelude.Outcome.{Outcome, ok, err, panic, out_of_fuel, bind}
use serpentine.Prelude.Text.{Text}
use serpentine.Snek.Span.{Span, Spanned, join}
use serpentine.Snek.Token.{Token, token_eq, Description, describe}
use serpentine.Snek.CompileError.{
  CompileError, internal_error, unexpected_token, required_after_default,
}
use serpentine.Snek.Ast.{
  Ident, ItemPath, path_span, Expression, Node, Nodes, Expressions, Statement, Statements,
  expression_span, expressions_of, nodes_of, statements_of, number, string, label, node_expression,
  chain, node, return_statement, import_statement, label_statement, function_statement,
}

abbrev pub Tokens : Type 0
Tokens = List (Spanned Token)

abbrev pub P {ℓ} : Type ℓ → Type ℓ
P A = Tokens → Outcome CompileError (A × Tokens)

module _ {ℓ} {A : Type ℓ} where
  abbrev pub pure : A → P A
  pure a ts = ok (a, ts)

  abbrev pub raise : CompileError → P A
  raise e ts = err e

module _ {ℓ κ} {A : Type ℓ} {B : Type κ} where
  infixl 5 ◌>>=◌ ◌>>◌
  abbrev pub ◌>>=◌ : P A → (A → P B) → P B
  ◌>>=◌ p f ts = bind (p ts) λ (a, us). f a us

  abbrev pub ◌>>◌ : P A → P B → P B
  p >> q = p >>= λ _. q

unfoldable pub next : P (Spanned Token)
next [] = err (internal_error "Hit end of token list before hitting EOF token.")
next (t ∷ ts) = ok (t, ts)

unfoldable pub peek : P (Spanned Token)
peek [] = err (internal_error "Hit end of token list before hitting EOF token.")
peek (t ∷ ts) = ok (t, t ∷ ts)

-- What `expect` does with the token that it has.
abbrev pub expected : Token → Spanned Token → P Span
expected token (got, s) =
    if got == token then pure s else raise (unexpected_token (describe token) (describe got) s)

unfoldable pub expect : Token → P Span
unfolding next
expect token = do t ← next; expected token t

abbrev pub as_ident : Spanned Token → P Ident
as_ident (Token.ident value, s) = pure (value, s)
as_ident (got, s) = raise (unexpected_token (Description.fixed "identifier") (describe got) s)

unfoldable pub expect_ident : P Ident
unfolding next
expect_ident = do t ← next; as_ident t

abbrev pub as_str : Spanned Token → P (Spanned Text)
as_str (Token.string value, s) = pure (value, s)
as_str (got, s) = raise (unexpected_token (Description.fixed "string") (describe got) s)

unfoldable pub expect_str : P (Spanned Text)
unfolding next
expect_str = do t ← next; as_str t

unfoldable pub next_if : Token → P (Option Span)
unfolding peek next
next_if token = do t ← peek; if t.0 == token then (do (_, s) ← next; pure (some s)) else pure none

-- The fuel of a loop that takes a token each round.
abbrev pub fuel_of : Tokens → ℕ
fuel_of ts = suc (length ts)

abbrev pub more_segments : P (List Ident) → Option Span → P (List Ident)
more_segments again none = pure []
more_segments again (some _) = do i ← expect_ident; is ← again; pure (i ∷ is)

unfoldable pub segments : ℕ → P (List Ident)
unfolding expect_ident next_if
segments zero ts = out_of_fuel
segments (suc fuel) ts = (do sep ← next_if Token.path_sep; more_segments (segments fuel) sep) ts

unfoldable pub parse_item_path : P ItemPath
unfolding expect_ident segments
parse_item_path = do
  base ← expect_ident
  rest ← λ ts. segments (fuel_of ts) ts
  pure (record { base = base; rest = rest })

abbrev pub separator : Bool → Option Token → P (Unit {0})
separator true _ = pure tt
separator false none = pure tt
separator false (some token) = do expect token; pure tt

module _ {ℓ} {A : Type ℓ} (closing : Token) (sep : Option Token) (item : P A) where
  abbrev pub list_round : Bool → P (List A) → Spanned Token → P (List A)
  list_round first again t =
      if t.0 == closing
      then (do next; pure [])
      else (do separator first sep; a ← item; as' ← again; pure (a ∷ as'))

  unfoldable pub list_loop : ℕ → Bool → P (List A)
  unfolding peek next expect
  list_loop zero first ts = out_of_fuel
  list_loop (suc fuel) first ts = (do t ← peek; list_round first (list_loop fuel false) t) ts

  unfoldable pub parse_list : P (List A)
  unfolding list_loop
  parse_list ts = list_loop (fuel_of ts) true ts

-- `path.span().with(path)`
abbrev pub spanned_path : ItemPath → Spanned ItemPath
spanned_path path = (path, path_span path)

-- `arguments.last()` with its span, or the given one.
abbrev pub last_span : Span → List Expression → Span
last_span s [] = s
last_span s (e ∷ []) = expression_span e
last_span s (e ∷ f ∷ es) = last_span s (f ∷ es)

abbrev pub last_node_span : Span → List (Spanned Node) → Span
last_node_span s [] = s
last_node_span s (n ∷ ns) = last_node_span n.1 ns

-- The span of a chain.
abbrev pub chain_span : Span → List (Spanned Node) → Span
chain_span start [] = start
chain_span start (n ∷ ns) = join start (last_node_span n.1 ns)

abbrev pub phantom_list : Option Span → P (List (Spanned ItemPath))
phantom_list (some _) = do
  paths ← parse_list Token.closing_paren (some Token.comma) parse_item_path
  pure (map spanned_path paths)
phantom_list none = do path ← parse_item_path; pure (spanned_path path ∷ [])

-- The span of the token that is next.
unfoldable pub start_span : P Span
start_span [] = err (internal_error "Hit end of token list")
start_span (t ∷ ts) = ok (t.1, t ∷ ts)

abbrev pub parse_phantoms : Option Span → P (Span × List (Spanned ItemPath))
parse_phantoms (some s) = do
  paren ← next_if Token.open_paren
  paths ← phantom_list paren
  pure (s, paths)
parse_phantoms none = do s ← start_span; pure (s, [])

module _ (again : P Expression) where
  -- A node from its `(`.
  unfoldable pub finish_node : Span → ItemPath → List (Spanned ItemPath) → P (Spanned Node)
  unfolding expect parse_list
  finish_node start path phantoms = do
    expect Token.open_paren
    arguments ← parse_list Token.closing_paren (some Token.comma) again
    pure (
      node path (path_span path) (expressions_of arguments) phantoms,
      join start (last_span start arguments),
    )

  unfoldable pub parse_node : Option ItemPath → P (Spanned Node)
  unfolding finish_node parse_list parse_item_path next_if start_span
  parse_node (some path) = finish_node (path_span path) path []
  parse_node none = do
    waiting ← next_if Token.wait
    (start, phantoms) ← parse_phantoms waiting
    path ← parse_item_path
    finish_node start path phantoms

  abbrev pub call_or_label : ItemPath → Spanned Token → P Expression
  call_or_label path t =
      if t.0 == Token.open_paren
      then (do (n, s) ← parse_node (some path); pure (node_expression n s))
      else pure (label path (path_span path))

  abbrev pub atom_at : Spanned Token → P Expression
  atom_at (Token.numeric value, _) = do (_, s) ← next; pure (number value s)
  atom_at (Token.string value, _) = do (_, s) ← next; pure (string value s)
  atom_at (Token.ident _, _) = do path ← parse_item_path; t ← peek; call_or_label path t
  atom_at _ = do (n, s) ← parse_node none; pure (node_expression n s)

  unfoldable pub parse_atom : P Expression
  unfolding next peek parse_item_path parse_node
  parse_atom = do t ← peek; atom_at t

  abbrev pub more_nodes : P (List (Spanned Node)) → Option Span → P (List (Spanned Node))
  more_nodes rest none = pure []
  more_nodes rest (some _) = do n ← parse_node none; ns ← rest; pure (n ∷ ns)

  -- `parse_chain`, from the first `>`
  unfoldable pub chain_loop : ℕ → P (List (Spanned Node))
  unfolding next_if parse_node
  chain_loop zero ts = out_of_fuel
  chain_loop (suc fuel) ts = (do more ← next_if Token.pipe; more_nodes (chain_loop fuel) more) ts

  abbrev pub chain_or : Expression → Spanned Token → P Expression
  chain_or value t =
      if t.0 == Token.pipe
      then (do
        nodes ← λ ts. chain_loop (fuel_of ts) ts
        pure (chain value (nodes_of nodes) (chain_span (expression_span value) nodes)))
      else pure value

  unfoldable pub expression_with : P Expression
  unfolding parse_atom peek chain_loop expression_span
  expression_with = do value ← parse_atom; t ← peek; chain_or value t

-- The fuel bounds the depth of the expression.
unfoldable pub parse_expression : ℕ → P Expression
unfolding expression_with
parse_expression zero ts = out_of_fuel
parse_expression (suc fuel) ts = expression_with (parse_expression fuel) ts

-- The depth is less than the number of tokens.
unfoldable pub expression : P Expression
unfolding parse_expression
expression ts = parse_expression (fuel_of ts) ts

abbrev pub parameter_default : Ident → Option Span → P (Ident × Option Expression)
parameter_default name none = pure (name, none)
parameter_default name (some _) = do default ← expression; pure (name, some default)

unfoldable pub parse_parameter : P (Ident × Option Expression)
unfolding expect_ident next_if expression
parse_parameter = do name ← expect_ident; eq ← next_if Token.equals; parameter_default name eq

-- Parameters without a default before those with one.
unfoldable pub split_parameters :
    Bool
    → List (Ident × Option Expression)
    → Outcome CompileError (List Ident × List (Ident × Expression))
split_parameters done_required [] = ok ([], [])
split_parameters false ((name, none) ∷ ps) =
    bind (split_parameters false ps) λ (required, defaults). ok (name ∷ required, defaults)
split_parameters true ((name, none) ∷ ps) = err (required_after_default name.1)
split_parameters done_required ((name, some default) ∷ ps) =
    bind (split_parameters true ps)
      λ (required, defaults). ok (required, (name, default) ∷ defaults)

abbrev pub lift {ℓ} : {A : Type ℓ} → Outcome CompileError A → P A
lift r ts = bind r λ a. ok (a, ts)

unfoldable pub parse_label : Option Span → Span → Text → P Statement
unfolding expect expression
parse_label export_kw s name = do
  expect Token.equals
  e ← expression
  expect Token.semi_colon
  pure (label_statement export_kw e (name, s))

unfoldable pub parse_import : Option Span → P Statement
unfolding expect expect_str expect_ident
parse_import export_kw = do
  path ← expect_str
  expect Token.as_kw
  name ← expect_ident
  expect Token.semi_colon
  pure (import_statement export_kw path name)

unfoldable pub parse_return : Span → P Statement
unfolding expect expression
parse_return s = do e ← expression; expect Token.semi_colon; pure (return_statement s e)

module _ (again : P Statement) where
  unfoldable pub parse_function_def : Option Span → P Statement
  unfolding expect expect_ident parse_list parse_parameter split_parameters
  parse_function_def export_kw = do
    name ← expect_ident
    expect Token.open_paren
    parameters ← parse_list Token.closing_paren (some Token.comma) parse_parameter
    (required, defaults) ← lift (split_parameters false parameters)
    expect Token.open_bracket
    statements ← parse_list Token.closing_bracket none again
    pure (function_statement export_kw name required defaults (statements_of statements))

  abbrev pub exported : Span → Spanned Token → P Statement
  exported s (Token.def_kw, _) = parse_function_def (some s)
  exported s (Token.ident name, at) = parse_label (some s) at name
  exported s (Token.import_kw, _) = parse_import (some s)
  exported s (got, at) =
      raise (unexpected_token (Description.fixed "import, def or ident") (describe got) at)

  abbrev pub statement_at : Spanned Token → P Statement
  statement_at (Token.return_kw, s) = parse_return s
  statement_at (Token.def_kw, _) = parse_function_def none
  statement_at (Token.ident name, s) = parse_label none s name
  statement_at (Token.import_kw, _) = parse_import none
  statement_at (Token.export_kw, s) = do t ← next; exported s t
  statement_at (got, s) =
      raise (
        unexpected_token (Description.fixed "import, export, return, def or ident") (describe got)
          s)

  unfoldable pub statement_with : P Statement
  unfolding next parse_return parse_function_def parse_label parse_import
  statement_with = do t ← next; statement_at t

-- The fuel bounds the depth of function definitions in one another.
unfoldable pub parse_statement : ℕ → P Statement
unfolding statement_with
parse_statement zero ts = out_of_fuel
parse_statement (suc fuel) ts = statement_with (parse_statement fuel) ts

unfoldable pub statement : P Statement
unfolding parse_statement
statement ts = parse_statement (fuel_of ts) ts

-- Up to `Eof`, or the end.
unfoldable pub file_loop : ℕ → Tokens → Outcome CompileError (List Statement)
unfolding statement
file_loop zero ts = out_of_fuel
file_loop (suc fuel) [] = ok []
file_loop (suc fuel) (t ∷ ts) =
    let more =
      bind (statement (t ∷ ts)) (λ (s, us). bind (file_loop fuel us) (λ ss. ok (s ∷ ss))) in
    if t.0 == Token.eof then ok [] else more

unfoldable pub parse_file : Tokens → Outcome CompileError Statements
unfolding file_loop
parse_file ts = bind (file_loop (fuel_of ts) ts) λ ss. ok (statements_of ss)
