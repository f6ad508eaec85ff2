-- ===== src/Snek/Resolver/Statements.antt =====
-- serpentine/src/snek/resolver.rs: `resolve_statement`. Function parameters and bodies have scopes and
-- contexts of their own.
use serpentine.Prelude.{
  ℕ, Option, none, some, List, [], ◌∷◌, ◌++◌, length, nat_eq, list_eq, if◌then◌else◌,
}
use serpentine.Prelude.Outcome.{Outcome, ok, err, panic, out_of_fuel, bind}
use serpentine.Prelude.Text.{Text, codes}
use serpentine.Snek.Span.{Span}
use serpentine.Snek.CompileError.{CompileError, return_not_found, import_error}
use serpentine.Snek.Ast.{
  Ident, Expression, Statement, Statements, return_statement, import_statement, label_statement,
  function_statement, no_statements, statement_cons,
}
use serpentine.Snek.Ir
use serpentine.Snek.Ir.{Body, Function, builtin_function, custom, Pipeline}
use serpentine.Snek.Scope.{
  ScopeItem, module_item, function, label, Items, Scope, child, insert_item,
}
use serpentine.Snek.Resolver.{
  Files, key_eq, StatementContext, in_module, in_function, Resolver, M, pure, lift, ◌>>=◌, ◌>>◌,
  new_symbol, ok, err, export, set_return_value, bind, resolve_expression,
}

abbrev pub body_of : StatementContext → List Ir.Node
body_of (in_function value body) = body
body_of (in_module exports) = []

abbrev pub exports_of : StatementContext → Items
exports_of (in_module exports) = exports
exports_of (in_function value body) = []

-- The return value of a function, whose name has the span.
abbrev pub return_of : StatementContext → Span → Outcome CompileError ℕ
return_of (in_function (some value) body) s = ok value
return_of (in_function none body) s = err (return_not_found s)
return_of (in_module exports) s = err (return_not_found s)

module _ {PathBuf P : Type 0} where
  -- Runs with a context of its own, and gives what that context has become.
  abbrev pub with_context {ℓ} :
      {A : Type ℓ} → StatementContext → M PathBuf P A → M PathBuf P (A × StatementContext)
  with_context c m st =
      bind (m (record st { context = c }))
        λ (a, st'). ok ((a, st'.context), record st' { context = st.context })

  unfoldable pub declare_required : Scope → List Ident → M PathBuf P (Scope × List ℕ)
  unfolding new_symbol
  declare_required scope [] = pure (scope, [])
  declare_required scope (name ∷ names) = do
    symbol ← new_symbol
    (scope', symbols) ← declare_required (insert_item scope name.0 (label symbol)) names
    pure (scope', symbol ∷ symbols)

  -- The body of a default is its own.
  unfoldable pub declare_defaults :
      Scope → List (Ident × Expression) → M PathBuf P (Scope × List (ℕ × ℕ × Body))
  unfolding new_symbol resolve_expression
  declare_defaults scope [] = pure (scope, [])
  declare_defaults scope ((name, default) ∷ ps) = do
    (default_symbol, context) ←
        with_context (in_function none []) (resolve_expression scope default)
    symbol ← new_symbol
    (scope', defaults) ← declare_defaults (insert_item scope name.0 (label symbol)) ps
    pure (scope', (symbol, default_symbol, body_of context) ∷ defaults)

  -- `Store::push` of the functions.
  unfoldable pub push_function : Function → M PathBuf P ℕ
  push_function f st = ok (length st.functions, record st { functions = st.functions ++ f ∷ [] })

  -- The item of a statement, exported if it is to be.
  abbrev pub bind_item : Option Span → Scope → Text → ScopeItem → M PathBuf P Scope
  bind_item export_kw scope name item = do
    export export_kw name item
    pure (insert_item scope name item)

  -- What an import reports of an error in the module.
  abbrev pub imported :
      Text
      → Span
      → Outcome CompileError (ℕ × Resolver PathBuf P)
      → Outcome CompileError (ℕ × Resolver PathBuf P)
  imported path s (ok r) = ok r
  imported path s (err e) = err (import_error path e s)
  imported path s panic = panic
  imported path s out_of_fuel = out_of_fuel

-- `get` is `get_module`, and `current` the path of the file that the statements are in. A statement
-- gives the scope after it.
module _ {PathBuf P : Type 0} (files : Files PathBuf) (get : PathBuf → M PathBuf P ℕ)
    (current : PathBuf) where
  -- The path of an import, relative to the file that it stands in.
  abbrev pub import_path : Text → PathBuf
  import_path text =
      let path = files.from_text text in
      if files.stdlib_root path
      then path
      else files.join
          (elim (files.parent current) [ none ↦ files.from_text (codes "/") | some p ↦ p ]) path

  unfoldable mutual
    unfolding resolve_expression export set_return_value declare_required declare_defaults
        push_function

    pub resolve_statement : Scope → Statement → M PathBuf P Scope
    resolve_statement scope (import_statement export_kw path name) = do
      m ← λ st. imported (files.display (import_path path.0)) path.1 (get (import_path path.0) st)
      bind_item export_kw scope name.0 (module_item m)
    resolve_statement scope (return_statement return_kw e) = do
      value ← resolve_expression scope e
      set_return_value value return_kw
      pure scope
    resolve_statement scope (label_statement export_kw e name) = do
      value ← resolve_expression scope e
      bind_item export_kw scope name.0 (label value)
    resolve_statement scope (function_statement export_kw name required defaults statements) = do
      (scope₁, required_symbols) ← declare_required (child scope) required
      (scope₂, default_symbols) ← declare_defaults scope₁ defaults
      (_, context) ← with_context (in_function none []) (resolve_statements scope₂ statements)
      value ← lift (return_of context name.1)
      id ← push_function (custom required_symbols default_symbols (body_of context) value)
      bind_item export_kw scope name.0 (function id)

    pub resolve_statements : Scope → Statements → M PathBuf P Scope
    resolve_statements scope no_statements = pure scope
    resolve_statements scope (statement_cons s ss) = do
      scope' ← resolve_statement scope s
      resolve_statements scope' ss
