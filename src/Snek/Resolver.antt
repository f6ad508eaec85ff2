-- ===== src/Snek/Resolver.antt =====
-- serpentine/src/snek/resolver.rs: from the syntax trees of a file and the files that it imports to
-- the intermediate representation. The state holds what the methods are given to change: the
-- resolver, the top level body and the context of the statement.
pub mod Statements
pub mod Modules
pub mod Invariant
pub mod Calls
pub mod Bodies
pub mod Imports
pub mod Resolves
pub mod Repeats
use serpentine.Prelude.{
  ℕ, zero, suc, ◌+◌, String, Bool, true, false, Option, none, some, List, [], ◌∷◌, ◌++◌, map,
  length, get_elem?, Eq, ◌==◌, nat_eq, list_eq, ◌≡◌, ◌↔◌, refl, ap, arith, nat_beq_iff,
  list_beq_iff, list_beq, if◌then◌else◌,
}
use serpentine.Prelude.Map.{Map, lookup, insert}
use serpentine.Prelude.Outcome.{Outcome, ok, err, panic, out_of_fuel, bind, expect}
use serpentine.Prelude.Text.{Text, codes, bytes}
use serpentine.Engine.DataModel.{Data, pos}
use serpentine.Engine.Nodes.{NodeImpl, literal, prelude}
use serpentine.Snek.Span.{Span, Spanned}
use serpentine.Snek.CompileError.{
  CompileError, file_reading, item_not_found, invalid_statement, return_not_found, double_return,
  circular_import, import_error,
}
use serpentine.Snek.Ast
use serpentine.Snek.Ast.{
  Ident, ItemPath, Expression, Nodes, Expressions, number, string, node_expression, chain, node,
  no_nodes, node_cons, no_expressions, expression_cons,
}
use serpentine.Snek.Ir
use serpentine.Snek.Ir.{Body, Function, builtin_function, custom, Pipeline}
use serpentine.Snek.Parser.{parse_file}
use serpentine.Snek.Tokenizer.{CharClasses, tokenize}
use serpentine.Snek.VirtualFile.{VirtualFile, push}
use serpentine.Snek.Compiler.{ResolveResult}
use serpentine.Snek.Scope.{
  ScopeItem, module_item, function, label, Items, Scope, root, child, insert_item, lookup_item,
  try_into_module, try_into_label, try_into_function,
}

-- What the resolver uses of paths and files. `stdlib_root` is the test of a path's first component;
-- the reads give nothing where the file is missing or not in UTF-8.
pub record Files (PathBuf : Type 0) : Type 0 where
  pub stdlib_root : PathBuf → Bool
  pub canonicalize : PathBuf → Option PathBuf
  pub parent : PathBuf → Option PathBuf
  pub join : PathBuf → PathBuf → PathBuf
  pub from_text : Text → PathBuf
  pub display : PathBuf → Text
  pub bundled : PathBuf → Option Text
  pub read_to_string : PathBuf → Option Text

pub data LiteralKey : Type 0 where
  int : ℕ → LiteralKey
  str : Text → LiteralKey

-- `LiteralKey` derives `Eq`.
abbrev pub key_beq : LiteralKey → LiteralKey → Bool
key_beq (int m) (int n) = m == n
key_beq (str s) (str t) = s == t
key_beq _ _ = false

pub key_beq_iff : (a b : LiteralKey) → (key_beq a b ≡ true) ↔ (a ≡ b)
key_beq_iff (int m) (int n) = (λ h. ap int ((nat_beq_iff m n).0 h), λ p. (nat_beq_iff m n).1 (cc))
key_beq_iff (str s) (str t) = (λ h. ap str ((list_beq_iff s t).0 h), λ p. (list_beq_iff s t).1 (cc))
key_beq_iff (int m) (str t) = (λ h. cc, λ p. cc)
key_beq_iff (str s) (int n) = (λ h. cc, λ p. cc)

instance abbrev pub key_eq : Eq LiteralKey
key_eq = record { is_eq = key_beq; is_eq_iff = key_beq_iff }

-- `From<LiteralKey> for Data`
unfoldable pub data_of : {P : Type 0} → LiteralKey → Data P
data_of (int n) = Data.int (pos n)
data_of (str s) = Data.string s

-- The exports of a module, or the return value and the body of a function.
pub data StatementContext : Type 0 where
  in_module : Items → StatementContext
  in_function : Option ℕ → List Ir.Node → StatementContext

-- A module is its exports.
pub record Resolver (PathBuf P : Type 0) : Type 0 where
  pub modules : List Items
  pub module_cache : Map PathBuf (Option ℕ)
  pub nodes : List (NodeImpl P)
  pub functions : List Function
  pub file : VirtualFile PathBuf
  pub next_symbol_id : ℕ
  pub cached_literals : Map LiteralKey ℕ
  pub top_level_body : List Ir.Node
  pub context : StatementContext

abbrev pub M {ℓ} : Type 0 → Type 0 → Type ℓ → Type ℓ
M PathBuf P A = Resolver PathBuf P → Outcome CompileError (A × Resolver PathBuf P)

abbrev pub with_first : Option ℕ → List ℕ → List ℕ
with_first none arguments = arguments
with_first (some symbol) arguments = symbol ∷ arguments

module _ {PathBuf P : Type 0} where
  module _ {ℓ} {A : Type ℓ} where
    abbrev pub pure : A → M PathBuf P A
    pure a st = ok (a, st)

    abbrev pub raise : CompileError → M PathBuf P A
    raise e st = err e

    abbrev pub lift : Outcome CompileError A → M PathBuf P A
    lift r st = bind r λ a. ok (a, st)

  module _ {ℓ κ} {A : Type ℓ} {B : Type κ} where
    infixl 5 ◌>>=◌ ◌>>◌
    abbrev pub ◌>>=◌ : M PathBuf P A → (A → M PathBuf P B) → M PathBuf P B
    ◌>>=◌ m f st = bind (m st) λ (a, st'). f a st'

    abbrev pub ◌>>◌ : M PathBuf P A → M PathBuf P B → M PathBuf P B
    m >> k = m >>= λ _. k

  -- The symbols are natural numbers here: the program panics past the largest `usize`.
  unfoldable pub new_symbol : M PathBuf P ℕ
  new_symbol st = ok (st.next_symbol_id, record st { next_symbol_id = suc st.next_symbol_id })

  -- `body_for_statements`, and the push onto it.
  abbrev pub emit_in : StatementContext → Ir.Node → M PathBuf P (Unit {0})
  emit_in (in_module exports) n st =
      ok (tt, record st { top_level_body = st.top_level_body ++ n ∷ [] })
  emit_in (in_function value body) n st =
      ok (tt, record st { context = in_function value (body ++ n ∷ []) })

  unfoldable pub emit : Ir.Node → M PathBuf P (Unit {0})
  emit n st = emit_in st.context n st

  abbrev pub export_in : StatementContext → Text → ScopeItem → Span → M PathBuf P (Unit {0})
  export_in (in_module exports) name item s st =
      ok (tt, record st { context = in_module (insert exports name item) })
  export_in (in_function value body) name item s st =
      err (invalid_statement "export" "function" "return" s)

  -- `StatementContext::export`, where there is an `export` keyword.
  unfoldable pub export : Option Span → Text → ScopeItem → M PathBuf P (Unit {0})
  export none name item st = ok (tt, st)
  export (some s) name item st = export_in st.context name item s st

  abbrev pub return_in : StatementContext → ℕ → Span → M PathBuf P (Unit {0})
  return_in (in_function none body) value s st =
      ok (tt, record st { context = in_function (some value) body })
  return_in (in_function (some _) body) value s st = err (double_return s)
  return_in (in_module exports) value s st = err (invalid_statement "return" "module" "export" s)

  unfoldable pub set_return_value : ℕ → Span → M PathBuf P (Unit {0})
  set_return_value value s st = return_in st.context value s st

  -- The rest of a path, from the item before it.
  unfoldable pub segments : ScopeItem → Span → List Ident → M PathBuf P ScopeItem
  unfolding lookup_item try_into_module
  segments item previous [] = pure item
  segments item previous ((name, s) ∷ is) = λ st. bind (try_into_module item previous) λ m.
      bind (expect (get_elem? st.modules m))
        λ items. bind (lookup_item (items ∷ []) name s) λ next. segments next s is st

  unfoldable pub get_item_path : Scope → ItemPath → M PathBuf P ScopeItem
  unfolding segments lookup_item
  get_item_path scope path = do
    item ← lift (lookup_item scope path.base.0 path.base.1)
    segments item path.base.1 path.rest

  -- On what the cache of literals holds.
  abbrev pub cached_or_emitted : LiteralKey → Span → Option ℕ → M PathBuf P ℕ
  cached_or_emitted key s (some symbol) st = ok (symbol, st)
  cached_or_emitted key s none st = ok (
    st.next_symbol_id,
    record st {
      nodes = st.nodes ++ literal (data_of key) ∷ [];
      functions = st.functions ++ builtin_function (length st.nodes) ∷ [];
      next_symbol_id = suc st.next_symbol_id;
      top_level_body =
          st.top_level_body
          ++ record {
            name = st.next_symbol_id;
            function = length st.functions;
            arguments = [];
            phantom_inputs = [];
            span = s;
          }
            ∷ [];
      cached_literals = insert st.cached_literals key st.next_symbol_id;
    },
  )

  unfoldable pub resolve_literal : LiteralKey → Span → M PathBuf P ℕ
  unfolding data_of
  resolve_literal key s st = cached_or_emitted key s (lookup st.cached_literals key) st

  unfoldable pub resolve_label : Scope → ItemPath → Span → M PathBuf P ℕ
  unfolding get_item_path try_into_label
  resolve_label scope path s = do item ← get_item_path scope path; lift (try_into_label item s)

  unfoldable pub resolve_function : Scope → ItemPath → Span → M PathBuf P ℕ
  unfolding get_item_path try_into_function
  resolve_function scope path s = do
    item ← get_item_path scope path
    lift (try_into_function item s)

  unfoldable pub resolve_phantoms : Scope → List (Spanned ItemPath) → M PathBuf P (List ℕ)
  unfolding resolve_label
  resolve_phantoms scope [] = pure []
  resolve_phantoms scope ((path, s) ∷ ps) = do
    symbol ← resolve_label scope path s
    symbols ← resolve_phantoms scope ps
    pure (symbol ∷ symbols)

  -- The last steps of `resolve_node`.
  unfoldable pub emit_call : ℕ → List ℕ → List ℕ → Span → M PathBuf P ℕ
  unfolding new_symbol emit
  emit_call function_id arguments phantoms s = do
    symbol ← new_symbol
    emit (record {
      name = symbol;
      function = function_id;
      arguments = arguments;
      phantom_inputs = phantoms;
      span = s;
    })
    pure symbol

  unfoldable mutual
    unfolding resolve_literal resolve_label resolve_function resolve_phantoms emit_call

    pub resolve_expression : Scope → Expression → M PathBuf P ℕ
    resolve_expression scope (number n s) = resolve_literal (int n) s
    resolve_expression scope (string t s) = resolve_literal (str t) s
    resolve_expression scope (Expression.label path s) = resolve_label scope path s
    resolve_expression scope (node_expression n s) = resolve_node scope none n s
    resolve_expression scope (chain start ns s) = do
      current ← resolve_expression scope start
      resolve_chain scope current ns

    pub resolve_chain : Scope → ℕ → Nodes → M PathBuf P ℕ
    resolve_chain scope current no_nodes = pure current
    resolve_chain scope current (node_cons n s ns) = do
      next ← resolve_node scope (some current) n s
      resolve_chain scope next ns

    pub resolve_node : Scope → Option ℕ → Ast.Node → Span → M PathBuf P ℕ
    resolve_node scope first (node path path_s arguments phantoms) s = do
      function_id ← resolve_function scope path path_s
      phantom_symbols ← resolve_phantoms scope phantoms
      symbols ← resolve_arguments scope arguments
      emit_call function_id (with_first first symbols) phantom_symbols s

    pub resolve_arguments : Scope → Expressions → M PathBuf P (List ℕ)
    resolve_arguments scope no_expressions = pure []
    resolve_arguments scope (expression_cons e es) = do
      symbol ← resolve_expression scope e
      symbols ← resolve_arguments scope es
      pure (symbol ∷ symbols)
