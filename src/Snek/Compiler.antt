-- ===== src/Snek/Compiler.antt =====
-- serpentine/src/snek/compiler.rs: every call of a snek function is inlined, and the calls of
-- builtin nodes become the nodes of a graph, each once.
pub mod Builtins
pub mod Denotation
pub mod Dedup
pub mod Invariant
pub mod Preserves
pub mod Termination
pub mod Soundness
use serpentine.Prelude.{
  ℕ, zero, suc, ◌+◌, Bool, true, false, ◌&&◌, ◌||◌, Option, none, some, List, [], ◌∷◌, ◌++◌, map,
  length, get_elem?, ltb, nat_eq, list_eq, list_beq, Eq, ◌==◌, if◌then◌else◌, ◌≡◌, refl, ◌↔◌, arith,
  list_beq_iff, nat_beq_iff,
}
use serpentine.Prelude.Outcome.{Outcome, ok, err, panic, out_of_fuel, bind, expect}
use serpentine.Prelude.Map.{Map, lookup, insert}
use serpentine.Engine.DataModel.{DataType, Node, NodeMetadata, Graph, push}
use serpentine.Engine.Nodes.{NodeImpl, ReturnTypeError, Count, exactly, between, return_type}
use serpentine.Snek.Span.{Span, dummy}
use serpentine.Snek.CompileError.{CompileError, internal_error}
use serpentine.Snek.Ir
use serpentine.Snek.Ir.{Body, Function, builtin_function, custom, Pipeline}

pub record SymbolValue : Type 0 where
  pub node : ℕ
  pub type_ : DataType
  pub span : Span

pub record ImmutableContext (P : Type 0) : Type 0 where
  pub functions : List Function
  pub nodes : List (NodeImpl P)
  pub noop : ℕ

-- `Node` derives `Eq`.
abbrev pub node_beq : Node → Node → Bool
node_beq a b =
    (a.kind == b.kind) && (list_beq a.inputs b.inputs && list_beq a.phantom_inputs b.phantom_inputs)

pub node_beq_iff : (a b : Node) → (node_beq a b ≡ true) ↔ (a ≡ b)
node_beq_iff a b = (
  λ h.
      ground
        (arith, list_beq_iff a.inputs b.inputs, list_beq_iff a.phantom_inputs b.phantom_inputs),
  λ h.
      ground
        (arith, list_beq_iff a.inputs b.inputs, list_beq_iff a.phantom_inputs b.phantom_inputs),
)

instance abbrev pub node_eq : Eq Node
node_eq = record { is_eq = node_beq; is_eq_iff = node_beq_iff }

pub record Compiler : Type 0 where
  pub graph : Graph
  pub symbol_mapping : Map ℕ SymbolValue
  pub node_cache : Map Node ℕ
  pub stack_trace : List Span

abbrev pub initial : Compiler
initial = record { graph = []; symbol_mapping = []; node_cache = []; stack_trace = [] }

-- A method that changes the compiler. After an error the compiler is dropped.
abbrev pub M {ℓ} : Type ℓ → Type ℓ
M A = Compiler → Outcome CompileError (A × Compiler)

module _ {ℓ} {A : Type ℓ} where
  abbrev pub pure : A → M A
  pure a st = ok (a, st)

  abbrev pub lift : Outcome CompileError A → M A
  lift r st = bind r λ a. ok (a, st)

module _ {ℓ κ} {A : Type ℓ} {B : Type κ} where
  infixl 5 ◌>>=◌ ◌>>◌
  abbrev pub ◌>>=◌ : M A → (A → M B) → M B
  ◌>>=◌ m f st = bind (m st) λ (a, st'). f a st'

  abbrev pub ◌>>◌ : M A → M B → M B
  m >> k = m >>= λ _. k

-- `HashMap::get` with `expect`
unfoldable pub get_symbol : ℕ → M SymbolValue
get_symbol symbol st = lift (expect (lookup st.symbol_mapping symbol)) st

abbrev pub set_symbol : ℕ → SymbolValue → M (Unit {0})
set_symbol symbol value st =
    ok (tt, record st { symbol_mapping = insert st.symbol_mapping symbol value })

unfoldable pub get_symbols : List ℕ → M (List SymbolValue)
get_symbols [] = pure []
get_symbols (s ∷ ss) = do v ← get_symbol s; vs ← get_symbols ss; pure (v ∷ vs)

-- The branches on what the cache holds.
abbrev pub cached_or_pushed : Node → NodeMetadata → Option ℕ → M ℕ
cached_or_pushed node metadata (some cached) st = ok (cached, st)
cached_or_pushed node metadata none st =
    let (graph, id) = push st.graph (node, metadata) in
    ok (id, record st { graph = graph; node_cache = insert st.node_cache node id })

unfoldable pub push_node_with_cache : Node → NodeMetadata → M ℕ
push_node_with_cache node metadata st =
    cached_or_pushed node metadata (lookup st.node_cache node) st

unfoldable pub get_stack_trace : M (List Span)
get_stack_trace st = ok (st.stack_trace, st)

unfoldable pub push_stack : Span → M (Unit {0})
push_stack span st = ok (tt, record st { stack_trace = st.stack_trace ++ span ∷ [] })

-- `Vec::pop`
unfoldable pub drop_last {ℓ} : {A : Type ℓ} → List A → List A
drop_last [] = []
drop_last (x ∷ []) = []
drop_last (x ∷ y ∷ xs) = x ∷ drop_last (y ∷ xs)

-- The program asserts in debug builds that it pops the span that it pushed.
unfoldable pub pop_stack : M (Unit {0})
unfolding drop_last
pop_stack st = ok (tt, record st { stack_trace = drop_last st.stack_trace })

-- The span of the argument at an index, a dummy if there is none.
unfoldable pub argument_span : List SymbolValue → ℕ → Span
argument_span arguments i = elim (get_elem? arguments i) [ none ↦ dummy | some v ↦ v.span ]

unfoldable pub report :
    List SymbolValue
    → Span
    → List Span
    → Outcome ReturnTypeError DataType
    → Outcome CompileError DataType
report arguments span stack (ok t) = ok t
report arguments span stack (err (ReturnTypeError.type_mismatch expected got i)) =
    err (CompileError.type_mismatch expected got (argument_span arguments i) span stack)
report arguments span stack (err (ReturnTypeError.argument_count_mismatch expected got)) =
    err (CompileError.argument_count_mismatch expected got span)
report arguments span stack panic = panic
report arguments span stack out_of_fuel = out_of_fuel

module _ {P : Type 0} where
  unfoldable pub compile_builtin :
      ImmutableContext P → ℕ → List SymbolValue → List ℕ → Span → M (ℕ × DataType)
  unfolding report push_node_with_cache get_stack_trace
  compile_builtin context kind arguments phantom_inputs span = do
    impl ← lift (expect (get_elem? context.nodes kind))
    stack_trace ← get_stack_trace
    type ←
        lift (report arguments span stack_trace (return_type impl (map (λ v. v.type_) arguments)))
    id ←
        push_node_with_cache
          (record {
            kind = kind;
            inputs = map (λ v. v.node) arguments;
            phantom_inputs = phantom_inputs;
          })
          (record { location = span; stack_trace = stack_trace })
    pure (id, type)

  -- A `Noop` after the function's output waits for the phantom inputs.
  unfoldable pub create_phantom_noop : ImmutableContext P → ℕ → List ℕ → M ℕ
  create_phantom_noop context function_output phantom_inputs =
      push_node_with_cache
        (record {
          kind = context.noop;
          inputs = function_output ∷ [];
          phantom_inputs = phantom_inputs;
        })
        (record { location = dummy; stack_trace = [] })

  -- The node of a call of a snek function, from its return value.
  unfoldable pub finish_custom : ImmutableContext P → SymbolValue → List ℕ → M ℕ
  unfolding create_phantom_noop
  finish_custom context value [] = pure value.node
  finish_custom context value (i ∷ is) = create_phantom_noop context value.node (i ∷ is)

-- Too few arguments or too many.
unfoldable pub miscounted : List ℕ → List (ℕ × ℕ × Body) → List SymbolValue → Bool
miscounted required defaults arguments =
    ltb (length arguments) (length required)
    || ltb (length required + length defaults) (length arguments)

unfoldable pub expected_count : List ℕ → List (ℕ × ℕ × Body) → Count
expected_count required [] = exactly (length required)
expected_count required (d ∷ ds) = between (length required) (length required + length (d ∷ ds))

-- The methods that run bodies take the run of a body as an argument.
module _ (compile_body : Body → M (Unit {0})) where
  -- Returns the arguments that are left.
  unfoldable pub set_required : List ℕ → List SymbolValue → M (List SymbolValue)
  set_required [] arguments = pure arguments
  set_required (p ∷ ps) [] =
      lift (err (internal_error "not enough arguments even tho we checked above."))
  set_required (p ∷ ps) (a ∷ as') = do set_symbol p a; set_required ps as'

  unfoldable pub set_defaults : List (ℕ × ℕ × Body) → List SymbolValue → M (Unit {0})
  set_defaults [] arguments = pure tt
  set_defaults ((p, default_symbol, body) ∷ ps) (a ∷ as') = do set_symbol p a; set_defaults ps as'
  set_defaults ((p, default_symbol, body) ∷ ps) [] = do
    compile_body body
    value ← get_symbol default_symbol
    set_symbol p value
    set_defaults ps []

  unfoldable pub handle_custom_arguments :
      List ℕ → List (ℕ × ℕ × Body) → List SymbolValue → Span → M (Unit {0})
  unfolding set_required set_defaults miscounted expected_count
  handle_custom_arguments required defaults arguments span =
      if miscounted required defaults arguments
      then lift (
          err (
            CompileError.argument_count_mismatch (expected_count required defaults)
              (length arguments) span))
      else do rest ← set_required required arguments; set_defaults defaults rest

  module _ {P : Type 0} (context : ImmutableContext P) where
    unfoldable pub compile_function : Function → List SymbolValue → List ℕ → Span → M (ℕ × DataType)
    unfolding handle_custom_arguments finish_custom compile_builtin
    compile_function (builtin_function kind) arguments phantom_inputs span =
        compile_builtin context kind arguments phantom_inputs span
    compile_function (custom required defaults body return_value) arguments phantom_inputs span = do
      push_stack span
      handle_custom_arguments required defaults arguments span
      compile_body body
      value ← get_symbol return_value
      id ← finish_custom context value phantom_inputs
      pop_stack
      pure (id, value.type_)

    unfoldable pub compile_call : Ir.Node → M (Unit {0})
    unfolding compile_function
    compile_call node = do
      arguments ← get_symbols node.arguments
      phantoms ← get_symbols node.phantom_inputs
      function ← lift (expect (get_elem? context.functions node.function))
      result ← compile_function function arguments (map (λ v. v.node) phantoms) node.span
      set_symbol node.name (record { node = result.0; type_ = result.1; span = node.span })

-- `for node in body { compile_node(node)?; }`
unfoldable pub run_body : (Ir.Node → M (Unit {0})) → Body → M (Unit {0})
run_body compile_one [] = pure tt
run_body compile_one (n ∷ ns) = do compile_one n; run_body compile_one ns

module _ {P : Type 0} (context : ImmutableContext P) where
  -- The fuel bounds the depth of calls of snek functions.
  unfoldable pub compile_node : ℕ → Ir.Node → M (Unit {0})
  unfolding run_body compile_call
  compile_node zero node st = out_of_fuel
  compile_node (suc fuel) node st = compile_call (run_body (compile_node fuel)) context node st

pub record ResolveResult (P : Type 0) : Type 0 where
  pub ir : Pipeline
  pub nodes : List (NodeImpl P)
  pub noop : ℕ

pub record CompileResult (P : Type 0) : Type 0 where
  pub nodes : List (NodeImpl P)
  pub graph : Graph
  pub start_node : ℕ

abbrev pub context_of : {P : Type 0} → ResolveResult P → ImmutableContext P
context_of r = record { functions = r.ir.functions; nodes = r.nodes; noop = r.noop }

-- A call goes one function down, so the functions' number and one more is fuel enough where each
-- calls only those before it.
unfoldable pub compile : {P : Type 0} → ResolveResult P → Outcome CompileError (CompileResult P)
unfolding run_body compile_node get_symbol
compile r =
    bind
      (run_body (compile_node (context_of r) (suc (length r.ir.functions))) r.ir.top_level initial)
      λ (_, st).
        bind (get_symbol r.ir.start_point st)
          λ (v, st'). ok (record { nodes = r.nodes; graph = st'.graph; start_node = v.node })
