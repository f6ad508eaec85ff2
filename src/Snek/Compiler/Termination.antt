-- ===== src/Snek/Compiler/Termination.antt =====
-- compiler.rs: the depth of the calls that `compile_node` inlines.
use serpentine.Prelude.{
  ℕ, zero, suc, ◌<◌, ◌≡◌, ◌≢◌, refl, Option, some, none, List, [], ◌∷◌, get_elem?, get_elem?_lt,
  length, map, All, arith, Bool-cases, inl, inr,
}
use serpentine.Prelude.Outcome.{
  Outcome, ok, err, panic, out_of_fuel, expect, bind-ne-out_of_fuel, expect-ne-out_of_fuel,
}
use serpentine.Engine.DataModel.{DataType, Node, NodeMetadata}
use serpentine.Engine.Nodes.{
  NodeImpl, noop, all, join, literal, wrap, return_type, ReturnTypeError, check_strings,
}
use serpentine.Snek.Span.{Span}
use serpentine.Snek.CompileError.{CompileError}
use serpentine.Snek.Ir
use serpentine.Snek.Ir.{Function, Body, builtin_function, custom}
use serpentine.Snek.Compiler.{
  SymbolValue, Compiler, ImmutableContext, ResolveResult, M, lift, initial, context_of, compile,
  get_symbol, get_symbols, set_symbol, ◌>>=◌, run_body, compile_node, compile_call,
  compile_function, handle_custom_arguments, miscounted, set_required, set_defaults,
  compile_builtin, finish_custom, push_node_with_cache, cached_or_pushed, report, get_stack_trace,
  push_stack, pop_stack,
}

-- The run does not run out of fuel.
abbrev Ends {ℓ} : {A : Type ℓ} → Outcome CompileError A → Type ℓ
Ends r = r ≢ out_of_fuel

-- Every call of the body is of a function before `k`.
abbrev pub CallsBelow : ℕ → Body → Type 0
CallsBelow k body = All (λ (n : Ir.Node). n.function < k) body

abbrev pub FunctionCallsBelow : ℕ → Function → Type 0
FunctionCallsBelow k (builtin_function kind) = Unit
FunctionCallsBelow k (custom required defaults body return_value) =
    All (λ (d : ℕ × ℕ × Body). CallsBelow k d.2) defaults × CallsBelow k body

-- The resolver gives a function its id after it has resolved the function's body.
abbrev pub IsStratified : List Function → Type 0
IsStratified functions =
    (k : ℕ) (f : Function) → get_elem? functions k ≡ some f → FunctionCallsBelow k f

lift-Ends {ℓ} :
    {A : Type ℓ} (r : Outcome CompileError A) (st : Compiler) → Ends r → Ends (lift r st)
lift-Ends r st h = bind-ne-out_of_fuel r _ h (λ a. cc)

get_symbol-Ends : (s : ℕ) (st : Compiler) → Ends (get_symbol s st)
unfolding get_symbol
get_symbol-Ends s st = lift-Ends (expect _) st (expect-ne-out_of_fuel _)

get_symbols-Ends : (ss : List ℕ) (st : Compiler) → Ends (get_symbols ss st)
unfolding get_symbols
get_symbols-Ends [] st = cc
get_symbols-Ends (s ∷ ss) st =
    bind-ne-out_of_fuel _ _ (get_symbol-Ends s st)
      λ (v, st₁). bind-ne-out_of_fuel _ _ (get_symbols-Ends ss st₁) (λ a. cc)

push-Ends : (n : Node) (m : NodeMetadata) (st : Compiler) → Ends (push_node_with_cache n m st)
unfolding push_node_with_cache
push-Ends n m st = go _
  where
    go : (o : Option ℕ) → Ends (cached_or_pushed n m o st)
    go none = cc
    go (some i) = cc

check_strings-Ends : (ts : List DataType) (i : ℕ) → check_strings ts i ≢ out_of_fuel
unfolding check_strings
check_strings-Ends [] i = cc
check_strings-Ends (t ∷ ts) i = ground (arith, check_strings-Ends ts (suc i))

return_type-Ends :
    {P : Type 0} (impl : NodeImpl P) (ts : List DataType) → return_type impl ts ≢ out_of_fuel
unfolding return_type
return_type-Ends noop [] = cc
return_type-Ends noop (t ∷ []) = cc
return_type-Ends noop (t ∷ t' ∷ ts) = cc
return_type-Ends all [] = cc
return_type-Ends all (t ∷ ts) = cc
return_type-Ends join ts = check_strings-Ends ts 0
return_type-Ends (literal d) ts = cc
return_type-Ends (wrap w) ts = ground arith

report-Ends :
    (vs : List SymbolValue) (span : Span) (stack : List Span) (r : Outcome ReturnTypeError DataType)
    → r ≢ out_of_fuel
    → Ends (report vs span stack r)
unfolding report
report-Ends vs span stack (ok t) h = cc
report-Ends vs span stack (err (ReturnTypeError.type_mismatch _ _ _)) h = cc
report-Ends vs span stack (err (ReturnTypeError.argument_count_mismatch _ _)) h = cc
report-Ends vs span stack panic h = cc
report-Ends vs span stack out_of_fuel h = absurd (h refl)

module _ {P : Type 0} (context : ImmutableContext P) where
  compile_builtin-Ends :
      (kind : ℕ) (vs : List SymbolValue) (phantoms : List ℕ) (span : Span) (st : Compiler)
      → Ends (compile_builtin context kind vs phantoms span st)
  unfolding compile_builtin get_stack_trace
  compile_builtin-Ends kind vs phantoms span st =
      bind-ne-out_of_fuel _ _
        (lift-Ends _ st (expect-ne-out_of_fuel (get_elem? context.nodes kind)))
        λ (impl, st₁).
          bind-ne-out_of_fuel _ _
            (lift-Ends _ st₁ (report-Ends vs span st₁.stack_trace _ (return_type-Ends impl _)))
            λ (τ, st₂). bind-ne-out_of_fuel _ _ (push-Ends _ _ st₂) (λ a. cc)

  finish-Ends :
      (v : SymbolValue) (phantoms : List ℕ) (st : Compiler)
      → Ends (finish_custom context v phantoms st)
  unfolding finish_custom
  finish-Ends v [] st = cc
  finish-Ends v (i ∷ is) st = push-Ends _ _ st

  module _ (run : Body → M (Unit {0})) (k : ℕ)
      (run-Ends : (b : Body) (st : Compiler) → CallsBelow k b → Ends (run b st)) where
    set_required-Ends :
        (ps : List ℕ) (vs : List SymbolValue) (st : Compiler) → Ends (set_required run ps vs st)
    unfolding set_required
    set_required-Ends [] vs st = cc
    set_required-Ends (p ∷ ps) [] st = cc
    set_required-Ends (p ∷ ps) (v ∷ vs) st = set_required-Ends ps vs _

    set_defaults-Ends :
        (ps : List (ℕ × ℕ × Body)) (vs : List SymbolValue) (st : Compiler)
        → All (λ (d : ℕ × ℕ × Body). CallsBelow k d.2) ps
        → Ends (set_defaults run ps vs st)
    unfolding set_defaults
    set_defaults-Ends [] vs st h = cc
    set_defaults-Ends ((p, s, b) ∷ ps) (v ∷ vs) st h = set_defaults-Ends ps vs _ h.1
    set_defaults-Ends ((p, s, b) ∷ ps) [] st h =
        bind-ne-out_of_fuel _ _ (run-Ends b st h.0) λ (u, st₁).
          bind-ne-out_of_fuel _ _ (get_symbol-Ends s st₁) λ (v, st₂). set_defaults-Ends ps [] _ h.1

    handle-Ends :
        (required : List ℕ) (defaults : List (ℕ × ℕ × Body)) (vs : List SymbolValue) (span : Span)
        (st : Compiler)
        → All (λ (d : ℕ × ℕ × Body). CallsBelow k d.2) defaults
        → Ends (handle_custom_arguments run required defaults vs span st)
    unfolding handle_custom_arguments
    handle-Ends required defaults vs span st h =
        elim (Bool-cases (miscounted required defaults vs)) [
          | inl wrong ↦ rw wrong (cc)
          | inr right ↦ rw right (
              bind-ne-out_of_fuel _ _ (set_required-Ends required vs st)
                λ (rest, st₁). set_defaults-Ends defaults rest st₁ h)
        ]

    compile_function-Ends :
        (f : Function) (vs : List SymbolValue) (phantoms : List ℕ) (span : Span) (st : Compiler)
        → FunctionCallsBelow k f
        → Ends (compile_function run context f vs phantoms span st)
    unfolding compile_function push_stack pop_stack
    compile_function-Ends (builtin_function kind) vs phantoms span st h =
        compile_builtin-Ends kind vs phantoms span st
    compile_function-Ends (custom required defaults body return_value) vs phantoms span st h =
        bind-ne-out_of_fuel _ _ (handle-Ends required defaults vs span _ h.0) λ (u, st₁).
          bind-ne-out_of_fuel _ _ (run-Ends body st₁ h.1) λ (u', st₂).
            bind-ne-out_of_fuel _ _ (get_symbol-Ends return_value st₂)
              λ (v, st₃). bind-ne-out_of_fuel _ _ (finish-Ends v phantoms st₃) (λ a. cc)

  run_body-Ends :
      (k : ℕ) (step : Ir.Node → M (Unit {0}))
      → ((n : Ir.Node) (st : Compiler) → n.function < k → Ends (step n st))
      → (b : Body) (st : Compiler) → CallsBelow k b
      → Ends (run_body step b st)
  unfolding run_body
  run_body-Ends k step h [] st c = cc
  run_body-Ends k step h (n ∷ ns) st c =
      bind-ne-out_of_fuel _ _ (h n st c.0) λ (u, st₁). run_body-Ends k step h ns st₁ c.1

  calls-Ends :
      IsStratified context.functions
      → (step : Ir.Node → M (Unit {0})) (n : Ir.Node)
      → ((f : Function)
          → get_elem? context.functions n.function ≡ some f
          → (b : Body) (st : Compiler) → CallsBelow n.function b
          → Ends (run_body step b st))
      → (vs ps : List SymbolValue) (st : Compiler) (o : Option Function)
      → get_elem? context.functions n.function ≡ o
      → Ends (
          (do
            function ← lift (expect o)
            result ←
                compile_function (run_body step) context function vs (map (λ v. v.node) ps) n.span
            set_symbol n.name (record { node = result.0; type_ = result.1; span = n.span }))
            st)
  calls-Ends h step n ends vs ps st none e = cc
  calls-Ends h step n ends vs ps st (some f) e =
      bind-ne-out_of_fuel _ _
        (compile_function-Ends (run_body step) n.function (ends f e) f vs _ n.span st
          (h n.function f e))
        (λ a. cc)

  -- One level down. A function that is not there is a panic.
  compile_step-Ends :
      IsStratified context.functions
      → (fuel : ℕ)
      → ((m : Ir.Node) (st : Compiler) → m.function < fuel → Ends (compile_node context fuel m st))
      → (n : Ir.Node) (st : Compiler)
      → ((f : Function) → get_elem? context.functions n.function ≡ some f → n.function < suc fuel)
      → Ends (compile_node context (suc fuel) n st)
  unfolding compile_node compile_call
  compile_step-Ends h fuel deeper n st lt =
      bind-ne-out_of_fuel _ _ (get_symbols-Ends n.arguments st) λ (vs, st₁).
        bind-ne-out_of_fuel _ _ (get_symbols-Ends n.phantom_inputs st₁) λ (ps, st₂).
          calls-Ends h (compile_node context fuel) n
            (λ f e.
              run_body-Ends n.function (compile_node context fuel)
                (λ m st' below. deeper m st' (omega (arith, lt f e))))
            vs ps st₂ (get_elem? context.functions n.function) refl

  compile_node-Ends :
      IsStratified context.functions
      → (fuel : ℕ) (n : Ir.Node) (st : Compiler) → n.function < fuel
      → Ends (compile_node context fuel n st)
  compile_node-Ends h zero n st lt = absurd (omega arith)
  compile_node-Ends h (suc fuel) n st lt =
      compile_step-Ends h fuel (compile_node-Ends h fuel) n st (λ f e. lt)

  run_top-Ends :
      IsStratified context.functions
      → (b : Body) (st : Compiler)
      → Ends (run_body (compile_node context (suc (length context.functions))) b st)
  unfolding run_body
  run_top-Ends h [] st = cc
  run_top-Ends h (n ∷ ns) st =
      bind-ne-out_of_fuel _ _
        (compile_step-Ends h (length context.functions)
          (compile_node-Ends h (length context.functions)) n st
          (λ f e. omega (arith, get_elem?_lt context.functions n.function e)))
        λ (u, st₁). run_top-Ends h ns st₁

-- Where the body and the defaults of each function call only functions before it, `compile` does
-- not run out of fuel.
pub compile-ne-out_of_fuel :
    {P : Type 0} (r : ResolveResult P) → IsStratified r.ir.functions → compile r ≢ out_of_fuel
unfolding compile
compile-ne-out_of_fuel r h =
    bind-ne-out_of_fuel _ _ (run_top-Ends (context_of r) h r.ir.top_level initial)
      λ (u, st). bind-ne-out_of_fuel _ _ (get_symbol-Ends r.ir.start_point st) (λ a. cc)
