-- ===== src/Snek/Compiler/Preserves.antt =====
-- compiler.rs: calls of functions, bodies and whole programs, against the invariant.
use serpentine.Prelude.{
  zero, ℕ, suc, List, [], ◌∷◌, ◌++◌, map, get_elem?, All, Bool-cases, nat_eq, inl, inr,
}
use serpentine.Prelude.Outcome.{expect, exhausted}
use serpentine.Snek.Span.{Span}
use serpentine.Snek.Ir
use serpentine.Snek.Ir.{Function, Body, builtin_function, custom}
use serpentine.Snek.Compiler.Denotation.{Denotes-Grows}
use serpentine.Snek.Compiler.{
  push_stack, drop_last, pop_stack, set_required, set_defaults, miscounted, handle_custom_arguments,
  compile_function, compile_call, run_body, compile_node, SymbolValue, ImmutableContext, Compiler,
  M, node_eq,
}
use serpentine.Snek.Compiler.Invariant.{
  IsTyped, IsGood, Kept-refl, Kept-trans, Runs, Runs-ok, Runs-err, Runs-bind,
}
use serpentine.Snek.Compiler.Builtins.{
  get_symbol-Runs, get_symbols-Runs, set_symbol-Runs, AllTyped-Kept, lift-Runs, IsTypedCall,
  compile_builtin-Runs, HasNoop, finish_custom-Runs, restack,
}

module _ {P : Type 0} (context : ImmutableContext P) where
  module _ (compile_body : Body → M (Unit {0}))
      (body_Runs : (b : Body) (st : Compiler)
        → IsGood context st
        → Runs context st (λ st' a. Unit {0}) (compile_body b st)) where
    set_required-Runs :
        (ps : List ℕ) (arguments : List SymbolValue) (st : Compiler)
        → IsGood context st
        → All (IsTyped context st) arguments
        → Runs context st
            (λ st' rest. All (IsTyped context st') rest)
            (set_required compile_body ps arguments st)
    unfolding set_required
    set_required-Runs [] arguments st g t = Runs-ok context (Kept-refl context st g) t
    set_required-Runs (p ∷ ps) [] st g t = Runs-err context
    set_required-Runs (p ∷ ps) (a ∷ rest) st g t =
        Runs-bind context (set_symbol-Runs context p a st g t.0)
          λ u st₁ k₁ q₁. set_required-Runs ps rest st₁ k₁.good (AllTyped-Kept context rest k₁ t.1)

    set_defaults-Runs :
        (ps : List (ℕ × ℕ × Body)) (arguments : List SymbolValue) (st : Compiler)
        → IsGood context st
        → All (IsTyped context st) arguments
        → Runs context st (λ st' a. Unit {0}) (set_defaults compile_body ps arguments st)
    unfolding set_defaults
    set_defaults-Runs [] arguments st g t = Runs-ok context (Kept-refl context st g) tt
    set_defaults-Runs ((p, s, b) ∷ ps) (a ∷ rest) st g t =
        Runs-bind context (set_symbol-Runs context p a st g t.0)
          λ u st₁ k₁ q₁. set_defaults-Runs ps rest st₁ k₁.good (AllTyped-Kept context rest k₁ t.1)
    set_defaults-Runs ((p, s, b) ∷ ps) [] st g t =
        Runs-bind context (body_Runs b st g) λ u st₁ k₁ q₁.
          Runs-bind context (get_symbol-Runs context s st₁ k₁.good) λ v st₂ k₂ q₂.
            Runs-bind context (set_symbol-Runs context p v st₂ k₂.good q₂)
              λ u' st₃ k₃ q₃. set_defaults-Runs ps [] st₃ k₃.good tt

    handle_custom_arguments-Runs :
        (required : List ℕ) (defaults : List (ℕ × ℕ × Body)) (arguments : List SymbolValue)
        (span : Span) (st : Compiler)
        → IsGood context st
        → All (IsTyped context st) arguments
        → Runs context st
            (λ st' a. Unit {0})
            (handle_custom_arguments compile_body required defaults arguments span st)
    unfolding handle_custom_arguments
    handle_custom_arguments-Runs required defaults arguments span st g t =
        elim (Bool-cases (miscounted required defaults arguments)) [
          | inl wrong ↦ rw wrong (Runs-err context)
          | inr right ↦ rw right (
              Runs-bind context (set_required-Runs required arguments st g t)
                λ rest st₁ k₁ q₁. set_defaults-Runs defaults rest st₁ k₁.good q₁)
        ]

    compile_function-Runs :
        HasNoop context
        → (f : Function) (arguments phantoms : List SymbolValue) (span : Span) (st : Compiler)
        → IsGood context st
        → All (IsTyped context st) arguments
        → All (IsTyped context st) phantoms
        → Runs context st
            (IsTypedCall context)
            (compile_function compile_body context f arguments (map (λ v. v.node) phantoms) span st)
    unfolding compile_function push_stack pop_stack
    compile_function-Runs h (builtin_function kind) arguments phantoms span st g ta tp =
        compile_builtin-Runs context kind arguments phantoms span st g ta tp
    compile_function-Runs h (custom required defaults body return_value) arguments phantoms span st
          g ta tp =
        Runs-bind context (restack context st (st.stack_trace ++ span ∷ []) g) λ u st₁ k₁ q₁.
          Runs-bind context
            (handle_custom_arguments-Runs required defaults arguments span st₁ k₁.good
              (AllTyped-Kept context arguments k₁ ta))
            λ u₂ st₂ k₂ q₂. Runs-bind context (body_Runs body st₂ k₂.good) λ u₃ st₃ k₃ q₃.
              Runs-bind context (get_symbol-Runs context return_value st₃ k₃.good) λ v st₄ k₄ q₄.
                let k = Kept-trans context (Kept-trans context k₁ k₂) (Kept-trans context k₃ k₄) in
                Runs-bind context
                  (finish_custom-Runs context h v phantoms st₄ k₄.good q₄
                    (AllTyped-Kept context phantoms k tp))
                  λ id st₅ k₅ d.
                    Runs-bind context (restack context st₅ (drop_last st₅.stack_trace) k₅.good)
                      λ u₆ st₆ k₆ q₆.
                        Runs-ok context (Kept-refl context st₆ k₆.good) (Denotes-Grows k₆.grows d)

    compile_call-Runs :
        HasNoop context
        → (n : Ir.Node) (st : Compiler) → IsGood context st
        → Runs context st (λ st' a. Unit {0}) (compile_call compile_body context n st)
    unfolding compile_call
    compile_call-Runs h n st g =
        Runs-bind context (get_symbols-Runs context n.arguments st g) λ arguments st₁ k₁ q₁.
          Runs-bind context (get_symbols-Runs context n.phantom_inputs st₁ k₁.good)
            λ phantoms st₂ k₂ q₂.
              Runs-bind context
                (lift-Runs context (expect (get_elem? context.functions n.function)) st₂ k₂.good)
                λ f st₃ k₃ q₃.
                  Runs-bind context
                    (compile_function-Runs h f arguments phantoms n.span st₃ k₃.good
                      (AllTyped-Kept context arguments (Kept-trans context k₂ k₃) q₁)
                      (AllTyped-Kept context phantoms k₃ q₂))
                    λ r st₄ k₄ d.
                      set_symbol-Runs context n.name
                        (record { node = r.0; type_ = r.1; span = n.span }) st₄ k₄.good d

  run_body-Runs :
      (step : Ir.Node → M (Unit {0}))
      → ((n : Ir.Node) (st : Compiler)
          → IsGood context st
          → Runs context st (λ st' a. Unit {0}) (step n st))
      → (b : Body) (st : Compiler) → IsGood context st
      → Runs context st (λ st' a. Unit {0}) (run_body step b st)
  unfolding run_body
  run_body-Runs step h [] st g = Runs-ok context (Kept-refl context st g) tt
  run_body-Runs step h (n ∷ ns) st g =
      Runs-bind context (h n st g) λ u st₁ k₁ q₁. run_body-Runs step h ns st₁ k₁.good

  pub compile_node-Runs :
      HasNoop context
      → (fuel : ℕ) (n : Ir.Node) (st : Compiler) → IsGood context st
      → Runs context st (λ st' a. Unit {0}) (compile_node context fuel n st)
  unfolding compile_node
  compile_node-Runs h zero n st g = record { ensures = exhausted }
  compile_node-Runs h (suc fuel) n st g =
      compile_call-Runs (run_body (compile_node context fuel))
        (run_body-Runs (compile_node context fuel) (compile_node-Runs h fuel)) h n st g

  -- A body compiled from a good state leaves a good state.
  pub run_program-Runs :
      HasNoop context
      → (fuel : ℕ) (b : Body) (st : Compiler) → IsGood context st
      → Runs context st (λ st' a. Unit {0}) (run_body (compile_node context fuel) b st)
  run_program-Runs h fuel = run_body-Runs (compile_node context fuel) (compile_node-Runs h fuel)
