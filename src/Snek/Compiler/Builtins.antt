-- ===== src/Snek/Compiler/Builtins.antt =====
-- compiler.rs: symbols, pushes, builtin calls and phantom inputs, against the invariant.
use serpentine.Prelude.{
  ℕ, ◌<◌, ◌≡◌, refl, subst, true, false, Option, none, some, List, [], ◌∷◌, ◌++◌, map, length,
  get_elem?, All, All-mono, get_elem?-append_last, arith, Bool-cases, ◌==◌, ◌⊎◌, nat_eq, inl, inr,
}
use serpentine.Prelude.Map.{lookup, insert}
use serpentine.Prelude.Outcome.{Outcome, ok, err, panic, out_of_fuel, expect, panicked, exhausted}
use serpentine.Engine.DataModel.{DataType, Node, NodeMetadata}
use serpentine.Engine.Nodes.{ReturnTypeError, return_type, noop}
use serpentine.Snek.Span.{Span}
use serpentine.Snek.CompileError.{CompileError}
use serpentine.Snek.Compiler.Denotation.{
  Denotes, DenotesAll, Grows, node, one, Denotes-Grows, DenotesAll-Grows, Denotes-lt, DenotesAll-lt,
}
use serpentine.Snek.Compiler.{
  get_stack_trace, report, compile_builtin, finish_custom, SymbolValue, ImmutableContext, Compiler,
  node_eq, push_node_with_cache, cached_or_pushed, get_symbol, get_symbols, set_symbol, lift,
}
use serpentine.Snek.Compiler.Dedup.{Grows-push, push-IsDeduplicated}
use serpentine.Snek.Compiler.Invariant.{
  Typing, IsTyped, IsGood, Kept, Kept-refl, Kept-trans, IsTyped-Kept, Runs, Runs-ok, Runs-err,
  Runs-bind,
}

module _ {P : Type 0} (context : ImmutableContext P) where
  pub get_symbol-Runs :
      (s : ℕ) (st : Compiler)
      → IsGood context st
      → Runs context st (IsTyped context) (get_symbol s st)
  unfolding get_symbol
  get_symbol-Runs s st g = go (lookup st.symbol_mapping s) refl
    where
      go :
          (o : Option SymbolValue)
          → lookup st.symbol_mapping s ≡ o
          → Runs context st (IsTyped context) (lift (expect o) st)
      go none e = record { ensures = panicked }
      go (some v) e = Runs-ok context (Kept-refl context st g) (g.typed s v e)

  pub get_symbols-Runs :
      (ss : List ℕ) (st : Compiler)
      → IsGood context st
      → Runs context st (λ st' vs. All (IsTyped context st') vs) (get_symbols ss st)
  unfolding get_symbols
  get_symbols-Runs [] st g = Runs-ok context (Kept-refl context st g) tt
  get_symbols-Runs (s ∷ ss) st g = Runs-bind context (get_symbol-Runs s st g) λ v st₁ k₁ q₁.
      Runs-bind context (get_symbols-Runs ss st₁ k₁.good) λ vs st₂ k₂ q₂.
        Runs-ok context (Kept-refl context st₂ k₂.good) (IsTyped-Kept context v k₂ q₁, q₂)

  pub set_symbol-Runs :
      (s : ℕ) (v : SymbolValue) (st : Compiler)
      → IsGood context st
      → IsTyped context st v
      → Runs context st (λ st' a. Unit {0}) (set_symbol s v st)
  set_symbol-Runs s v st g t =
      Runs-ok context
        (record {
          good = record {
            deduplicated = record {
              acyclic = g.deduplicated.acyclic;
              cached = g.deduplicated.cached;
              unique = g.deduplicated.unique;
            };
            typed = λ s' v' e. typed s' v' e (Bool-cases (s == s'));
          };
          grows = λ i x h. h;
        })
        tt
    where
      typed :
          (s' : ℕ) (v' : SymbolValue)
          → lookup (insert st.symbol_mapping s v) s' ≡ some v'
          → (s == s' ≡ true) ⊎ (s == s' ≡ false)
          → IsTyped context st v'
      typed s' v' e (inl same) = let p : v ≡ v' = ground arith in subst (IsTyped context st) p t
      typed s' v' e (inr other) = g.typed s' v' (ground arith)

  push_node-Runs :
      (n : Node) (m : NodeMetadata) (st : Compiler) (τs : List DataType) (τ : DataType)
      → IsGood context st
      → DenotesAll (Typing context) st.graph n.inputs τs
      → Typing context n.kind τs τ
      → All (λ j. j < length st.graph) n.phantom_inputs
      → Runs context st
          (λ st' id. Denotes (Typing context) st'.graph id τ)
          (push_node_with_cache n m st)
  unfolding push_node_with_cache
  push_node-Runs n m st τs τ g ds t below = go (lookup st.node_cache n) refl
    where
      go :
          (o : Option ℕ)
          → lookup st.node_cache n ≡ o
          → Runs context st
              (λ st' id. Denotes (Typing context) st'.graph id τ)
              (cached_or_pushed n m o st)
      go (some i) e =
          Runs-ok context (Kept-refl context st g) (node (g.deduplicated.cached n i e).1 ds t)
      go none e =
          let grows : Grows st.graph (st.graph ++ (n, m) ∷ []) = Grows-push st.graph (n, m) in
          Runs-ok context
            (record {
              good = record {
                deduplicated =
                    push-IsDeduplicated st n m g.deduplicated e (DenotesAll-lt ds, below);
                typed = λ s v p. Denotes-Grows grows (g.typed s v p);
              };
              grows = grows;
            })
            (node (get_elem?-append_last st.graph (n, m)) (DenotesAll-Grows grows ds) t)

  -- The typed values of a list are the inputs of a typed node.
  inputs_typed :
      (st : Compiler) (vs : List SymbolValue)
      → All (IsTyped context st) vs
      → DenotesAll (Typing context) st.graph (map (λ v. v.node) vs) (map (λ v. v.type_) vs)
  inputs_typed st [] h = DenotesAll.none
  inputs_typed st (v ∷ vs) h = one h.0 (inputs_typed st vs h.1)

  nodes_lt :
      (st : Compiler) (vs : List SymbolValue)
      → All (IsTyped context st) vs
      → All (λ j. j < length st.graph) (map (λ v. v.node) vs)
  nodes_lt st [] h = tt
  nodes_lt st (v ∷ vs) h = (Denotes-lt h.0, nodes_lt st vs h.1)

  pub AllTyped-Kept :
      {a b : Compiler} (vs : List SymbolValue)
      → Kept context a b
      → All (IsTyped context a) vs
      → All (IsTyped context b) vs
  AllTyped-Kept vs k h = All-mono (λ v t. IsTyped-Kept context v k t) vs h

  pub lift-Runs :
      {A : Type 0} (r : Outcome CompileError A) (st : Compiler)
      → IsGood context st
      → Runs context st (λ st' a. r ≡ ok a) (lift r st)
  lift-Runs (ok a) st g = Runs-ok context (Kept-refl context st g) refl
  lift-Runs (err e) st g = Runs-err context
  lift-Runs panic st g = record { ensures = panicked }
  lift-Runs out_of_fuel st g = record { ensures = exhausted }

  expect_eq : {A : Type 0} (o : Option A) {a : A} → expect {E = CompileError} o ≡ ok a → o ≡ some a
  expect_eq none h = cc
  expect_eq (some b) h = cc

  report_eq :
      (vs : List SymbolValue) (span : Span) (stack : List Span)
      (r : Outcome ReturnTypeError DataType) {τ : DataType}
      → report vs span stack r ≡ ok τ
      → r ≡ ok τ
  unfolding report
  report_eq vs span stack (ok t) h = cc
  report_eq vs span stack (err (ReturnTypeError.type_mismatch _ _ _)) h = cc
  report_eq vs span stack (err (ReturnTypeError.argument_count_mismatch _ _)) h = cc
  report_eq vs span stack panic h = cc
  report_eq vs span stack out_of_fuel h = cc

  -- The id and the type that a call gives.
  abbrev pub IsTypedCall : Compiler → ℕ × DataType → Type 0
  IsTypedCall st (id, τ) = Denotes (Typing context) st.graph id τ

  pub compile_builtin-Runs :
      (kind : ℕ) (arguments phantoms : List SymbolValue) (span : Span) (st : Compiler)
      → IsGood context st
      → All (IsTyped context st) arguments
      → All (IsTyped context st) phantoms
      → Runs context st IsTypedCall
          (compile_builtin context kind arguments (map (λ v. v.node) phantoms) span st)
  unfolding compile_builtin get_stack_trace
  compile_builtin-Runs kind arguments phantoms span st g ta tp =
      Runs-bind context (lift-Runs (expect (get_elem? context.nodes kind)) st g) λ impl st₁ k₁ e₁.
        Runs-bind context
          (lift-Runs
            (report arguments span st₁.stack_trace
              (return_type impl (map (λ v. v.type_) arguments)))
            st₁ k₁.good)
          λ τ st₂ k₂ e₂.
            let k = Kept-trans context k₁ k₂ in
            Runs-bind context
              (push_node-Runs
                (record {
                  kind = kind;
                  inputs = map (λ v. v.node) arguments;
                  phantom_inputs = map (λ v. v.node) phantoms;
                })
                (record { location = span; stack_trace = st₁.stack_trace }) st₂
                (map (λ v. v.type_) arguments) τ k₂.good
                (inputs_typed st₂ arguments (AllTyped-Kept arguments k ta))
                (
                  impl,
                  expect_eq (get_elem? context.nodes kind) e₁,
                  report_eq arguments span st₁.stack_trace _ e₂,
                )
                (nodes_lt st₂ phantoms (AllTyped-Kept phantoms k tp)))
              λ id st₃ k₃ d. Runs-ok context (Kept-refl context st₃ k₃.good) d

  -- The prelude's `Noop` is what the context says it is.
  abbrev pub HasNoop : Type 0
  HasNoop = get_elem? context.nodes context.noop ≡ some noop

  pub finish_custom-Runs :
      HasNoop
      → (v : SymbolValue) (phantoms : List SymbolValue) (st : Compiler) → IsGood context st
      → IsTyped context st v
      → All (IsTyped context st) phantoms
      → Runs context st
          (λ st' id. Denotes (Typing context) st'.graph id v.type_)
          (finish_custom context v (map (λ v. v.node) phantoms) st)
  unfolding finish_custom
  finish_custom-Runs h v [] st g t tp = Runs-ok context (Kept-refl context st g) t
  finish_custom-Runs h v (p ∷ ps) st g t tp =
      push_node-Runs _ _ st (v.type_ ∷ []) v.type_ g (one t DenotesAll.none)
        (noop, h, unfold return_type in refl) (nodes_lt st (p ∷ ps) tp)

  -- A change of the stack trace alone.
  pub restack :
      (st : Compiler) (stack : List Span)
      → IsGood context st
      → Runs context st (λ st' a. Unit {0}) (ok (tt, record st { stack_trace = stack }))
  restack st stack g =
      Runs-ok context
        (record {
          good = record {
            deduplicated = record {
              acyclic = g.deduplicated.acyclic;
              cached = g.deduplicated.cached;
              unique = g.deduplicated.unique;
            };
            typed = g.typed;
          };
          grows = λ i x h. h;
        })
        tt
