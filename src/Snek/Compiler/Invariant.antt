-- ===== src/Snek/Compiler/Invariant.antt =====
-- compiler.rs: the invariant of the compiler's state, and runs as to that invariant.
use serpentine.Prelude.{ℕ, ◌≡◌, some, List, get_elem?, nat_eq}
use serpentine.Prelude.Map.{lookup}
use serpentine.Prelude.Outcome.{
  Outcome, ok, err, bind, Ensures, holds, raised, Ensures-bind, Ensures-mono,
}
use serpentine.Engine.DataModel.{DataType}
use serpentine.Engine.Nodes.{NodeImpl, return_type}
use serpentine.Snek.CompileError.{CompileError}
use serpentine.Snek.Compiler.Denotation.{Denotes, Grows, Denotes-Grows}
use serpentine.Snek.Compiler.{SymbolValue, ImmutableContext, Compiler, node_eq}
use serpentine.Snek.Compiler.Dedup.{IsDeduplicated}

module _ {P : Type 0} (context : ImmutableContext P) where
  -- A node of kind `k` has the type that its implementation gives it at its inputs' types.
  abbrev pub Typing : ℕ → List DataType → DataType → Type 0
  Typing k τs τ =
      (impl : NodeImpl P) × (get_elem? context.nodes k ≡ some impl) × (return_type impl τs ≡ ok τ)

  abbrev pub IsTyped : Compiler → SymbolValue → Type 0
  IsTyped st v = Denotes Typing st.graph v.node v.type_

  pub record IsGood (st : Compiler) : Type 0 where
    pub deduplicated : IsDeduplicated st
    pub typed : (s : ℕ) (v : SymbolValue) → lookup st.symbol_mapping s ≡ some v → IsTyped st v

  pub record Kept (st st' : Compiler) : Type 0 where
    pub good : IsGood st'
    pub grows : Grows st.graph st'.graph

  pub Kept-refl : (st : Compiler) → IsGood st → Kept st st
  Kept-refl st g = record { good = g; grows = λ i x h. h }

  pub Kept-trans : {a b c : Compiler} → Kept a b → Kept b c → Kept a c
  Kept-trans k l = record { good = l.good; grows = λ i x h. l.grows i x (k.grows i x h) }

  pub IsTyped-Kept : {a b : Compiler} (v : SymbolValue) → Kept a b → IsTyped a v → IsTyped b v
  IsTyped-Kept v k t = Denotes-Grows k.grows t

  -- A run from `st` that returns keeps the invariant, and `Q` holds of its state and value.
  pub record Runs {A : Type 0} (st : Compiler) (Q : Compiler → A → Type 0)
      (r : Outcome CompileError (A × Compiler)) : Type 0 where
    pub ensures : Ensures (λ (a, st'). Kept st st' × Q st' a) r

  module _ {A : Type 0} {st : Compiler} {Q : Compiler → A → Type 0} where
    pub Runs-ok : {a : A} {st' : Compiler} → Kept st st' → Q st' a → Runs st Q (ok (a, st'))
    Runs-ok k q = record { ensures = holds (k, q) }

    pub Runs-err : {e : CompileError} → Runs st Q (err e)
    Runs-err = record { ensures = raised }

    pub Runs-bind :
        {B : Type 0} {R : Compiler → B → Type 0} {r : Outcome CompileError (A × Compiler)}
        {g : A → Compiler → Outcome CompileError (B × Compiler)}
        → Runs st Q r
        → ((a : A) (st' : Compiler) → Kept st st' → Q st' a → Runs st' R (g a st'))
        → Runs st R (bind r λ (a, st'). g a st')
    Runs-bind h k = record {
      ensures = Ensures-bind h.ensures λ (a, st') (kept, q).
          Ensures-mono (λ (b, st'') (kept', r'). (Kept-trans kept kept', r'))
            (k a st' kept q).ensures;
    }
