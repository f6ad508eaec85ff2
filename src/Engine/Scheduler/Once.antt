-- ===== src/Engine/Scheduler/Once.antt =====
-- scheduler.rs: how often a node is started.
use serpentine.Prelude.{
  ℕ, ◌+◌, ◌≤◌, ◌≡◌, ◌≢◌, refl, sym, subst, ap, ◌∙◌, List, ◌⊎◌, inl, inr, ◌==◌, nat_eq, nat_beq_iff,
  if◌then◌else◌, Bool-cases, arith,
}
use serpentine.Engine.DataModel.{Data, Graph}
use serpentine.Engine.Nodes.{NodeImpl}
use serpentine.Engine.Scheduler.{
  Cell, empty, running, done, set, Step, start, finish, abort, Steps, stop, step,
}
use serpentine.Engine.Scheduler.Progress.{set_same, set_other}

module _ {P R : Type 0} (graph : Graph) (nodes : List (NodeImpl P)) (combined : List R → R)
    (Runs : ℕ → NodeImpl P → List (Data P) → R ⊎ Data P → Type 0) (root : ℕ) where
  -- How often the steps start a node.
  abbrev pub starts :
      {cells cells' : ℕ → Cell (R ⊎ Data P)}
      → ℕ
      → Steps graph nodes combined Runs root cells cells'
      → ℕ
  starts i stop = 0
  starts i (step (start j e w) ss) = (if j == i then 1 else 0) + starts i ss
  starts i (step (finish j r e s) ss) = starts i ss
  starts i (step (abort j k error e f) ss) = starts i ss

  abbrev pub NoneFailed : (ℕ → Cell (R ⊎ Data P)) → Type 0
  NoneFailed cells = (i : ℕ) (error : R) → cells i ≢ done (inl error)

  set_kept :
      (cells : ℕ → Cell (R ⊎ Data P)) (i k : ℕ) (c : Cell (R ⊎ Data P)) (r : R ⊎ Data P)
      → cells i ≢ done r
      → cells k ≡ done r
      → set cells i c k ≡ done r
  set_kept cells i k c r unset e = set_other cells i c k (λ p. unset (ap cells (sym p) ∙ e)) ∙ e

  Step-kept :
      {cells cells' : ℕ → Cell (R ⊎ Data P)} (k : ℕ) (r : R ⊎ Data P)
      → Step graph nodes combined Runs root cells cells'
      → cells k ≡ done r
      → cells' k ≡ done r
  Step-kept {cells} k r (start i e w) d = set_kept cells i k running r (λ p. cc) d
  Step-kept {cells} k r (finish i r' e s) d = set_kept cells i k (done r') r (λ p. cc) d
  Step-kept {cells} k r (abort i j error e f) d = set_kept cells i k empty r (λ p. cc) d

  Steps-kept :
      {cells cells' : ℕ → Cell (R ⊎ Data P)} (k : ℕ) (r : R ⊎ Data P)
      → Steps graph nodes combined Runs root cells cells'
      → cells k ≡ done r
      → cells' k ≡ done r
  Steps-kept k r stop d = d
  Steps-kept k r (step s ss) d = Steps-kept k r ss (Step-kept k r s d)

  set-ne-empty :
      (cells : ℕ → Cell (R ⊎ Data P)) (i k : ℕ) (c : Cell (R ⊎ Data P))
      → c ≢ empty
      → cells k ≢ empty
      → set cells i c k ≢ empty
  set-ne-empty cells i k c ne ne' = elim (Bool-cases (k == i)) [
    | inl e ↦ rw e ne
    | inr e ↦ rw e ne'
  ]

  starts-zero :
      {cells cells' : ℕ → Cell (R ⊎ Data P)} (i : ℕ)
      (ss : Steps graph nodes combined Runs root cells cells')
      → NoneFailed cells'
      → cells i ≢ empty
      → starts i ss ≡ 0
  starts-zero i stop h ne = refl
  starts-zero {cells} i (step (start j e w) ss) h ne =
      let rest = starts-zero i ss h (set-ne-empty cells j i running (λ p. cc) ne) in
      elim (Bool-cases (j == i)) [
        | inl same ↦ absurd (ne (ap cells (sym ((nat_beq_iff j i).0 same)) ∙ e))
        | inr other ↦ rw other (omega (arith, rest))
      ]
  starts-zero {cells} i (step (finish j r e s) ss) h ne =
      starts-zero i ss h (set-ne-empty cells j i (done r) (λ p. cc) ne)
  starts-zero {cells} i (step (abort j k error e f) ss) h ne =
      absurd
        (h k error (Steps-kept k (inl error) ss (set_kept cells j k empty (inl error) (λ p. cc) f)))

  -- Where no node has failed, no node has been started twice, however many nodes await it.
  pub starts_le :
      {cells : ℕ → Cell (R ⊎ Data P)} {cells' : ℕ → Cell (R ⊎ Data P)} (i : ℕ)
      (ss : Steps graph nodes combined Runs root cells cells')
      → NoneFailed cells'
      → starts i ss ≤ 1
  starts_le i stop h = omega arith
  starts_le {cells} i (step (start j e w) ss) h = elim (Bool-cases (j == i)) [
    | inl same ↦
        let p : j ≡ i = (nat_beq_iff j i).0 same in
        let busy : set cells j running i ≢ empty =
          subst (λ k. set cells j running k ≢ empty) p (λ q. cc (q, set_same cells j running)) in
        rw same (omega (arith, starts-zero i ss h busy))
    | inr other ↦ rw other (omega (arith, starts_le i ss h))
  ]
  starts_le i (step (finish j r e s) ss) h = starts_le i ss h
  starts_le i (step (abort j k error e f) ss) h = starts_le i ss h
