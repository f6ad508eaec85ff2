-- ===== src/Internal/Network/Visits.antt =====
-- network.rs: the iterator over a tree.
use serpentine.Prelude.{
  ℕ, zero, suc, ◌+◌, ◌<◌, ◌≡◌, refl, sym, ap, ◌∙◌, some, List, [], ◌∷◌, ◌++◌, append_assoc,
  append-nil, arith,
}
use serpentine.Internal.Network.{
  Topology, Topologies, topology, no_trees, tree_cons, push_all, collect, flat_data,
}

abbrev mutual
  pub size : {T : Type 0} → Topology T → ℕ
  size (topology data_ children) = suc (size_all children)

  pub size_all : {T : Type 0} → Topologies T → ℕ
  size_all no_trees = 0
  size_all (tree_cons c cs) = size c + size_all cs

-- The data of a tree before that of its children, the last child first.
abbrev mutual
  pub visits : {T : Type 0} → Topology T → List T
  visits (topology data_ children) = data_ ∷ visits_all children

  pub visits_all : {T : Type 0} → Topologies T → List T
  visits_all no_trees = []
  visits_all (tree_cons c cs) = visits_all cs ++ visits c

module _ {T : Type 0} where
  abbrev stack_size : List (Topology T) → ℕ
  stack_size [] = 0
  stack_size (t ∷ ts) = size t + stack_size ts

  abbrev stack_visits : List (Topology T) → List T
  stack_visits [] = []
  stack_visits (t ∷ ts) = visits t ++ stack_visits ts

  push_all-size :
      (cs : Topologies T) (ts : List (Topology T))
      → stack_size (push_all cs ts) ≡ size_all cs + stack_size ts
  unfolding push_all
  push_all-size no_trees ts = omega arith
  push_all-size (tree_cons c cs) ts = omega (arith, push_all-size cs (c ∷ ts))

  push_all-visits :
      (cs : Topologies T) (ts : List (Topology T))
      → stack_visits (push_all cs ts) ≡ visits_all cs ++ stack_visits ts
  unfolding push_all
  push_all-visits no_trees ts = refl
  push_all-visits (tree_cons c cs) ts =
      push_all-visits cs (c ∷ ts) ∙ sym (append_assoc (visits_all cs) (visits c) (stack_visits ts))

  collect-stack_visits :
      (fuel : ℕ) (ts : List (Topology T))
      → stack_size ts < fuel
      → collect fuel ts ≡ some (stack_visits ts)
  unfolding collect
  collect-stack_visits zero ts lt = absurd (omega arith)
  collect-stack_visits (suc fuel) [] lt = refl
  collect-stack_visits (suc fuel) (topology data_ children ∷ ts) lt =
      let rest =
        collect-stack_visits fuel (push_all children ts)
          (omega (arith, lt, push_all-size children ts)) in
      rw (rest, push_all-visits children ts) refl

  -- The iterator ends after as many steps as the tree has nodes, and gives the data of each node
  -- once, a node before its children.
  pub collect-visits :
      (t : Topology T) (fuel : ℕ) → size t < fuel → collect fuel (flat_data t) ≡ some (visits t)
  unfolding flat_data
  collect-visits t fuel lt =
      collect-stack_visits fuel (t ∷ []) (omega arith) ∙ ap some (append-nil (visits t))
