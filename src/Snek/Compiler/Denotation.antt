-- ===== src/Snek/Compiler/Denotation.antt =====
-- The graph as a program: what its nodes compute, and how pushes keep that. `Alg k vs v` says that a
-- node of kind `k` computes `v` from `vs`.
use serpentine.Prelude.{ℕ, ◌<◌, ◌≡◌, some, List, [], ◌∷◌, length, get_elem?, get_elem?_lt, All}
use serpentine.Engine.DataModel.{Node, NodeMetadata, Graph}

mutual
  pub data Denotes {V : Type 0} (Alg : ℕ → List V → V → Type 0) (g : Graph) : ℕ → V → Type 0 where
    node :
        {i : ℕ} {n : Node} {m : NodeMetadata} {vs : List V} {v : V}
        → get_elem? g i ≡ some (n, m)
        → DenotesAll Alg g n.inputs vs
        → Alg n.kind vs v
        → Denotes Alg g i v

  pub data DenotesAll {V : Type 0} (Alg : ℕ → List V → V → Type 0) (g : Graph)
      : List ℕ → List V → Type 0 where
    none : DenotesAll Alg g [] []
    one :
        {i : ℕ} {is : List ℕ} {v : V} {vs : List V}
        → Denotes Alg g i v
        → DenotesAll Alg g is vs
        → DenotesAll Alg g (i ∷ is) (v ∷ vs)

-- Every node of `g` is the node of `h` at the same id.
abbrev pub Grows : Graph → Graph → Type 0
Grows g h = (i : ℕ) (x : Node × NodeMetadata) → get_elem? g i ≡ some x → get_elem? h i ≡ some x

-- Every node's inputs come before it.
abbrev pub IsAcyclic : Graph → Type 0
IsAcyclic g =
    (i : ℕ) (n : Node) (m : NodeMetadata)
    → get_elem? g i ≡ some (n, m)
    → All (λ j. j < i) n.inputs × All (λ j. j < i) n.phantom_inputs

module _ {V : Type 0} {Alg : ℕ → List V → V → Type 0} {g h : Graph} (grows : Grows g h) where
  mutual
    pub Denotes-Grows : {i : ℕ} {v : V} → Denotes Alg g i v → Denotes Alg h i v
    Denotes-Grows (node {i} e ds a) = node (grows i _ e) (DenotesAll-Grows ds) a

    pub DenotesAll-Grows :
        {is : List ℕ} {vs : List V} → DenotesAll Alg g is vs → DenotesAll Alg h is vs
    DenotesAll-Grows none = none
    DenotesAll-Grows (one d ds) = one (Denotes-Grows d) (DenotesAll-Grows ds)

module _ {V : Type 0} {Alg : ℕ → List V → V → Type 0} {g : Graph} where
  pub Denotes-lt : {i : ℕ} {v : V} → Denotes Alg g i v → i < length g
  Denotes-lt (node {i} e ds a) = get_elem?_lt g i e

  pub DenotesAll-lt :
      {is : List ℕ} {vs : List V} → DenotesAll Alg g is vs → All (λ i. i < length g) is
  DenotesAll-lt none = tt
  DenotesAll-lt (one d ds) = (Denotes-lt d, DenotesAll-lt ds)
