-- ===== src/Snek/Compiler/Dedup.antt =====
-- compiler.rs: `push_node_with_cache`, the graph and the cache of its nodes.
use serpentine.Prelude.{
  ℕ, ◌<◌, ◌≡◌, sym, ap, subst, true, none, some, [], ◌∷◌, ◌++◌, length, get_elem?, All,
  get_elem?-append_cases, get_elem?-append_left, get_elem?-append_last, arith, Bool-cases, ◌==◌,
  nat_eq, inl, inr,
}
use serpentine.Prelude.Map.{lookup, insert}
use serpentine.Engine.DataModel.{Node, NodeMetadata, Graph}
use serpentine.Snek.Compiler.Denotation.{Grows, IsAcyclic}
use serpentine.Snek.Compiler.{Compiler, node_eq, node_beq_iff}

-- A graph with its cache: the cache lists exactly the nodes of the graph.
pub record IsDeduplicated (st : Compiler) : Type 0 where
  pub acyclic : IsAcyclic st.graph
  pub cached :
      (n : Node) (i : ℕ)
      → lookup st.node_cache n ≡ some i
      → (m : NodeMetadata) × (get_elem? st.graph i ≡ some (n, m))
  pub unique :
      (i : ℕ) (n : Node) (m : NodeMetadata)
      → get_elem? st.graph i ≡ some (n, m)
      → lookup st.node_cache n ≡ some i

pub Grows-push : (g : Graph) (x : Node × NodeMetadata) → Grows g (g ++ x ∷ [])
Grows-push g x i y h = get_elem?-append_left g (x ∷ []) i h

push-IsAcyclic :
    (g : Graph) (n : Node) (m : NodeMetadata)
    → IsAcyclic g
    → All (λ j. j < length g) n.inputs × All (λ j. j < length g) n.phantom_inputs
    → IsAcyclic (g ++ (n, m) ∷ [])
push-IsAcyclic g n m h below i n' m' e = elim (get_elem?-append_cases g (n, m) i e) [
  | inl old ↦ h i n' m' old
  | inr (last, same) ↦
      let p : n ≡ n' = ap (λ (x : Node × NodeMetadata). x.0) same in
      subst (λ k. All (λ j. j < i) k.inputs × All (λ j. j < i) k.phantom_inputs) p (rw last below)
]

module _ (st : Compiler) (n : Node) (m : NodeMetadata) (h : IsDeduplicated st) where
  abbrev pushed : Compiler
  pushed = record st {
    graph = st.graph ++ (n, m) ∷ [];
    node_cache = insert st.node_cache n (length st.graph);
  }

  push-cached :
      (n' : Node) (i : ℕ)
      → lookup pushed.node_cache n' ≡ some i
      → (m' : NodeMetadata) × (get_elem? pushed.graph i ≡ some (n', m'))
  push-cached n' i e = elim (Bool-cases (n == n')) [
    | inl same ↦ (
      m,
      rw (sym ((node_beq_iff n n').0 same), index-eq same) (get_elem?-append_last st.graph (n, m)),
    )
    | inr other ↦
        let (m', old) = h.cached n' i (ground arith) in
        (m', get_elem?-append_left st.graph ((n, m) ∷ []) i old)
  ]
    where
      index-eq : (n == n') ≡ true → i ≡ length st.graph
      index-eq same = ground arith

  push_unique :
      lookup st.node_cache n ≡ none
      → (i : ℕ) (n' : Node) (m' : NodeMetadata) → get_elem? pushed.graph i ≡ some (n', m')
      → lookup pushed.node_cache n' ≡ some i
  push_unique fresh i n' m' e = elim (get_elem?-append_cases st.graph (n, m) i e) [
    | inl old ↦ ground (arith, node_beq_iff n n', h.unique i n' m' old)
    | inr (last, same) ↦
        let p : n ≡ n' = ap (λ (x : Node × NodeMetadata). x.0) same in
        ground (arith, node_beq_iff n n')
  ]

  pub push-IsDeduplicated :
      lookup st.node_cache n ≡ none
      → All (λ j. j < length st.graph) n.inputs × All (λ j. j < length st.graph) n.phantom_inputs
      → IsDeduplicated pushed
  push-IsDeduplicated fresh below = record {
    acyclic = push-IsAcyclic st.graph n m h.acyclic below;
    cached = push-cached;
    unique = push_unique fresh;
  }
