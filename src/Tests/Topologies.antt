-- ===== src/Tests/Topologies.antt =====
-- A small tree of containers.
use serpentine.Prelude.{ℕ, suc, ◌+◌, ◌≡◌, ◌↔◌, refl, true, some, [], ◌∷◌, nat_eq, arith}
use serpentine.Internal.Network.{
  Topology, Topologies, topology, no_trees, tree_cons, new, add_child, with_children, map_data,
  map_all, zip, eq, eq_with_data, collect, flat_data,
}
use serpentine.Internal.Network.Visits.{collect-visits}
use serpentine.Internal.Network.Shapes.{map_data-with_children, zip-map_data, eq_with_data_iff}

-- 1 with the children 2 and 3, and 4 below 3.
abbrev tree : Topology ℕ
tree = topology 1 (tree_cons (new 2) (tree_cons (topology 3 (tree_cons (new 4) no_trees)) no_trees))

-- The child with a child goes behind the one without.
add_child-tree : add_child (add_child (new 1) (add_child (new 3) (new 4))) (new 2) ≡ tree
unfolding add_child
add_child-tree = refl

eq-tree : eq tree (map_data suc tree) ≡ true
unfolding eq map_data
eq-tree = refl

collect-visits_example : collect 5 (flat_data tree) ≡ some (1 ∷ 3 ∷ 4 ∷ 2 ∷ [])
collect-visits_example = collect-visits tree 5 (omega arith)

abbrev leaves : Topologies ℕ
leaves = tree_cons (new 4) (tree_cons (new 5) no_trees)

map_data-with_children_example :
    map_data suc (with_children 1 leaves) ≡ with_children 2 (map_all suc leaves)
map_data-with_children_example = map_data-with_children suc 1 leaves

zip-map_data_example :
    zip (map_data suc tree) (map_data (λ n. n + n) tree) ≡ map_data (λ n. (suc n, n + n)) tree
zip-map_data_example = zip-map_data suc (λ n. n + n) tree

eq_with_data_iff_example : (eq_with_data tree (new 1) ≡ true) ↔ (tree ≡ new 1)
eq_with_data_iff_example = eq_with_data_iff tree (new 1)
