-- ===== src/Internal/Network.antt =====
-- serpentine_internal/src/network.rs: trees of containers. The order of the children is that of the
-- trees' shapes; a list of trees is a type of the same block.
pub mod Visits
pub mod Shapes
pub mod Sorted
use serpentine.Prelude.{
  ℕ, zero, suc, ◌+◌, Bool, true, false, ◌&&◌, Option, none, some, List, [], ◌∷◌, Eq, ◌==◌, nat_eq,
  if◌then◌else◌,
}
use serpentine.Prelude.Text.{Text}

mutual
  pub data Topology (T : Type 0) : Type 0 where
    topology : T → Topologies T → Topology T

  pub data Topologies (T : Type 0) : Type 0 where
    no_trees : Topologies T
    tree_cons : Topology T → Topologies T → Topologies T

-- The configuration of an adapter, a text in the program: a bridge to the host has a gateway, one
-- between containers has not.
pub data AdapterConfig : Type 0 where
  loopback : AdapterConfig
  internet_bridge : ℕ → ℕ → AdapterConfig
  bridge : Text → ℕ → AdapterConfig

pub record Adapter : Type 0 where
  pub ifname : Text
  pub config_json : AdapterConfig

-- An Ipv4Addr is its 32 bits.
pub record Namespace : Type 0 where
  pub path : Text
  pub ip : ℕ
  pub adapters : List Adapter

abbrev pub new : {T : Type 0} → T → Topology T
new data_ = topology data_ no_trees

abbrev pub get_data : {T : Type 0} → Topology T → T
get_data (topology data_ children) = data_

-- `std::cmp::Ordering`
pub data Order : Type 0 where
  less same greater : Order

-- `Ordering::then`
abbrev pub and_then : Order → Order → Order
and_then same o = o
and_then less o = less
and_then greater o = greater

-- `Topology::cmp`: the children decide, one list before another by the first that differs.
unfoldable mutual
  pub cmp : {T : Type 0} → Topology T → Topology T → Order
  cmp (topology _ cs) (topology _ ds) = cmp_all cs ds

  pub cmp_all : {T : Type 0} → Topologies T → Topologies T → Order
  cmp_all no_trees no_trees = same
  cmp_all no_trees (tree_cons d ds) = less
  cmp_all (tree_cons c cs) no_trees = greater
  cmp_all (tree_cons c cs) (tree_cons d ds) = and_then (cmp c d) (cmp_all cs ds)

abbrev pub goes_before : {A : Type 0} → Order → A → A → A
goes_before greater a b = b
goes_before _ a b = a

-- `slice::sort`, which is stable.
unfoldable pub insert : {T : Type 0} → Topology T → Topologies T → Topologies T
unfolding cmp
insert c no_trees = tree_cons c no_trees
insert c (tree_cons d ds) =
    let rest = insert c ds in
    goes_before (cmp c d) (tree_cons c (tree_cons d ds)) (tree_cons d rest)

unfoldable pub sort : {T : Type 0} → Topologies T → Topologies T
unfolding insert
sort no_trees = no_trees
sort (tree_cons c cs) = insert c (sort cs)

unfoldable pub push_child : {T : Type 0} → Topologies T → Topology T → Topologies T
push_child no_trees d = tree_cons d no_trees
push_child (tree_cons c cs) d = tree_cons c (push_child cs d)

unfoldable pub with_children : {T : Type 0} → T → Topologies T → Topology T
unfolding sort
with_children data_ children = topology data_ (sort children)

unfoldable pub add_child : {T : Type 0} → Topology T → Topology T → Topology T
unfolding sort push_child
add_child (topology data_ children) child = topology data_ (sort (push_child children child))

unfoldable mutual
  pub map_data : {T U : Type 0} → (T → U) → Topology T → Topology U
  map_data func (topology data_ children) = topology (func data_) (map_all func children)

  pub map_all : {T U : Type 0} → (T → U) → Topologies T → Topologies U
  map_all func no_trees = no_trees
  map_all func (tree_cons c cs) = tree_cons (map_data func c) (map_all func cs)

unfoldable mutual
  pub zip : {T U : Type 0} → Topology T → Topology U → Topology (T × U)
  zip (topology a cs) (topology b ds) = topology (a, b) (zip_all cs ds)

  pub zip_all : {T U : Type 0} → Topologies T → Topologies U → Topologies (T × U)
  zip_all no_trees ds = no_trees
  zip_all (tree_cons c cs) no_trees = no_trees
  zip_all (tree_cons c cs) (tree_cons d ds) = tree_cons (zip c d) (zip_all cs ds)

abbrev pub len : {T : Type 0} → Topologies T → ℕ
len no_trees = 0
len (tree_cons c cs) = suc (len cs)

module _ {T : Type 0} ⦃e : Eq T⦄ where
  unfoldable mutual
    pub eq_with_data : Topology T → Topology T → Bool
    eq_with_data (topology a cs) (topology b ds) =
        (a == b) && ((len cs == len ds) && all_eq_with_data cs ds)

    -- The loop over the children of both.
    pub all_eq_with_data : Topologies T → Topologies T → Bool
    all_eq_with_data no_trees ds = true
    all_eq_with_data (tree_cons c cs) no_trees = true
    all_eq_with_data (tree_cons c cs) (tree_cons d ds) = eq_with_data c d && all_eq_with_data cs ds

-- `PartialEq`: the shapes are equal.
unfoldable mutual
  pub eq : {T : Type 0} → Topology T → Topology T → Bool
  eq (topology _ cs) (topology _ ds) = eq_all cs ds

  pub eq_all : {T : Type 0} → Topologies T → Topologies T → Bool
  eq_all no_trees no_trees = true
  eq_all no_trees (tree_cons d ds) = false
  eq_all (tree_cons c cs) no_trees = false
  eq_all (tree_cons c cs) (tree_cons d ds) = eq c d && eq_all cs ds

-- The stack of `TopologyIter`, its top first.
unfoldable pub push_all : {T : Type 0} → Topologies T → List (Topology T) → List (Topology T)
push_all no_trees stack = stack
push_all (tree_cons c cs) stack = push_all cs (c ∷ stack)

unfoldable pub next : {T : Type 0} → List (Topology T) → Option (T × List (Topology T))
unfolding push_all
next [] = none
next (topology data_ children ∷ stack) = some (data_, push_all children stack)

-- The iterator up to its end, on fuel.
unfoldable pub collect : {T : Type 0} → ℕ → List (Topology T) → Option (List T)
unfolding next
collect zero stack = none
collect (suc fuel) stack = elim (next stack) [
  | none ↦ some []
  | some (data_, stack') ↦ elim (collect fuel stack') [
    | none ↦ none
    | some rest ↦ some (data_ ∷ rest)
  ]
]

-- `flat_data`, whose stack is the tree.
unfoldable pub flat_data : {T : Type 0} → Topology T → List (Topology T)
flat_data t = t ∷ []
