-- ===== src/Internal/Network/Sorted.antt =====
-- network.rs: trees whose children are in order, at every depth.
use serpentine.Prelude.{◌≡◌, ◌≢◌, refl, sym, ap, ◌∙◌}
use serpentine.Internal.Network.Shapes.{cmp-map_data}
use serpentine.Internal.Network.{
  Topology, Topologies, topology, no_trees, tree_cons, Order, less, same, greater, and_then, cmp,
  cmp_all, goes_before, insert, sort, push_child, with_children, map_data, map_all, add_child,
}

-- `map_data_ref(|_| ())`
abbrev pub shape : {T : Type 0} → Topology T → Topology (Unit {0})
shape t = map_data (λ _. tt) t

abbrev pub shapes : {T : Type 0} → Topologies T → Topologies (Unit {0})
shapes ts = map_all (λ _. tt) ts

abbrev flipped : Order → Order
flipped less = greater
flipped same = same
flipped greater = less

and_then-flipped : (o p : Order) → and_then (flipped o) (flipped p) ≡ flipped (and_then o p)
and_then-flipped less p = refl
and_then-flipped same p = refl
and_then-flipped greater p = refl

module _ {T : Type 0} where
  mutual
    unfolding cmp

    cmp-flipped : (t u : Topology T) → cmp u t ≡ flipped (cmp t u)
    cmp-flipped (topology _ cs) (topology _ ds) = cmp_all-flipped cs ds

    cmp_all-flipped : (cs ds : Topologies T) → cmp_all ds cs ≡ flipped (cmp_all cs ds)
    cmp_all-flipped no_trees no_trees = refl
    cmp_all-flipped no_trees (tree_cons d ds) = refl
    cmp_all-flipped (tree_cons c cs) no_trees = refl
    cmp_all-flipped (tree_cons c cs) (tree_cons d ds) =
        rw (cmp-flipped c d, cmp_all-flipped cs ds) (and_then-flipped (cmp c d) (cmp_all cs ds))

  -- The tree may stand before the list.
  abbrev Leads : Topology T → Topologies T → Type 0
  Leads c no_trees = Unit
  Leads c (tree_cons d ds) = cmp c d ≢ greater

  abbrev pub IsSorted : Topologies T → Type 0
  IsSorted no_trees = Unit
  IsSorted (tree_cons c cs) = Leads c cs × IsSorted cs

  abbrev mutual
    pub IsSortedTree : Topology T → Type 0
    IsSortedTree (topology data_ children) = IsSorted children × AreSortedTrees children

    pub AreSortedTrees : Topologies T → Type 0
    AreSortedTrees no_trees = Unit
    AreSortedTrees (tree_cons c cs) = IsSortedTree c × AreSortedTrees cs

  insert_first : (c : Topology T) (cs : Topologies T) → Leads c cs → insert c cs ≡ tree_cons c cs
  unfolding insert
  insert_first c no_trees h = refl
  insert_first c (tree_cons d ds) h = go (cmp c d) h
    where
      go :
          (o : Order)
          → o ≢ greater
          → goes_before o (tree_cons c (tree_cons d ds)) (tree_cons d (insert c ds))
            ≡ tree_cons c (tree_cons d ds)
      go less ne = refl
      go same ne = refl
      go greater ne = absurd (ne refl)

  sort_same : (cs : Topologies T) → IsSorted cs → sort cs ≡ cs
  unfolding sort
  sort_same no_trees h = refl
  sort_same (tree_cons c cs) (h, hs) = rw (sort_same cs hs) (insert_first c cs h)

  Leads-insert :
      (c d : Topology T) (ds : Topologies T)
      → cmp d c ≢ greater
      → Leads d ds
      → Leads d (insert c ds)
  unfolding insert
  Leads-insert c d no_trees h h' = h
  Leads-insert c d (tree_cons e es) h h' = go (cmp c e)
    where
      go :
          (o : Order)
          → Leads d (goes_before o (tree_cons c (tree_cons e es)) (tree_cons e (insert c es)))
      go less = h
      go same = h
      go greater = h'

  insert-IsSorted : (c : Topology T) (cs : Topologies T) → IsSorted cs → IsSorted (insert c cs)
  unfolding insert
  insert-IsSorted c no_trees h = (tt, tt)
  insert-IsSorted c (tree_cons d ds) (h, hs) =
      go (cmp c d) (cmp-flipped c d) refl (insert-IsSorted c ds hs)
    where
      go :
          (o : Order)
          → cmp d c ≡ flipped o
          → cmp c d ≡ o
          → IsSorted (insert c ds)
          → IsSorted (goes_before o (tree_cons c (tree_cons d ds)) (tree_cons d (insert c ds)))
      go less p q rest = (λ e. cc (q, e), (h, hs))
      go same p q rest = (λ e. cc (q, e), (h, hs))
      go greater p q rest = (Leads-insert c d ds (λ e. cc (p, e)) h, rest)

  sort-IsSorted : (cs : Topologies T) → IsSorted (sort cs)
  unfolding sort
  sort-IsSorted no_trees = tt
  sort-IsSorted (tree_cons c cs) = insert-IsSorted c (sort cs) (sort-IsSorted cs)

  insert-AreSortedTrees :
      (c : Topology T) (cs : Topologies T)
      → IsSortedTree c
      → AreSortedTrees cs
      → AreSortedTrees (insert c cs)
  unfolding insert
  insert-AreSortedTrees c no_trees h hs = (h, hs)
  insert-AreSortedTrees c (tree_cons d ds) h (k, ks) =
      go (cmp c d) (insert-AreSortedTrees c ds h ks)
    where
      go :
          (o : Order)
          → AreSortedTrees (insert c ds)
          → AreSortedTrees
              (goes_before o (tree_cons c (tree_cons d ds)) (tree_cons d (insert c ds)))
      go less rest = (h, (k, ks))
      go same rest = (h, (k, ks))
      go greater rest = (k, rest)

  sort-AreSortedTrees : (cs : Topologies T) → AreSortedTrees cs → AreSortedTrees (sort cs)
  unfolding sort
  sort-AreSortedTrees no_trees h = tt
  sort-AreSortedTrees (tree_cons c cs) (h, hs) =
      insert-AreSortedTrees c (sort cs) h (sort-AreSortedTrees cs hs)

  pub with_children-IsSortedTree :
      (data_ : T) (cs : Topologies T) → AreSortedTrees cs → IsSortedTree (with_children data_ cs)
  unfolding with_children
  with_children-IsSortedTree data_ cs h = (sort-IsSorted cs, sort-AreSortedTrees cs h)

  -- One list before another.
  abbrev pub join : Topologies T → Topologies T → Topologies T
  join no_trees ds = ds
  join (tree_cons c cs) ds = tree_cons c (join cs ds)

  pub push_child-join :
      (cs ds : Topologies T) (d : Topology T) → join (push_child cs d) ds ≡ join cs (tree_cons d ds)
  unfolding push_child
  push_child-join no_trees ds d = refl
  push_child-join (tree_cons c cs) ds d = ap (tree_cons c) (push_child-join cs ds d)

  push_child-IsSorted :
      (cs ds : Topologies T) (d : Topology T)
      → IsSorted (join cs (tree_cons d ds))
      → IsSorted (push_child cs d)
  unfolding push_child
  push_child-IsSorted no_trees ds d h = (tt, tt)
  push_child-IsSorted (tree_cons c no_trees) ds d (h, hs) = (h, (tt, tt))
  push_child-IsSorted (tree_cons c (tree_cons e es)) ds d (h, hs) =
      (h, push_child-IsSorted (tree_cons e es) ds d hs)

  -- A child that is not before the others goes behind them.
  pub add_child_last :
      (data_ : T) (cs ds : Topologies T) (d : Topology T)
      → IsSorted (join cs (tree_cons d ds))
      → add_child (topology data_ cs) d ≡ topology data_ (push_child cs d)
  unfolding add_child
  add_child_last data_ cs ds d h =
      ap (topology data_) (sort_same (push_child cs d) (push_child-IsSorted cs ds d h))

  pub join_end : (cs : Topologies T) → join cs no_trees ≡ cs
  join_end no_trees = refl
  join_end (tree_cons c cs) = ap (tree_cons c) (join_end cs)

-- The order looks at shapes only.
pub IsSorted-shapes : {T : Type 0} (cs : Topologies T) → IsSorted (shapes cs) → IsSorted cs
unfolding map_data
IsSorted-shapes no_trees h = tt
IsSorted-shapes (tree_cons c no_trees) h = (tt, tt)
IsSorted-shapes (tree_cons c (tree_cons d ds)) (h, hs) =
    (λ e. h (cmp-map_data (λ _. tt) c d ∙ e), IsSorted-shapes (tree_cons d ds) hs)

IsSorted-map_all : {T : Type 0} (cs : Topologies T) → IsSorted cs → IsSorted (shapes cs)
unfolding map_data
IsSorted-map_all no_trees h = tt
IsSorted-map_all (tree_cons c no_trees) h = (tt, tt)
IsSorted-map_all (tree_cons c (tree_cons d ds)) (h, hs) =
    (λ e. h (sym (cmp-map_data (λ _. tt) c d) ∙ e), IsSorted-map_all (tree_cons d ds) hs)

mutual
  unfolding map_data

  IsSortedTree-map_data : {T : Type 0} (t : Topology T) → IsSortedTree t → IsSortedTree (shape t)
  IsSortedTree-map_data (topology data_ cs) (h, hs) =
      (IsSorted-map_all cs h, AreSortedTrees-map_all cs hs)

  AreSortedTrees-map_all :
      {T : Type 0} (cs : Topologies T) → AreSortedTrees cs → AreSortedTrees (shapes cs)
  AreSortedTrees-map_all no_trees h = tt
  AreSortedTrees-map_all (tree_cons c cs) (h, hs) =
      (IsSortedTree-map_data c h, AreSortedTrees-map_all cs hs)

pub shape-IsSortedTree : {T : Type 0} (t : Topology T) → IsSortedTree t → IsSortedTree (shape t)
shape-IsSortedTree t h = IsSortedTree-map_data t h
