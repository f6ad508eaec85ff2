-- ===== src/Internal/Network/Shapes.antt =====
-- network.rs: what depends on the shape of a tree only.
use serpentine.Prelude.{
  subst, ◌↔◌, Eq, ◌==◌, nat_eq, nat_beq_iff, arith, ◌≡◌, refl, ap, Bool, true, false, ◌&&◌,
}
use serpentine.Internal.Network.{
  Topology, Topologies, topology, no_trees, tree_cons, Order, less, same, greater, cmp, cmp_all,
  goes_before, insert, sort, with_children, map_data, map_all, zip, zip_all, len, eq_with_data,
  all_eq_with_data,
}

pub both_true : (a b : Bool) → (a && b) ≡ true → (a ≡ true) × (b ≡ true)
both_true true true h = (refl, refl)
both_true true false h = cc
both_true false b h = cc

module _ {T U : Type 0} (func : T → U) where
  mutual
    unfolding cmp cmp_all map_data map_all

    pub cmp-map_data : (a b : Topology T) → cmp (map_data func a) (map_data func b) ≡ cmp a b
    cmp-map_data (topology _ cs) (topology _ ds) = cmp_all-map_all cs ds

    cmp_all-map_all :
        (cs ds : Topologies T) → cmp_all (map_all func cs) (map_all func ds) ≡ cmp_all cs ds
    cmp_all-map_all no_trees no_trees = refl
    cmp_all-map_all no_trees (tree_cons d ds) = refl
    cmp_all-map_all (tree_cons c cs) no_trees = refl
    cmp_all-map_all (tree_cons c cs) (tree_cons d ds) = cc (cmp-map_data c d, cmp_all-map_all cs ds)

  insert-map_all :
      (c : Topology T) (cs : Topologies T)
      → insert (map_data func c) (map_all func cs) ≡ map_all func (insert c cs)
  unfolding insert map_all
  insert-map_all c no_trees = refl
  insert-map_all c (tree_cons d ds) = go (cmp c d) (cmp-map_data c d) (insert-map_all c ds)
    where
      go :
          (o : Order)
          → cmp (map_data func c) (map_data func d) ≡ o
          → insert (map_data func c) (map_all func ds) ≡ map_all func (insert c ds)
          → goes_before
              (cmp (map_data func c) (map_data func d))
              (tree_cons (map_data func c) (tree_cons (map_data func d) (map_all func ds)))
              (tree_cons (map_data func d) (insert (map_data func c) (map_all func ds)))
            ≡ map_all func
                (goes_before o (tree_cons c (tree_cons d ds)) (tree_cons d (insert c ds)))
      go less p h = rw p refl
      go same p h = rw p refl
      go greater p h = rw (p, h) refl

  sort-map_all : (cs : Topologies T) → sort (map_all func cs) ≡ map_all func (sort cs)
  unfolding sort map_all
  sort-map_all no_trees = refl
  sort-map_all (tree_cons c cs) = rw (sort-map_all cs) (insert-map_all c (sort cs))

  -- `map_data` keeps the children in their order, since the order looks at shapes only: the tree that
  -- it gives is the one that `with_children` builds of the children's images.
  pub map_data-with_children :
      (data_ : T) (children : Topologies T)
      → map_data func (with_children data_ children)
        ≡ with_children (func data_) (map_all func children)
  unfolding map_data with_children
  map_data-with_children data_ children = rw (sort-map_all children) refl

module _ {T U V : Type 0} (f : T → U) (g : T → V) where
  mutual
    unfolding zip zip_all map_data map_all

    zip_images : (t : Topology T) → zip (map_data f t) (map_data g t) ≡ map_data (λ a. (f a, g a)) t
    zip_images (topology a cs) = ap (topology (f a, g a)) (zip_all_images cs)

    zip_all_images :
        (cs : Topologies T) → zip_all (map_all f cs) (map_all g cs) ≡ map_all (λ a. (f a, g a)) cs
    zip_all_images no_trees = refl
    zip_all_images (tree_cons c cs) = cc (zip_images c, zip_all_images cs)

  -- Two images of one tree are paired node by node, with no child left out.
  pub zip-map_data :
      (t : Topology T) → zip (map_data f t) (map_data g t) ≡ map_data (λ a. (f a, g a)) t
  zip-map_data t = zip_images t

module _ {T : Type 0} ⦃e : Eq T⦄ where
  mutual
    unfolding eq_with_data all_eq_with_data

    eq_with_data-eq : (t u : Topology T) → eq_with_data t u ≡ true → t ≡ u
    eq_with_data-eq (topology a cs) (topology b ds) h =
        let (p, h') = both_true (a == b) _ h in
        let (q, r) = both_true (len cs == len ds) _ h' in
        let data_same : a ≡ b = (e.is_eq_iff a b).0 p in
        let children_same = all_eq cs ds ((nat_beq_iff (len cs) (len ds)).0 q) r in
        cc (data_same, children_same)

    all_eq : (cs ds : Topologies T) → len cs ≡ len ds → all_eq_with_data cs ds ≡ true → cs ≡ ds
    all_eq no_trees no_trees p h = refl
    all_eq no_trees (tree_cons d ds) p h = absurd (omega arith)
    all_eq (tree_cons c cs) no_trees p h = absurd (omega arith)
    all_eq (tree_cons c cs) (tree_cons d ds) p h =
        let (q, r) = both_true (eq_with_data c d) _ h in
        cc (eq_with_data-eq c d q, all_eq cs ds (omega arith) r)

  mutual
    unfolding eq_with_data all_eq_with_data

    eq_with_data_refl : (t : Topology T) → eq_with_data t t ≡ true
    eq_with_data_refl (topology a cs) =
        rw ((e.is_eq_iff a a).1 refl, (nat_beq_iff (len cs) (len cs)).1 refl) (all_refl cs)

    all_refl : (cs : Topologies T) → all_eq_with_data cs cs ≡ true
    all_refl no_trees = refl
    all_refl (tree_cons c cs) = rw (eq_with_data_refl c) (all_refl cs)

  -- `eq_with_data` holds of equal trees only, and of all of them.
  pub eq_with_data_iff : (t u : Topology T) → (eq_with_data t u ≡ true) ↔ (t ≡ u)
  eq_with_data_iff t u =
      (eq_with_data-eq t u, λ p. subst (λ u. eq_with_data t u ≡ true) p (eq_with_data_refl t))
