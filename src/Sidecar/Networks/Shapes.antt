-- ===== src/Sidecar/Networks/Shapes.antt =====
-- sidecar/src/main.rs: a network has the shape that was asked for.
use serpentine.Prelude.{◌⊎◌, inl, inr, ◌≡◌, refl, sym, ap, ◌∙◌, subst, Option, none, List, [], ◌∷◌}
use serpentine.Prelude.Text.{Text}
use serpentine.Prelude.Outcome.{Outcome, Total, returned, rejected, Total-bind}
use serpentine.Internal.Network.{Adapter, Namespace}
use serpentine.Internal.Network.{
  Topology, Topologies, topology, no_trees, tree_cons, new, push_child, map_data,
}
use serpentine.Internal.Network.Sorted.{
  shape, shapes, IsSorted, IsSortedTree, AreSortedTrees, IsSorted-shapes, join, join_end,
  push_child-join, add_child_last,
}
use serpentine.Sidecar.Networks.{
  BridgeDefinition, Counters, System, answer, apply_network, apply_bridges,
  create_network_namespace, add_children, realize_topology, realize_children,
}

-- The run ends, with what it gives or with an error of the system.
abbrev pub Ends : {E A : Type 0} → Outcome E A → Type 0
Ends r = Total (λ _. Unit {0}) (λ _. Unit {0}) r

pub answer-Ends : {E A : Type 0} (a : E ⊎ A) → Ends (answer a)
unfolding answer
answer-Ends (inl e) = rejected tt
answer-Ends (inr a) = returned tt

module _ {E : Type 0} (system : System E) where
  apply_network-Ends :
      (path : Text) (adapter : Adapter) (st : Counters)
      → Ends (apply_network system path adapter st)
  unfolding apply_network
  apply_network-Ends path adapter st = Total-bind (answer-Ends _) λ _ _. returned tt

  apply_bridges-Ends :
      (path : Text) (bridges : List BridgeDefinition) (st : Counters)
      → Ends (apply_bridges system path bridges st)
  unfolding apply_bridges
  apply_bridges-Ends path [] st = returned tt
  apply_bridges-Ends path (b ∷ bridges) st =
      Total-bind (apply_network-Ends path _ st)
        λ (adapter, st') _. Total-bind (apply_bridges-Ends path bridges st') λ _ _. returned tt

  create_network_namespace-Ends :
      (bridges : List BridgeDefinition) (st : Counters)
      → Ends (create_network_namespace system bridges st)
  unfolding create_network_namespace
  create_network_namespace-Ends bridges st = Total-bind (answer-Ends _) λ path _.
      Total-bind (apply_network-Ends path _ _) λ (lo, st1) _.
        Total-bind (apply_network-Ends path _ _)
          λ (eth0, st3) _. Total-bind (apply_bridges-Ends path bridges st3) λ _ _. returned tt

  pub add_children-join :
      (data_ : Namespace) (before after : Topologies Namespace)
      → IsSorted (join before after)
      → add_children system (topology data_ before) after ≡ topology data_ (join before after)
  unfolding add_children
  add_children-join data_ before no_trees h = ap (topology data_) (sym (join_end before))
  add_children-join data_ before (tree_cons c cs) h =
      let moved = push_child-join before cs c in
      rw (add_child_last data_ before cs c h) (
        add_children-join data_ (push_child before c) cs (subst IsSorted (sym moved) h)
        ∙ ap (topology data_) moved)

  pub realized_shape :
      (data_ : Namespace) (cs : Topologies (Unit {0})) (new_children : Topologies Namespace)
      → IsSorted cs
      → shapes new_children ≡ cs
      → shape (add_children system (new data_) new_children) ≡ topology tt cs
  unfolding map_data
  realized_shape data_ cs new_children h e =
      rw
        (add_children-join data_ no_trees new_children
          (IsSorted-shapes new_children (subst IsSorted (sym e) h)))
        (ap (topology tt) e)

  mutual
    unfolding realize_topology map_data

    realize-shape :
        (t : Topology (Unit {0})) (parent_bridge : Option BridgeDefinition) (st : Counters)
        → IsSortedTree t
        → Total
            (λ _. Unit {0})
            (λ (x : Topology Namespace × Counters). shape x.0 ≡ t)
            (realize_topology system t parent_bridge st)
    realize-shape (topology data_ children) parent_bridge st (h, hs) =
        Total-bind (realize_children-shapes children st hs) λ ((bridges, new_children), st') e.
          Total-bind (create_network_namespace-Ends _ st')
            λ ((path, adapters), st'') _. returned (realized_shape _ children new_children h e)

    realize_children-shapes :
        (ts : Topologies (Unit {0})) (st : Counters)
        → AreSortedTrees ts
        → Total
            (λ _. Unit {0})
            (λ (x : (List BridgeDefinition × Topologies Namespace) × Counters). shapes x.0.1 ≡ ts)
            (realize_children system ts st)
    realize_children-shapes no_trees st h = returned refl
    realize_children-shapes (tree_cons t ts) st (h, hs) =
        Total-bind (realize-shape t _ _ h) λ (realized, st2) e.
          Total-bind (realize_children-shapes ts st2 hs)
            λ ((bridges, new_children), st3) es. returned (cc (e, es))

  -- A tree whose children are in order is realized as a network of its shape, whatever the system
  -- and the other connections do, or the system's error is returned.
  pub realize_topology-shape :
      (t : Topology (Unit {0})) (st : Counters)
      → IsSortedTree t
      → Total
          (λ _. Unit {0})
          (λ (x : Topology Namespace × Counters). shape x.0 ≡ t)
          (realize_topology system t none st)
  realize_topology-shape t st h = realize-shape t none st h
