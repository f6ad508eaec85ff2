-- ===== src/Sidecar/Networks/Links.antt =====
-- sidecar/src/main.rs: which containers share a bridge.
use serpentine.Prelude.{
  ℕ, ◌⊎◌, inl, inr, ◌≡◌, refl, sym, ap, subst, Option, none, some, List, [], ◌∷◌, map,
}
use serpentine.Prelude.Text.{Text}
use serpentine.Prelude.Outcome.{Total, returned, Total-bind, Total-mono}
use serpentine.Internal.Network.{
  AdapterConfig, bridge, Adapter, Namespace, Topology, Topologies, topology, no_trees, tree_cons,
  new, get_data, map_data,
}
use serpentine.Internal.Network.Sorted.{
  shape, shapes, IsSorted, IsSortedTree, AreSortedTrees, IsSorted-shapes,
}
use serpentine.Sidecar.Subnets.{subnet_of, pick_subnet}
use serpentine.Sidecar.Networks.{
  BridgeDefinition, Counters, System, apply_network, apply_bridges, with_parent, ip_of,
  create_network_namespace, next_subnet, add_children, realize_topology, realize_children,
}
use serpentine.Sidecar.Networks.Shapes.{answer-Ends, add_children-join, realized_shape}

abbrev Has : AdapterConfig → List Adapter → Type 0
Has config [] = ⊥
Has config (a ∷ adapters) = (a.config_json ≡ config) ⊎ Has config adapters

-- The parent has one side of a bridge and the child the other, which is the child's address; the
-- sides are the two addresses of one subnet.
abbrev pub Shares : Namespace → Namespace → Type 0
Shares parent child =
    (name : Text) × (counter : ℕ) × (Has (bridge name (subnet_of counter).ip1) parent.adapters
      × (Has (bridge name (subnet_of counter).ip2) child.adapters
          × (child.ip ≡ (subnet_of counter).ip2)))

-- Every container shares a bridge with each of its services.
abbrev mutual
  pub IsLinked : Topology Namespace → Type 0
  IsLinked (topology namespace children) = AreLinked namespace children

  pub AreLinked : Namespace → Topologies Namespace → Type 0
  AreLinked namespace no_trees = Unit
  AreLinked namespace (tree_cons t ts) =
      Shares namespace (get_data t) × (IsLinked t × AreLinked namespace ts)

abbrev adapter_for : BridgeDefinition → Adapter
adapter_for b = record { ifname = b.name; config_json = bridge b.name b.ip }

-- The bridges that lead to the networks of the children.
abbrev Lead : List BridgeDefinition → Topologies Namespace → Type 0
Lead [] no_trees = Unit
Lead (b ∷ bridges) (tree_cons t ts) =
    ((counter : ℕ) × ((b.ip ≡ (subnet_of counter).ip1)
        × (Has (bridge b.name (subnet_of counter).ip2) (get_data t).adapters
            × ((get_data t).ip ≡ (subnet_of counter).ip2))))
    × (IsLinked t × Lead bridges ts)
Lead _ _ = ⊥

Lead-AreLinked :
    (namespace : Namespace) (bridges : List BridgeDefinition) (ts : Topologies Namespace)
    → Lead bridges ts
    → ((config : AdapterConfig)
        → Has config (map adapter_for bridges)
        → Has config namespace.adapters)
    → AreLinked namespace ts
Lead-AreLinked namespace [] no_trees l has = tt
Lead-AreLinked namespace [] (tree_cons t ts) l has = absurd l
Lead-AreLinked namespace (b ∷ bridges) no_trees l has = absurd l
Lead-AreLinked namespace (b ∷ bridges) (tree_cons t ts) ((counter, (p, (h, q))), (k, ks)) has = (
  (b.name, counter, (has _ (inl (ap (bridge b.name) p)), (h, q))),
  (k, Lead-AreLinked namespace bridges ts ks (λ config m. has config (inr m))),
)

module _ {E : Type 0} (system : System E) where
  apply_network-same :
      (path : Text) (adapter : Adapter) (st : Counters)
      → Total
          (λ _. Unit {0})
          (λ (x : Adapter × Counters). x.0 ≡ adapter)
          (apply_network system path adapter st)
  unfolding apply_network
  apply_network-same path adapter st = Total-bind (answer-Ends _) λ _ _. returned refl

  apply_bridges-map :
      (path : Text) (bridges : List BridgeDefinition) (st : Counters)
      → Total
          (λ _. Unit {0})
          (λ (x : List Adapter × Counters). x.0 ≡ map adapter_for bridges)
          (apply_bridges system path bridges st)
  unfolding apply_bridges
  apply_bridges-map path [] st = returned refl
  apply_bridges-map path (b ∷ bridges) st =
      Total-bind (apply_network-same path _ st) λ (adapter, st') e.
        Total-bind (apply_bridges-map path bridges st') λ _ es. returned (cc (e, es))

  -- The adapters hold those of the bridges.
  create_network_namespace-Has :
      (bridges : List BridgeDefinition) (st : Counters)
      → Total
          (λ _. Unit {0})
          (λ (x : (Text × List Adapter) × Counters).
            (config : AdapterConfig) → Has config (map adapter_for bridges) → Has config x.0.1)
          (create_network_namespace system bridges st)
  unfolding create_network_namespace
  create_network_namespace-Has bridges st = Total-bind (answer-Ends _) λ path _.
      Total-bind (apply_network-same path _ _) λ (lo, st1) _.
        Total-bind (apply_network-same path _ _) λ (eth0, st3) _.
          Total-bind (apply_bridges-map path bridges st3)
            λ (adapters, st4) e. returned (λ config m. inr (inr (subst (Has config) (sym e) m)))

  abbrev OfParent : Option BridgeDefinition → Namespace → Type 0
  OfParent none namespace = Unit
  OfParent (some b) namespace = Has (bridge b.name b.ip) namespace.adapters

  parent_adapter :
      (parent_bridge : Option BridgeDefinition) (bridges : List BridgeDefinition)
      (namespace : Namespace)
      → ((config : AdapterConfig)
          → Has config (map adapter_for (with_parent system parent_bridge bridges))
          → Has config namespace.adapters)
      → OfParent parent_bridge namespace
  parent_adapter none bridges namespace has = tt
  parent_adapter (some b) bridges namespace has = has _ (inl refl)

  child_adapters :
      (parent_bridge : Option BridgeDefinition) (bridges : List BridgeDefinition)
      (namespace : Namespace)
      → ((config : AdapterConfig)
          → Has config (map adapter_for (with_parent system parent_bridge bridges))
          → Has config namespace.adapters)
      → (config : AdapterConfig) → Has config (map adapter_for bridges)
      → Has config namespace.adapters
  child_adapters none bridges namespace has config m = has config m
  child_adapters (some b) bridges namespace has config m = has config (inr m)

  -- What a network is to its parent and to its children.
  abbrev Placed : Option BridgeDefinition → Topology Namespace → Type 0
  Placed parent_bridge t =
      ((get_data t).ip ≡ ip_of parent_bridge) × (OfParent parent_bridge (get_data t) × IsLinked t)

  placed :
      (parent_bridge : Option BridgeDefinition) (bridges : List BridgeDefinition)
      (namespace : Namespace) (cs : Topologies (Unit {0})) (new_children : Topologies Namespace)
      → namespace.ip ≡ ip_of parent_bridge
      → ((config : AdapterConfig)
          → Has config (map adapter_for (with_parent system parent_bridge bridges))
          → Has config namespace.adapters)
      → IsSorted cs
      → Lead bridges new_children
      → shapes new_children ≡ cs
      → Placed parent_bridge (add_children system (new namespace) new_children)
  placed parent_bridge bridges namespace cs new_children p has sorted lead e =
      rw
        (add_children-join system namespace no_trees new_children
          (IsSorted-shapes new_children (subst IsSorted (sym e) sorted)))
        (
          p,
          (
            parent_adapter parent_bridge bridges namespace has,
            Lead-AreLinked namespace bridges new_children lead
                (child_adapters parent_bridge bridges namespace has),
          ),
        )

  mutual
    unfolding realize_topology map_data next_subnet pick_subnet

    realize-Placed :
        (t : Topology (Unit {0})) (parent_bridge : Option BridgeDefinition) (st : Counters)
        → IsSortedTree t
        → Total
            (λ _. Unit {0})
            (λ (x : Topology Namespace × Counters). Placed parent_bridge x.0 × (shape x.0 ≡ t))
            (realize_topology system t parent_bridge st)
    realize-Placed (topology data_ children) parent_bridge st (h, hs) =
        Total-bind (realize_children-Lead children st hs)
          λ ((bridges, new_children), st') (lead, e).
            Total-bind (create_network_namespace-Has (with_parent system parent_bridge bridges) st')
              λ ((path, adapters), st'') has. returned (
                placed parent_bridge bridges _ children new_children refl has h lead e,
                realized_shape system _ children new_children h e,
              )

    realize_children-Lead :
        (ts : Topologies (Unit {0})) (st : Counters)
        → AreSortedTrees ts
        → Total
            (λ _. Unit {0})
            (λ (x : (List BridgeDefinition × Topologies Namespace) × Counters).
              Lead x.0.0 x.0.1 × (shapes x.0.1 ≡ ts))
            (realize_children system ts st)
    realize_children-Lead no_trees st h = returned (tt, refl)
    realize_children-Lead (tree_cons t ts) st (h, hs) =
        Total-bind (realize-Placed t _ _ h) λ (realized, st2) ((p, (parent, linked)), e).
          Total-bind (realize_children-Lead ts st2 hs) λ ((bridges, new_children), st3) (lead, es).
            returned (((_, (refl, (parent, p))), (linked, lead)), cc (e, es))

  -- In a network that is made for a tree whose children are in order, every container shares a bridge
  -- with each of its services, on two addresses of one subnet, of which the service's is its address.
  pub realize_topology-IsLinked :
      (t : Topology (Unit {0})) (st : Counters)
      → IsSortedTree t
      → Total
          (λ _. Unit {0})
          (λ (x : Topology Namespace × Counters). IsLinked x.0)
          (realize_topology system t none st)
  realize_topology-IsLinked t st h = Total-mono (λ x k. k.0.1.1) (realize-Placed t none st h)
