-- ===== src/Sidecar/Networks.antt =====
-- sidecar/src/main.rs: realize_topology. What creates a namespace, and the random names, are
-- parameters; the texts of the network configurations are kept as data.
pub mod Shapes
pub mod Links
use serpentine.Prelude.{
  ℕ, zero, suc, ◌+◌, ◌*◌, ◌%◌, ◌⊎◌, inl, inr, Option, none, some, List, [], ◌∷◌,
}
use serpentine.Prelude.Text.{Text, codes}
use serpentine.Prelude.Outcome.{Outcome, ok, err, bind}
use serpentine.Internal.Network.{
  AdapterConfig, loopback, internet_bridge, bridge, Adapter, Namespace, Topology, Topologies,
  topology, no_trees, tree_cons, new, add_child,
}
use serpentine.Sidecar.Subnets.{Subnet, pick_subnet}

pub record BridgeDefinition : Type 0 where
  pub name : Text
  pub ip : ℕ

-- The counter of the subnets, and how many calls of the system were made.
pub record Counters : Type 0 where
  pub subnets : ℕ
  pub time : ℕ

-- The system: the errors `E`, the path of a new namespace, and the answer to `apply_network` there.
-- `elsewhere` counts the subnets that other connections pick between two calls.
pub record System (E : Type 0) : Type 0 where
  pub uuid : ℕ → Text
  pub elsewhere : ℕ → ℕ
  pub new_namespace : ℕ → E ⊎ Text
  pub apply_network : ℕ → Text → Adapter → E ⊎ Unit {0}

-- 127.0.0.1
abbrev pub localhost : ℕ
localhost = 127 * 16777216 + 1

abbrev pub ip_of : Option BridgeDefinition → ℕ
ip_of none = localhost
ip_of (some parent_bridge) = parent_bridge.ip

unfoldable pub answer : {E A : Type 0} → E ⊎ A → Outcome E A
answer (inl e) = err e
answer (inr a) = ok a

-- `String::truncate`, for ASCII.
abbrev truncate : ℕ → Text → Text
truncate zero s = []
truncate (suc n) [] = []
truncate (suc n) (c ∷ cs) = c ∷ truncate n cs

abbrev tick : Counters → Counters
tick st = record st { time = suc st.time }

module _ {E : Type 0} (system : System E) where
  -- `fetch_add` on the counter that the connections share.
  unfoldable pub next_subnet : Counters → Subnet × Counters
  unfolding pick_subnet
  next_subnet st =
      let (subnet, counter) = pick_subnet ((st.subnets + system.elsewhere st.time) % 65536) in
      (subnet, record { subnets = counter; time = suc st.time })

  unfoldable pub apply_network : Text → Adapter → Counters → Outcome E (Adapter × Counters)
  apply_network path adapter st =
      bind (answer (system.apply_network st.time path adapter)) λ _. ok (adapter, tick st)

  -- The loop over the bridges.
  unfoldable pub apply_bridges :
      Text → List BridgeDefinition → Counters → Outcome E (List Adapter × Counters)
  unfolding apply_network
  apply_bridges path [] st = ok ([], st)
  apply_bridges path (b ∷ bridges) st =
      bind (apply_network path (record { ifname = b.name; config_json = bridge b.name b.ip }) st)
        λ (adapter, st').
          bind (apply_bridges path bridges st') λ (adapters, st''). ok (adapter ∷ adapters, st'')

  unfoldable pub create_network_namespace :
      List BridgeDefinition → Counters → Outcome E ((Text × List Adapter) × Counters)
  unfolding apply_network apply_bridges next_subnet
  create_network_namespace bridges st = bind (answer (system.new_namespace st.time)) λ path.
      bind (apply_network path (record { ifname = codes "lo"; config_json = loopback }) (tick st))
        λ (lo, st1).
          let (subnet, st2) = next_subnet st1 in
          bind
            (apply_network path
              (record {
                ifname = codes "eth0";
                config_json = internet_bridge subnet.ip1 subnet.ip2;
              })
              st2)
            λ (eth0, st3).
              bind (apply_bridges path bridges st3)
                λ (adapters, st4). ok ((path, lo ∷ eth0 ∷ adapters), st4)

  abbrev pub with_parent : Option BridgeDefinition → List BridgeDefinition → List BridgeDefinition
  with_parent none bridges = bridges
  with_parent (some parent_bridge) bridges = parent_bridge ∷ bridges

  -- The loop over the children that are realized.
  unfoldable pub add_children : Topology Namespace → Topologies Namespace → Topology Namespace
  unfolding add_child
  add_children result no_trees = result
  add_children result (tree_cons child children) = add_children (add_child result child) children

  unfoldable mutual
    unfolding next_subnet create_network_namespace add_children

    pub realize_topology :
        Topology (Unit {0})
        → Option BridgeDefinition
        → Counters
        → Outcome E (Topology Namespace × Counters)
    realize_topology (topology data_ children) parent_bridge st =
        bind (realize_children children st) λ ((bridges, new_children), st').
          bind (create_network_namespace (with_parent parent_bridge bridges) st')
            λ ((path, adapters), st'').
              let namespace : Namespace = record {
                path = path;
                ip = ip_of parent_bridge;
                adapters = adapters;
              } in
              ok (add_children (new namespace) new_children, st'')

    -- The loop over the children: the bridges to them, and their networks.
    pub realize_children :
        Topologies (Unit {0})
        → Counters
        → Outcome E ((List BridgeDefinition × Topologies Namespace) × Counters)
    realize_children no_trees st = ok (([], no_trees), st)
    realize_children (tree_cons child children) st =
        let bridge_name = truncate 15 (system.uuid st.time) in
        let (subnet, st1) = next_subnet (tick st) in
        bind (realize_topology child (some (record { name = bridge_name; ip = subnet.ip2 })) st1)
          λ (realized, st2). bind (realize_children children st2) λ ((bridges, new_children), st3).
            ok (
              (
                record { name = bridge_name; ip = subnet.ip1 } ∷ bridges,
                tree_cons realized new_children,
              ),
              st3,
            )
