-- ===== src/Engine/Container/Layout/Invariant.antt =====
-- container_config.rs: every service of a container has its own node below that of the container.
use serpentine.Prelude.{◌≡◌, refl}
use serpentine.Prelude.Text.{Text}
use serpentine.Internal.Network.{
  Topology, Topologies, topology, no_trees, tree_cons, Order, less, same, greater, cmp, goes_before,
  insert, sort, with_children, zip, zip_all, map_data,
}
use serpentine.Internal.Network.Sorted.{
  shape, shapes, IsSortedTree, AreSortedTrees, with_children-IsSortedTree,
}
use serpentine.Engine.Container.{
  ContainerState, container_state, ContainerConfig, container_config, Services, btree_end,
  btree_entry, ServiceState, service_state,
}
use serpentine.Engine.Container.Config.{get_config}
use serpentine.Engine.Container.Layout.{
  ContainerLike, deref, ContainerTopologyNode, root_node, service_node, service_topology,
  topologies, into_topology,
}

-- One of the services is taken out, and the others are left.
pub data Removes (hostname : Text) (state : ServiceState) : Services → Services → Type 0 where
  here : {rest : Services} → Removes hostname state (btree_entry hostname state rest) rest
  there :
      {h : Text} {s : ServiceState} {m rest : Services}
      → Removes hostname state m rest
      → Removes hostname state (btree_entry h s m) (btree_entry h s rest)

-- Two of them are taken out in either order.
Removes-swap :
    {g h : Text} {s t : ServiceState} {m m' m'' : Services}
    → Removes g s m m'
    → Removes h t m' m''
    → (n : Services) × (Removes h t m n × Removes g s n m'')
Removes-swap (here {rest}) r = (_, (there r, here))
Removes-swap (there {m = m} p) here = (m, (here, p))
Removes-swap (there p) (there q) = let (n, (q', p')) = Removes-swap p q in (_, (there q', there p'))

abbrev pub config_services : ContainerConfig → Services
config_services (container_config env working_dir user services) = services

abbrev pub services_of : ContainerLike → Services
services_of state = config_services (get_config (deref state))

module _ {T : Type 0} (node_of : T → ContainerTopologyNode) where
  -- The tree's root is the node, and its children are the node's services, each once, in any order.
  abbrev mutual
    pub Runs : ContainerTopologyNode → Topology T → Type 0
    Runs node (topology data_ children) =
        (node_of data_ ≡ node) × RunsAll (services_of node.state) children

    pub RunsAll : Services → Topologies T → Type 0
    RunsAll m no_trees = m ≡ btree_end
    RunsAll m (tree_cons t ts) =
        (hostname : Text) × (state : ServiceState) × (rest : Services) × (Removes hostname state m
            rest
          × (Runs (service_node hostname state) t × RunsAll rest ts))

  insert-RunsAll :
      (t : Topology T) (ts : Topologies T) (m : Services)
      → RunsAll m (tree_cons t ts)
      → RunsAll m (insert t ts)
  unfolding insert
  insert-RunsAll t no_trees m h = h
  insert-RunsAll t (tree_cons u us) m (g, s, rest, (r, (k, (g', s', rest', (r', (k', ks)))))) =
      let (n, (q, q')) = Removes-swap r r' in
      go (cmp t u) (g', s', n, (q, (k', insert-RunsAll t us n (g, s, rest', (q', (k, ks))))))
    where
      go :
          (o : Order)
          → RunsAll m (tree_cons u (insert t us))
          → RunsAll m (goes_before o (tree_cons t (tree_cons u us)) (tree_cons u (insert t us)))
      go less later = (g, s, rest, (r, (k, (g', s', rest', (r', (k', ks))))))
      go same later = (g, s, rest, (r, (k, (g', s', rest', (r', (k', ks))))))
      go greater later = later

  sort-RunsAll : (ts : Topologies T) (m : Services) → RunsAll m ts → RunsAll m (sort ts)
  unfolding sort
  sort-RunsAll no_trees m h = h
  sort-RunsAll (tree_cons t ts) m (g, s, rest, (r, (k, ks))) =
      insert-RunsAll t (sort ts) m (g, s, rest, (r, (k, sort-RunsAll ts rest ks)))

  pub with_children-Runs :
      (data_ : T) (ts : Topologies T) (node : ContainerTopologyNode)
      → node_of data_ ≡ node
      → RunsAll (services_of node.state) ts
      → Runs node (with_children data_ ts)
  unfolding with_children
  with_children-Runs data_ ts node e h = (e, sort-RunsAll ts (services_of node.state) h)

abbrev pub itself : ContainerTopologyNode → ContainerTopologyNode
itself node = node

mutual
  unfolding service_topology

  service_topology-Runs :
      (hostname : Text) (state : ServiceState)
      → Runs itself (service_node hostname state) (service_topology hostname state)
  service_topology-Runs hostname
        (service_state (container_state snapshot (container_config env dir user m)) config) =
      with_children-Runs itself _ (topologies m) _ refl (topologies-RunsAll m)

  topologies-RunsAll : (m : Services) → RunsAll itself m (topologies m)
  topologies-RunsAll btree_end = refl
  topologies-RunsAll (btree_entry hostname state m) =
      (hostname, state, m, (here, (service_topology-Runs hostname state, topologies-RunsAll m)))

-- The tree of a container has the container with its command at the root and below each node the
-- services attached to it, each once, with its host name.
pub into_topology-Runs :
    (state : ContainerState) (cmd : Text)
    → Runs itself (root_node state cmd) (into_topology state cmd)
unfolding into_topology
into_topology-Runs (container_state snapshot (container_config env dir user m)) cmd =
    with_children-Runs itself _ (topologies m) _ refl (topologies-RunsAll m)

mutual
  unfolding service_topology

  service_topology-IsSortedTree :
      (hostname : Text) (state : ServiceState) → IsSortedTree (service_topology hostname state)
  service_topology-IsSortedTree hostname
        (service_state (container_state snapshot (container_config env dir user m)) config) =
      with_children-IsSortedTree _ (topologies m) (topologies-AreSortedTrees m)

  topologies-AreSortedTrees : (m : Services) → AreSortedTrees (topologies m)
  topologies-AreSortedTrees btree_end = tt
  topologies-AreSortedTrees (btree_entry hostname state m) =
      (service_topology-IsSortedTree hostname state, topologies-AreSortedTrees m)

pub into_topology-IsSortedTree :
    (state : ContainerState) (cmd : Text) → IsSortedTree (into_topology state cmd)
unfolding into_topology
into_topology-IsSortedTree (container_state snapshot (container_config env dir user m)) cmd =
    with_children-IsSortedTree _ (topologies m) (topologies-AreSortedTrees m)

module _ {T U : Type 0} (node_of : T → ContainerTopologyNode) where
  abbrev pub of_first : T × U → ContainerTopologyNode
  of_first (a, b) = node_of a

  mutual
    unfolding zip map_data

    zip-Runs_of :
        (t : Topology T) (u : Topology U) (node : ContainerTopologyNode)
        → shape t ≡ shape u
        → Runs node_of node t
        → Runs of_first node (zip t u)
    zip-Runs_of (topology a cs) (topology b ds) node e (p, h) =
        (p, zip_all-RunsAll cs ds (services_of node.state) (cc) h)

    zip_all-RunsAll :
        (cs : Topologies T) (ds : Topologies U) (m : Services)
        → shapes cs ≡ shapes ds
        → RunsAll node_of m cs
        → RunsAll of_first m (zip_all cs ds)
    zip_all-RunsAll no_trees ds m e h = h
    zip_all-RunsAll (tree_cons c cs) no_trees m e h = absurd (cc)
    zip_all-RunsAll (tree_cons c cs) (tree_cons d ds) m e (g, s, rest, (r, (k, ks))) = (
      g,
      s,
      rest,
      (r, (zip-Runs_of c d (service_node g s) (cc) k, zip_all-RunsAll cs ds rest (cc) ks)),
    )

  -- Paired with a network of the same shape, no service loses its node.
  pub zip-Runs :
      (t : Topology T) (u : Topology U) (node : ContainerTopologyNode)
      → shape t ≡ shape u
      → Runs node_of node t
      → Runs of_first node (zip t u)
  zip-Runs = zip-Runs_of
