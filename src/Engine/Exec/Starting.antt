-- ===== src/Engine/Exec/Starting.antt =====
-- exec.rs: a command and the services around it. A container's place in the tree stands for the
-- moment of its calls: `calls` may answer anything at each place, so the containers that are started
-- at once need no order. Of several errors the first in the tree is returned. Poisoned locks, the
-- limit on commands at once and the list of dangling resources are not modelled.
use serpentine.Prelude.{ℕ, suc, List, [], ◌∷◌, nat_eq}
use serpentine.Prelude.Text.{Text}
use serpentine.Prelude.Outcome.{Outcome, ok, bind}
use serpentine.Internal.Network.{Namespace}
use serpentine.Internal.Network.{
  Topology, Topologies, topology, no_trees, tree_cons, get_data, with_children,
}
use serpentine.Engine.Container.{container_state, service_state}
use serpentine.Engine.Container.Config.{get_service_config}
use serpentine.Engine.Container.Layout.{
  ContainerLike, container, service, deref, ContainerTopologyNode, get_hostname, get_cmd,
}
use serpentine.Engine.Exec.{
  ExecError, Process, Calls, call, create_container, wait_for_command_success,
}

-- A handle carries the answers to its container.
pub record ContainerHandle (E M : Type 0) : Type 0 where
  pub id : Text
  pub snapshot : Text
  pub node : ContainerTopologyNode
  pub calls : Calls E M

abbrev snapshot_of : ContainerLike → Text
snapshot_of (container (container_state snapshot config)) = snapshot
snapshot_of (service (service_state (container_state snapshot config) service_config)) = snapshot

-- The host names and addresses of a container's services.
unfoldable pub hosts_of : Topologies (ContainerTopologyNode × Namespace) → List (Text × ℕ)
hosts_of no_trees = []
hosts_of (tree_cons child children) =
    let (node, namespace) = get_data child in (get_hostname node, namespace.ip) ∷ hosts_of children

module _ {E M : Type 0} (show_ip : ℕ → Text) (calls : List ℕ → Calls E M) where
  abbrev pub wait_for_service :
      Calls E M → ContainerLike → Text → Process → Outcome (ExecError E) (Unit {0})
  wait_for_service answers (container state) id process = ok tt
  wait_for_service answers (service state) id process =
      wait_for_command_success answers id process (get_service_config state).healthcheck.0

  -- One container, its services running.
  unfoldable pub start_container :
      List ℕ
      → ContainerTopologyNode
      → Namespace
      → List (Text × ℕ)
      → Outcome (ExecError E) (ContainerHandle E M)
  unfolding create_container wait_for_command_success
  start_container place node network_namespace hosts =
      let answers = calls place in
      bind (call (answers.prepare answers.mutable_snapshot (snapshot_of node.state))) λ mounts.
        bind
          (create_container answers show_ip (deref node.state) (get_cmd node) network_namespace.path
            hosts mounts)
          λ (id, process). bind (call answers.stdout_pipe) λ stdout_path.
            bind (call answers.stderr_pipe) λ stderr_path.
              bind (call (answers.create_task id mounts stdout_path stderr_path)) λ _.
                bind (call (answers.start_task id)) λ _.
                  bind (wait_for_service answers node.state id process) λ _. ok (record {
                    id = id;
                    snapshot = answers.mutable_snapshot;
                    node = node;
                    calls = answers;
                  })

  unfoldable mutual
    unfolding hosts_of start_container

    pub spinup_topology :
        List ℕ
        → Topology (ContainerTopologyNode × Namespace)
        → Outcome (ExecError E) (Topology (ContainerHandle E M))
    spinup_topology place (topology (node, network_namespace) children) =
        bind (spinup_all place 0 children) λ service_handles.
          bind (start_container place node network_namespace (hosts_of children))
            λ handle. ok (with_children handle service_handles)

    -- `try_join_all` over the children, from the one with the index given.
    pub spinup_all :
        List ℕ
        → ℕ
        → Topologies (ContainerTopologyNode × Namespace)
        → Outcome (ExecError E) (Topologies (ContainerHandle E M))
    spinup_all place index no_trees = ok no_trees
    spinup_all place index (tree_cons child children) =
        bind (spinup_topology (index ∷ place) child) λ handle.
          bind (spinup_all place (suc index) children) λ handles. ok (tree_cons handle handles)
