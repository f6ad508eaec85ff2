-- ===== src/Engine/Container/Layout.antt =====
-- container_config.rs: a container with its services as a tree of nodes.
pub mod Invariant
use serpentine.Prelude.{Option, none, some}
use serpentine.Prelude.Text.{Text, codes}
use serpentine.Internal.Network.{Topology, Topologies, no_trees, tree_cons, with_children}
use serpentine.Engine.Container.{
  ContainerState, container_state, ContainerConfig, container_config, Services, btree_end,
  btree_entry, ServiceState, service_state,
}
use serpentine.Engine.Container.Config.{update_config}

pub data ContainerLike : Type 0 where
  container : ContainerState → ContainerLike
  service : ServiceState → ContainerLike

-- `Deref`
abbrev pub deref : ContainerLike → ContainerState
deref (ContainerLike.container state) = state
deref (ContainerLike.service (service_state state config)) = state

-- `ContainerLike::update_config`
abbrev pub update_like : (ContainerConfig → ContainerConfig) → ContainerLike → ContainerLike
update_like update (ContainerLike.container state) =
    ContainerLike.container (update_config update state)
update_like update (ContainerLike.service (service_state state config)) =
    ContainerLike.service (service_state (update_config update state) config)

pub record ContainerTopologyNode : Type 0 where
  pub state : ContainerLike
  pub hostname : Option Text
  pub cmd : Option Text

abbrev pub get_hostname : ContainerTopologyNode → Text
get_hostname node = elim node.hostname [ none ↦ codes "step" | some hostname ↦ hostname ]

-- `none` where the code asserts that this does not happen and goes on with a shell.
abbrev pub known_cmd : ContainerLike → Option Text → Option Text
known_cmd (ContainerLike.container state) (some cmd) = some cmd
known_cmd (ContainerLike.service (service_state state config)) none = some config.entrypoint
known_cmd _ _ = none

abbrev pub or_shell : Option Text → Text
or_shell none = codes "/bin/sh"
or_shell (some cmd) = cmd

abbrev pub get_cmd : ContainerTopologyNode → Text
get_cmd node = or_shell (known_cmd node.state node.cmd)

abbrev pub root_node : ContainerState → Text → ContainerTopologyNode
root_node state cmd = record {
  state = ContainerLike.container state;
  hostname = none;
  cmd = some cmd;
}

abbrev pub service_node : Text → ServiceState → ContainerTopologyNode
service_node hostname state = record {
  state = ContainerLike.service state;
  hostname = some hostname;
  cmd = none;
}

unfoldable mutual
  -- `ServiceState::into_topology`
  pub service_topology : Text → ServiceState → Topology ContainerTopologyNode
  service_topology hostname
        (service_state
          (container_state snapshot (container_config env working_dir user services))
          config) =
      with_children
        (service_node hostname (
          service_state (container_state snapshot (container_config env working_dir user services))
            config))
        (topologies services)

  -- The loop over the services.
  pub topologies : Services → Topologies ContainerTopologyNode
  topologies btree_end = no_trees
  topologies (btree_entry hostname state services) =
      tree_cons (service_topology hostname state) (topologies services)

-- `ContainerState::into_topology`
unfoldable pub into_topology : ContainerState → Text → Topology ContainerTopologyNode
unfolding topologies
into_topology (container_state snapshot (container_config env working_dir user services)) cmd =
    with_children
      (root_node (container_state snapshot (container_config env working_dir user services)) cmd)
      (topologies services)
