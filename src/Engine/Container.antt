-- ===== src/Engine/Container.antt =====
-- serpentine/src/engine/containerd/container_config.rs: the states of containers and services.
pub mod Config
pub mod Layout
use serpentine.Prelude.{ℕ, List, Option}
use serpentine.Prelude.Text.{Text}

-- `healthcheck` is the command and its timeout.
pub record ServiceConfig : Type 0 where
  pub entrypoint : Text
  pub healthcheck : Text × ℕ

-- A service holds a container, whose configuration holds services by their host names.
mutual
  -- the snapshot and the configuration
  pub data ContainerState : Type 0 where
    container_state : Text → ContainerConfig → ContainerState

  -- the environment, the working directory, the user and the services
  pub data ContainerConfig : Type 0 where
    container_config : List (Text × Text) → Text → Option Text → Services → ContainerConfig

  pub data Services : Type 0 where
    btree_end : Services
    btree_entry : Text → ServiceState → Services → Services

  pub data ServiceState : Type 0 where
    service_state : ContainerState → ServiceConfig → ServiceState
