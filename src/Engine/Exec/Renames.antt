-- ===== src/Engine/Exec/Renames.antt =====
-- exec.rs: the state that a command leaves, written without running anything.
pub mod Restored
pub mod Starts
pub mod Ends
use serpentine.Prelude.{ℕ, ◌≡◌, refl, ap, subst, Option, List}
use serpentine.Prelude.Text.{Text}
use serpentine.Internal.Network.{less}
use serpentine.Engine.Container.{
  ContainerState, container_state, ContainerConfig, container_config, Services, btree_end,
  btree_entry, ServiceConfig, ServiceState, service_state,
}
use serpentine.Engine.Container.Config.{cmp_str}
use serpentine.Engine.Container.Layout.{ContainerLike, container, service}
use serpentine.Engine.Exec.{
  ExecError, external, command_failed, non_utf8_capture, user_not_found, unhealthy, reader_panicked,
  internal,
}
use serpentine.Engine.Exec.Stopping.{child_name}

-- The snapshots are named, those of a service behind its host name; all else is as it was.
abbrev mutual
  pub renamed : Text → ContainerState → ContainerState
  renamed name (container_state snapshot (container_config env working_dir user services)) =
      container_state name (container_config env working_dir user (renamed_all name services))

  pub renamed_service : Text → ServiceState → ServiceState
  renamed_service name (service_state state config) = service_state (renamed name state) config

  pub renamed_all : Text → Services → Services
  renamed_all name btree_end = btree_end
  renamed_all name (btree_entry hostname state services) =
      btree_entry hostname (renamed_service (child_name name hostname) state)
        (renamed_all name services)

abbrev pub renamed_like : Text → ContainerLike → ContainerLike
renamed_like name (container state) = container (renamed name state)
renamed_like name (service state) = service (renamed_service name state)

-- The keys of a BTreeMap are in order, at each depth.
abbrev pub AllAbove : Text → Services → Type 0
AllAbove hostname btree_end = Unit
AllAbove hostname (btree_entry k state services) =
    (cmp_str hostname k ≡ less) × AllAbove hostname services

abbrev mutual
  pub IsOrdered : ContainerState → Type 0
  IsOrdered (container_state snapshot (container_config env working_dir user services)) =
      AreOrdered services

  pub AreOrdered : Services → Type 0
  AreOrdered btree_end = Unit
  AreOrdered (btree_entry hostname state services) =
      AllAbove hostname services × (IsOrderedService state × AreOrdered services)

  pub IsOrderedService : ServiceState → Type 0
  IsOrderedService (service_state state config) = IsOrdered state

abbrev pub IsOrderedLike : ContainerLike → Type 0
IsOrderedLike (container state) = IsOrdered state
IsOrderedLike (service state) = IsOrderedService state

-- Not one of the errors that mean that the tree of containers was wrong.
abbrev pub IsExpected : {E : Type 0} → ExecError E → Type 0
IsExpected (internal _) = ⊥
IsExpected _ = Unit
