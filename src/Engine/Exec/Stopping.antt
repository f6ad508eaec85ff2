-- ===== src/Engine/Exec/Stopping.antt =====
-- exec.rs: the end of a command and of the services around it.
use serpentine.Prelude.{
  ℕ, zero, suc, ◌⊎◌, inl, inr, Bool, true, false, Option, none, some, List, ◌∷◌, ◌++◌, nat_eq,
  if◌then◌else◌,
}
use serpentine.Prelude.Text.{Text}
use serpentine.Prelude.Outcome.{Outcome, ok, err, bind}
use serpentine.Internal.Network.{Topology, Topologies, topology, no_trees, tree_cons, get_data}
use serpentine.Engine.Container.{
  container_state, ContainerConfig, container_config, Services, btree_end, ServiceState,
  service_state,
}
use serpentine.Engine.Container.Config.{insert_service}
use serpentine.Engine.Container.Layout.{
  ContainerLike, container, service, update_like, ContainerTopologyNode, get_cmd,
}
use serpentine.Engine.Exec.{
  ExecError, external, command_failed, reader_panicked, internal, Calls, call, read_stdout,
}
use serpentine.Engine.Exec.Starting.{ContainerHandle}

abbrev pub set_services : Services → ContainerConfig → ContainerConfig
set_services new (container_config env working_dir user old) =
    container_config env working_dir user new

abbrev pub set_snapshot : Text → ContainerLike → ContainerLike
set_snapshot name (container (container_state snapshot config)) =
    container (container_state name config)
set_snapshot name (service (service_state (container_state snapshot config) service_config)) =
    service (service_state (container_state name config) service_config)

abbrev pub is_service : ContainerLike → Bool
is_service (container state) = false
is_service (service state) = true

abbrev pub text_of : Text ⊎ Text → Text
text_of (inl output) = output
text_of (inr output) = output

module _ {E M : Type 0} where
  -- SIGINT, and SIGKILL where the container does not exit in time.
  unfoldable pub stop_container : Calls E M → Outcome (ExecError E) ℕ
  stop_container answers =
      bind (call (answers.exit_in_time 2))
        λ exit. elim exit [ some exit_code ↦ ok exit_code | none ↦ call (answers.exit 9) ]

  abbrev pub committed : Calls E M → E ⊎ Unit {0} → Outcome (ExecError E) (Unit {0})
  committed answers (inr a) = ok tt
  committed answers (inl e) = if answers.is_already_exists e then ok tt else err (external e)

module _ {E : Type 0} where
  abbrev pub join_reader :
      (Text → Text) → Option (List (Option Text)) → Outcome (ExecError E) (Text ⊎ Text)
  join_reader strip none = err reader_panicked
  join_reader strip (some lines) = ok (read_stdout strip lines)

  -- A service may exit with any code.
  unfoldable pub check_exit :
      ContainerTopologyNode → ℕ → Text ⊎ Text → Outcome (ExecError E) (Unit {0})
  check_exit node zero stdout = ok tt
  check_exit node (suc code) stdout =
      if is_service node.state
      then ok tt
      else err (command_failed (suc code) (get_cmd node) (text_of stdout))

  abbrev pub child_hostname : Option Text → Outcome (ExecError E) Text
  child_hostname none = err (internal "Child container missing hostname")
  child_hostname (some hostname) = ok hostname

  abbrev pub expect_service : ContainerLike → Outcome (ExecError E) ServiceState
  expect_service (service state) = ok state
  expect_service (container state) = err (internal "Expected a service")

abbrev pub child_name : Text → Text → Text
child_name snapshot_name hostname = snapshot_name ++ b'/' ∷ hostname

module _ {E M : Type 0} (strip : Text → Text) where
  unfoldable mutual
    unfolding stop_container check_exit insert_service

    pub spindown_topology :
        Topology (ContainerHandle E M)
        → Text
        → Outcome (ExecError E) (ContainerLike × (Text ⊎ Text))
    spindown_topology (topology handle children) snapshot_name =
        bind (stop_container handle.calls) λ exit_code.
          bind (join_reader strip handle.calls.output_lines) λ stdout.
            bind (check_exit handle.node exit_code stdout) λ _.
              bind (spindown_all children snapshot_name btree_end) λ services.
                bind (committed handle.calls (handle.calls.commit snapshot_name handle.snapshot))
                  λ _. ok (
                    update_like (set_services services)
                        (set_snapshot snapshot_name handle.node.state),
                    stdout,
                  )

    -- The loop over the children, with the services so far.
    pub spindown_all :
        Topologies (ContainerHandle E M) → Text → Services → Outcome (ExecError E) Services
    spindown_all no_trees snapshot_name services = ok services
    spindown_all (tree_cons child children) snapshot_name services =
        bind (child_hostname (get_data child).node.hostname) λ hostname.
          bind (spindown_topology child (child_name snapshot_name hostname)) λ (like, _).
            bind (expect_service like)
              λ state. spindown_all children snapshot_name (insert_service services hostname state)
