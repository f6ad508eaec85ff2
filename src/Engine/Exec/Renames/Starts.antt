-- ===== src/Engine/Exec/Renames/Starts.antt =====
-- exec.rs: the containers that are started are those of the tree.
use serpentine.Prelude.{
  ℕ, suc, zero, ◌⊎◌, inl, inr, Bool, true, false, ◌≡◌, refl, ◌∙◌, Option, none, some, List, [], ◌∷◌,
  if◌then◌else◌, ◌==◌, nat_eq,
}
use serpentine.Prelude.Text.{Text, codes}
use serpentine.Prelude.Outcome.{
  Outcome, ok, err, panic, out_of_fuel, Total, returned, rejected, Total-bind,
}
use serpentine.Internal.Network.{Namespace}
use serpentine.Internal.Network.{Topology, Topologies, topology, no_trees, tree_cons}
use serpentine.Engine.UserDb.{UserNotFound, parse_user, parse_passwd, parse_group}
use serpentine.Engine.Container.{Services, ContainerState, container_state, container_config}
use serpentine.Engine.Container.Layout.{
  ContainerLike, container, service, ContainerTopologyNode, service_node,
}
use serpentine.Engine.Container.Layout.Invariant.{
  Runs, RunsAll, services_of, with_children-Runs, of_first, itself,
}
use serpentine.Engine.Exec.{
  ExecError, unhealthy, exit_code_or_late, Process, Calls, call, or_user_not_found, user_and_home,
  construct_spec_user, create_container, healthcheck_run, retry, wait_for_command_success,
}
use serpentine.Engine.Exec.Starting.{
  ContainerHandle, wait_for_service, start_container, spinup_topology, spinup_all,
}
use serpentine.Engine.Exec.Renames.{IsExpected}
use serpentine.Engine.UserDb.Resolved.{resolve-IsResolved}

-- The run returns or fails with an error of its surroundings.
abbrev pub Ends : {E A : Type 0} → Outcome (ExecError E) A → Type 0
Ends r = Total IsExpected (λ _. Unit {0}) r

pub call-Ends : {E A : Type 0} (a : E ⊎ A) → Ends (call a)
unfolding call
call-Ends (inl e) = rejected tt
call-Ends (inr a) = returned tt

or_user_not_found-Ends :
    {E A : Type 0} {R : UserNotFound → Type 0} {P : A → Type 0} {r : Outcome UserNotFound A}
    → Total R P r
    → Ends {E = E} (or_user_not_found r)
or_user_not_found-Ends (returned p) = returned tt
or_user_not_found-Ends (rejected p) = rejected tt

module _ {E M : Type 0} (calls : Calls E M) where
  construct_spec_user-Ends :
      (mounts : M) (user : Text) → Ends (construct_spec_user calls mounts user)
  unfolding construct_spec_user
  construct_spec_user-Ends mounts user =
      Total-bind (call-Ends (calls.read_file mounts (codes "/etc/passwd"))) λ passwd _.
        Total-bind (call-Ends (calls.read_file mounts (codes "/etc/group"))) λ groups _.
          or_user_not_found-Ends
            (resolve-IsResolved (parse_user user) (parse_passwd passwd) (parse_group groups))

  user_and_home-Ends : (mounts : M) (user : Option Text) → Ends (user_and_home calls mounts user)
  user_and_home-Ends mounts none = returned tt
  user_and_home-Ends mounts (some user) =
      Total-bind {f = λ x. ok (some x.0, x.1)} (construct_spec_user-Ends mounts user)
        λ _ _. returned tt

  create_container-Ends :
      (show_ip : ℕ → Text) (state : ContainerState) (cmd namespace : Text) (hosts : List (Text × ℕ))
      (mounts : M)
      → Ends (create_container calls show_ip state cmd namespace hosts mounts)
  unfolding create_container
  create_container-Ends show_ip (container_state _ (container_config _ _ user _)) cmd namespace
        hosts mounts =
      Total-bind (user_and_home-Ends mounts user)
        λ _ _. Total-bind (call-Ends _) λ _ _. Total-bind (call-Ends _) λ _ _. returned tt

  healthcheck_run-Ends :
      (i : ℕ) (id : Text) (process : Process) (command : Text)
      → Ends (healthcheck_run calls i id process command)
  unfolding healthcheck_run
  healthcheck_run-Ends i id process command =
      let args = codes "/bin/sh" ∷ codes "-c" ∷ command ∷ [] in
      Total-bind (call-Ends (calls.attempt i id (record process { args = args })))
        λ exit _. go (exit_code_or_late calls exit == 0)
    where
      go : (b : Bool) → Ends {E = E} (if b then ok tt else err (unhealthy command))
      go true = returned tt
      go false = rejected tt

  retry-Ends :
      (run : ℕ → Outcome (ExecError E) (Unit {0}))
      → ((i : ℕ) → Ends (run i))
      → (n : ℕ) → Ends (retry calls run n)
  unfolding retry
  retry-Ends run h zero = h 0
  retry-Ends run h (suc n) = go (run (suc n)) (h (suc n)) (retry-Ends run h n)
    where
      go :
          (r : Outcome (ExecError E) (Unit {0}))
          → Ends r
          → Ends (retry calls run n)
          → Ends (elim r [
            | ok a ↦ ok a
            | err e ↦ retry calls run n
            | panic ↦ panic
            | out_of_fuel ↦ out_of_fuel
          ])
      go (ok a) p rest = returned tt
      go (err e) p rest = rest
      go panic p rest = elim p [ ]
      go out_of_fuel p rest = elim p [ ]

  wait_for_command_success-Ends :
      (id : Text) (process : Process) (command : Text)
      → Ends (wait_for_command_success calls id process command)
  unfolding wait_for_command_success
  wait_for_command_success-Ends id process command =
      retry-Ends _ (λ i. healthcheck_run-Ends i id process command) calls.attempts

abbrev pub handle_node : {E M : Type 0} → ContainerHandle E M → ContainerTopologyNode
handle_node handle = handle.node

module _ {E M : Type 0} (show_ip : ℕ → Text) (calls : List ℕ → Calls E M) where
  wait_for_service-Ends :
      (answers : Calls E M) (state : ContainerLike) (id : Text) (process : Process)
      → Ends (wait_for_service show_ip calls answers state id process)
  wait_for_service-Ends answers (container state) id process = returned tt
  wait_for_service-Ends answers (service state) id process =
      wait_for_command_success-Ends answers id process _

  start_container-node :
      (place : List ℕ) (node : ContainerTopologyNode) (namespace : Namespace)
      (hosts : List (Text × ℕ))
      → Total IsExpected
          (λ (handle : ContainerHandle E M). handle.node ≡ node)
          (start_container show_ip calls place node namespace hosts)
  unfolding start_container
  start_container-node place node namespace hosts = Total-bind (call-Ends _) λ mounts _.
      Total-bind (create_container-Ends (calls place) show_ip _ _ _ _ _) λ _ _.
        Total-bind (call-Ends _) λ _ _. Total-bind (call-Ends _) λ _ _.
          Total-bind (call-Ends _) λ _ _. Total-bind (call-Ends _) λ _ _.
            Total-bind (wait_for_service-Ends (calls place) node.state _ _) λ _ _. returned refl

  mutual
    unfolding spinup_topology

    spinup-Runs :
        (place : List ℕ) (t : Topology (ContainerTopologyNode × Namespace))
        (node : ContainerTopologyNode)
        → Runs (of_first itself) node t
        → Total IsExpected (Runs handle_node node) (spinup_topology show_ip calls place t)
    spinup-Runs place (topology (own, namespace) children) node (e, h) =
        Total-bind (spinup_all-RunsAll place 0 children (services_of node.state) h) λ handles hs.
          Total-bind (start_container-node place own namespace _)
            λ handle p. returned (with_children-Runs handle_node handle handles node (p ∙ e) hs)

    spinup_all-RunsAll :
        (place : List ℕ) (index : ℕ) (ts : Topologies (ContainerTopologyNode × Namespace))
        (m : Services)
        → RunsAll (of_first itself) m ts
        → Total IsExpected (RunsAll handle_node m) (spinup_all show_ip calls place index ts)
    spinup_all-RunsAll place index no_trees m h = returned h
    spinup_all-RunsAll place index (tree_cons t ts) m (g, s, rest, (r, (k, ks))) =
        Total-bind (spinup-Runs (index ∷ place) t (service_node g s) k) λ handle run.
          Total-bind (spinup_all-RunsAll place (suc index) ts rest ks)
            λ handles runs. returned (g, s, rest, (r, (run, runs)))

  -- Where the containers start, there is one for every service in the tree.
  pub spinup_topology-Runs :
      (place : List ℕ) (t : Topology (ContainerTopologyNode × Namespace))
      (node : ContainerTopologyNode)
      → Runs (of_first itself) node t
      → Total IsExpected (Runs handle_node node) (spinup_topology show_ip calls place t)
  spinup_topology-Runs = spinup-Runs
