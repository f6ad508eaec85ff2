-- ===== src/Engine/Exec/Renames/Ends.antt =====
-- exec.rs: what is left where the containers have ended.
use serpentine.Prelude.{
  ℕ, zero, suc, ◌⊎◌, inl, inr, Bool, true, false, ◌≡◌, refl, subst, Option, none, some, List,
  if◌then◌else◌,
}
use serpentine.Prelude.Text.{Text}
use serpentine.Prelude.Outcome.{ok, err, Total, returned, rejected, Total-bind}
use serpentine.Internal.Network.{Topology, Topologies, topology, no_trees, tree_cons}
use serpentine.Engine.Container.{
  Services, btree_end, container_state, container_config, ServiceState, service_state,
}
use serpentine.Engine.Container.Config.{insert_service}
use serpentine.Engine.Container.Layout.{
  ContainerLike, container, service, update_like, get_cmd, ContainerTopologyNode, service_node,
}
use serpentine.Engine.Container.Layout.Invariant.{Runs, RunsAll, services_of}
use serpentine.Engine.Exec.{command_failed, Calls, call, external}
use serpentine.Engine.Exec.Starting.{ContainerHandle}
use serpentine.Engine.Exec.Stopping.{
  stop_container, check_exit, committed, join_reader, child_hostname, expect_service, child_name,
  set_services, set_snapshot, text_of, is_service, spindown_topology, spindown_all,
}
use serpentine.Engine.Exec.Renames.{
  IsExpected, IsOrderedLike, AreOrdered, renamed_service, renamed_all, renamed_like,
}
use serpentine.Engine.Exec.Renames.Restored.{
  Parts, Parts-start, Parts-end, Parts-insert, Parts-IsOrdered,
}
use serpentine.Engine.Exec.Renames.Starts.{Ends, call-Ends, handle_node}

relabelled :
    (name : Text) (state : ContainerLike)
    → update_like (set_services (renamed_all name (services_of state))) (set_snapshot name state)
      ≡ renamed_like name state
relabelled name (container (container_state _ (container_config _ _ _ _))) = refl
relabelled name (service (service_state (container_state _ (container_config _ _ _ _)) _)) = refl

ordered_services : (state : ContainerLike) → IsOrderedLike state → AreOrdered (services_of state)
ordered_services (container (container_state _ (container_config _ _ _ _))) o = o
ordered_services (service (service_state (container_state _ (container_config _ _ _ _)) _)) o = o

left_by :
    (own node : ContainerTopologyNode) (name : Text) (services : Services)
    → own ≡ node
    → services ≡ renamed_all name (services_of node.state)
    → update_like (set_services services) (set_snapshot name own.state)
      ≡ renamed_like name node.state
left_by own node name services e p = rw (e, p) (relabelled name node.state)

module _ {E : Type 0} where
  join_reader-Ends :
      (strip : Text → Text) (lines : Option (List (Option Text)))
      → Ends {E = E} (join_reader strip lines)
  join_reader-Ends strip none = rejected tt
  join_reader-Ends strip (some lines) = returned tt

  check_exit-Ends :
      (node : ContainerTopologyNode) (exit_code : ℕ) (stdout : Text ⊎ Text)
      → Ends {E = E} (check_exit node exit_code stdout)
  unfolding check_exit
  check_exit-Ends node zero stdout = returned tt
  check_exit-Ends node (suc code) stdout = go (is_service node.state)
    where
      go :
          (b : Bool)
          → Ends {E = E}
              (if b then ok tt else err (command_failed (suc code) (get_cmd node) (text_of stdout)))
      go true = returned tt
      go false = rejected tt

  child_hostname-returned :
      (node : ContainerTopologyNode) (hostname : Text) (state : ServiceState)
      → node ≡ service_node hostname state
      → Total IsExpected (λ h. h ≡ hostname) (child_hostname {E = E} node.hostname)
  child_hostname-returned node hostname state e = rw e (returned refl)

  expect_service-returned :
      (like : ContainerLike) (state : ServiceState)
      → like ≡ service state
      → Total IsExpected (λ s. s ≡ state) (expect_service {E = E} like)
  expect_service-returned like state e = rw e (returned refl)

abbrev pub Leaves : Text → ContainerLike → ContainerLike × (Text ⊎ Text) → Type 0
Leaves name state (like, stdout) = like ≡ renamed_like name state

module _ {E M : Type 0} where
  stop_container-Ends : (answers : Calls E M) → Ends (stop_container answers)
  unfolding stop_container
  stop_container-Ends answers = Total-bind (call-Ends (answers.exit_in_time 2)) λ exit _. go exit
    where
      go :
          (exit : Option ℕ)
          → Ends (elim exit [ some exit_code ↦ ok exit_code | none ↦ call (answers.exit 9) ])
      go none = call-Ends (answers.exit 9)
      go (some exit_code) = returned tt

  committed-Ends : (answers : Calls E M) (a : E ⊎ Unit {0}) → Ends (committed answers a)
  committed-Ends answers (inr a) = returned tt
  committed-Ends answers (inl e) = go (answers.is_already_exists e)
    where
      go : (b : Bool) → Ends (if b then ok tt else err (external e))
      go true = returned tt
      go false = rejected tt

module _ {E M : Type 0} (strip : Text → Text) where
  mutual
    unfolding spindown_topology

    spindown-Renamed :
        (t : Topology (ContainerHandle E M)) (node : ContainerTopologyNode) (name : Text)
        → Runs handle_node node t
        → IsOrderedLike node.state
        → Total IsExpected (Leaves name node.state) (spindown_topology strip t name)
    spindown-Renamed (topology handle children) node name (e, h) o =
        Total-bind (stop_container-Ends handle.calls) λ exit_code _.
          Total-bind (join_reader-Ends strip handle.calls.output_lines) λ stdout _.
            Total-bind (check_exit-Ends handle.node exit_code stdout) λ _ _.
              Total-bind
                (spindown_all-renamed children name (services_of node.state) btree_end
                  (services_of node.state) h (Parts-start name (services_of node.state))
                  (ordered_services node.state o))
                λ services p.
                  Total-bind
                    (committed-Ends handle.calls (handle.calls.commit name handle.snapshot))
                    λ _ _. returned (left_by handle.node node name services e p)

    spindown_all-renamed :
        (ts : Topologies (ContainerHandle E M)) (name : Text) (m a r : Services)
        → RunsAll handle_node r ts
        → Parts name m a r
        → AreOrdered m
        → Total IsExpected
            (λ services. services ≡ renamed_all name m)
            (spindown_all strip ts name a)
    spindown_all-renamed no_trees name m a r e p o =
        returned (Parts-end name (subst (Parts name m a) e p))
    spindown_all-renamed (tree_cons (topology d cs) ts) name m a r (g, s, rest, (q, ((e, h), hs))) p
          o =
        Total-bind (child_hostname-returned d.node g s e) λ hostname same.
          Total-bind
            (spindown-Renamed (topology d cs) (service_node g s) (child_name name hostname) (e, h)
              (Parts-IsOrdered name p o q))
            λ (like, stdout) w.
              Total-bind
                (expect_service-returned like (renamed_service (child_name name hostname) s) w)
                λ state w'.
                  spindown_all-renamed ts name m (insert_service a hostname state) rest hs
                    (rw (w', same) (Parts-insert name p o q)) o

  -- Where the containers of a tree end, the state at its root is left renamed.
  pub spindown_topology-Leaves :
      (t : Topology (ContainerHandle E M)) (node : ContainerTopologyNode) (name : Text)
      → Runs handle_node node t
      → IsOrderedLike node.state
      → Total IsExpected (Leaves name node.state) (spindown_topology strip t name)
  spindown_topology-Leaves = spindown-Renamed
