-- ===== src/Tests/Exec.antt =====
-- A command beside two services, one of which has a service of its own.
use serpentine.Prelude.{
  ℕ, ◌⊎◌, inl, inr, true, ◌≡◌, refl, ap, subst, none, some, [], ◌∷◌, ◌==◌, nat_eq, list_eq,
  if◌then◌else◌,
}
use serpentine.Prelude.Text.{Text, codes}
use serpentine.Prelude.Outcome.{Outcome, ok, err, panic, out_of_fuel}
use serpentine.Sidecar.Networks.{Counters, System, realize_topology}
use serpentine.Internal.Network.{Namespace}
use serpentine.Internal.Network.{
  Topology, topology, no_trees, tree_cons, Topologies, map_data, map_all, with_children,
}
use serpentine.Internal.Network.Sorted.{shape, IsSortedTree}
use serpentine.Engine.Container.{
  Services, ContainerState, container_state, container_config, btree_end, btree_entry,
  service_state,
}
use serpentine.Engine.Container.Config.{
  cmp_str, default, insert_service, with_service, update_config, into_service,
}
use serpentine.Engine.Exec.{Calls, command_failed, call, read_stdout}
use serpentine.Engine.Exec.Running.{Client, exec_internal, exec, exec_get_output}
use serpentine.Engine.Exec.Executes.{
  LeavesRenamed, exec_internal-LeavesRenamed, exec_internal-realize_topology,
}
use serpentine.Engine.Exec.Renames.{renamed, IsOrdered}
use serpentine.Engine.Container.Layout.Invariant.{Runs, itself, into_topology-Runs}
use serpentine.Engine.Container.Layout.{root_node, into_topology}

abbrev plain : Text → Services → ContainerState
plain snapshot services = container_state snapshot (container_config [] (codes "/") none services)

-- The service b goes behind a, which is the deeper one.
abbrev state : ContainerState
state = plain (codes "base") (
    btree_entry (codes "a")
      (service_state
        (plain (codes "db") (
          btree_entry (codes "c") (service_state (plain (codes "log") btree_end) default)
            btree_end))
        default)
      (btree_entry (codes "b") (service_state (plain (codes "web") btree_end) default) btree_end))

-- A container whose command exits with the code given.
abbrev answers : ℕ → Calls Text (Unit {0})
answers code = record {
  mutable_snapshot = codes "s";
  prepare = λ key parent. inr tt;
  container_id = codes "c";
  read_file = λ mounts file. inl [];
  write_hosts = λ content. inr [];
  create = λ id snapshot spec. inr tt;
  stdout_pipe = inr [];
  stderr_pipe = inr [];
  create_task = λ id mounts stdout stderr. inr tt;
  start_task = λ id. inr tt;
  attempts = 3;
  attempt = λ i id process. inr (if i == 1 then some 0 else none);
  exit_in_time = λ signal. inr none;
  exit = λ signal. inr code;
  output_lines = some (some (codes "hello") ∷ some (codes "world") ∷ []);
  commit = λ name key. inl (codes "already exists");
  is_already_exists = λ e. true;
}

-- A network for the shape of the state, and for no other.
abbrev namespace : Namespace
namespace = record { path = codes "/run/ns"; ip = 7; adapters = [] }

abbrev create_network : Topology (Unit {0}) → Text ⊎ Topology Namespace
create_network wanted = inr (map_data (λ _. namespace) wanted)

-- The services exit with the code 2.
abbrev client : ℕ → Client Text (Unit {0})
client code = record {
  new_lease = inr tt;
  drop_lease = inr tt;
  hash = λ state cmd. inr (codes "h");
  create_network = create_network;
  root_exit = inr 0;
  calls = λ place. elim place [ [] ↦ answers code | i ∷ rest ↦ answers 2 ];
  show_ip = λ ip. codes "198.18.0.1";
  strip = λ line. line;
}

runs : (exec (client 0) state (codes "ls") []).0 ≡ ok (renamed (codes "h") state)
unfolding exec call with_children
runs = refl

prints : (exec_get_output (client 0) state (codes "ls") []).0 ≡ ok (codes "hello\nworld")
unfolding exec_get_output call with_children read_stdout
prints = refl

fails :
    (exec (client 3) state (codes "ls") []).0
    ≡ err (command_failed 3 (codes "ls") (codes "hello\nworld"))
unfolding exec call with_children read_stdout
fails = refl

attached :
    update_config
      (with_service (into_service (codes "run") (plain [] btree_end)) (codes "a"))
      (plain [] (btree_entry (codes "b") (service_state (plain [] btree_end) default) btree_end))
    ≡ plain [] (
        btree_entry
          (codes "a")
          (into_service (codes "run") (plain [] btree_end))
          (btree_entry (codes "b") (service_state (plain [] btree_end) default) btree_end))
unfolding insert_service
attached = refl

mutual
  unfolding map_data

  rebuilt : (t : Topology (Unit {0})) → map_data (λ _. tt) (map_data (λ _. namespace) t) ≡ t
  rebuilt (topology a cs) = ap (topology tt) (all_rebuilt cs)

  all_rebuilt : (cs : Topologies (Unit {0})) → map_all (λ _. tt) (map_all (λ _. namespace) cs) ≡ cs
  all_rebuilt no_trees = refl
  all_rebuilt (tree_cons c cs) = cc (rebuilt c, all_rebuilt cs)

shapes_fit :
    (wanted : Topology (Unit {0})) (network : Topology Namespace)
    → IsSortedTree wanted
    → create_network wanted ≡ inr network
    → shape network ≡ wanted
shapes_fit wanted network sorted e =
    let same : map_data (λ _. namespace) wanted ≡ network = cc in
    subst (λ n. shape n ≡ wanted) same (rebuilt wanted)

state-IsOrdered : IsOrdered state
unfolding cmp_str
state-IsOrdered = ((refl, tt), ((tt, (tt, tt)), (tt, (tt, tt))))

exec_internal-LeavesRenamed_example :
    LeavesRenamed (codes "h") state (exec_internal (client 0) state (codes "ls") [])
exec_internal-LeavesRenamed_example =
    exec_internal-LeavesRenamed (client 0) state (codes "ls") (codes "h") [] refl state-IsOrdered tt
      shapes_fit

into_topology-Runs_example :
    Runs itself (root_node state (codes "ls")) (into_topology state (codes "ls"))
into_topology-Runs_example = into_topology-Runs state (codes "ls")

-- A sidecar whose calls succeed.
abbrev system : System Text
system = record {
  uuid = λ time. codes "01234567-89ab-cdef";
  elsewhere = λ time. time;
  new_namespace = λ time. inr (codes "/run/netns/n");
  apply_network = λ time path adapter. inr tt;
}

abbrev at_start : Counters
at_start = record { subnets = 0; time = 0 }

abbrev sent : Outcome Text (Topology Namespace × Counters) → Text ⊎ Topology Namespace
sent (ok (network, st)) = inr network
sent (err e) = inl e
sent _ = inl []

made :
    (r : Outcome Text (Topology Namespace × Counters)) (network : Topology Namespace)
    → sent r ≡ inr network
    → (st' : Counters) × (r ≡ ok (network, st'))
made (ok (n, st)) network e = (st, cc)
made (err x) network e = absurd (cc)
made panic network e = absurd (cc)
made out_of_fuel network e = absurd (cc)

abbrev client_beside : Client Text (Unit {0})
client_beside = record (client 0) {
  create_network = λ wanted. sent (realize_topology system wanted none at_start);
}

exec_internal-realize_topology_example :
    LeavesRenamed (codes "h") state (exec_internal client_beside state (codes "ls") [])
exec_internal-realize_topology_example =
    exec_internal-realize_topology client_beside system state (codes "ls") (codes "h") [] refl
      state-IsOrdered tt
      (λ wanted network e.
        let (st, r) = made (realize_topology system wanted none at_start) network e in
        (at_start, st, r))
