-- ===== src/Engine/Exec/Running.antt =====
-- exec.rs: a command from its state to the state that it leaves, and the networks it uses.
use serpentine.Prelude.{
  ℕ, ◌⊎◌, inl, inr, Option, none, some, List, [], ◌∷◌, ◌++◌, nat_eq, if◌then◌else◌,
}
use serpentine.Prelude.Text.{Text}
use serpentine.Prelude.Outcome.{Outcome, ok, err, panic, out_of_fuel, bind}
use serpentine.Internal.Network.{Namespace}
use serpentine.Internal.Network.{Topology, map_data, zip, eq}
use serpentine.Engine.Container.{ContainerState}
use serpentine.Engine.Container.Layout.{
  ContainerLike, container, service, ContainerTopologyNode, into_topology,
}
use serpentine.Engine.Exec.{ExecError, non_utf8_capture, internal, Calls, call}
use serpentine.Engine.Exec.Starting.{spinup_topology}
use serpentine.Engine.Exec.Stopping.{spindown_topology}

-- Networks that no command uses, by their shape.
abbrev pub FreeNetworks : Type 0
FreeNetworks = List (Topology (Unit {0}) × List (Topology Namespace))

abbrev pub pop_last :
    Topology Namespace → List (Topology Namespace) → Topology Namespace × List (Topology Namespace)
pop_last n [] = (n, [])
pop_last n (m ∷ rest) = let (last, others) = pop_last m rest in (last, n ∷ others)

abbrev pub popped :
    Topology (Unit {0})
    → List (Topology Namespace)
    → FreeNetworks
    → Option (Topology Namespace × FreeNetworks)
popped key [] pool = none
popped key (n ∷ networks) pool =
    let (last, others) = pop_last n networks in some (last, (key, others) ∷ pool)

abbrev pub behind :
    Topology (Unit {0}) × List (Topology Namespace)
    → Option (Topology Namespace × FreeNetworks)
    → Option (Topology Namespace × FreeNetworks)
behind entry none = none
behind entry (some (network, pool)) = some (network, entry ∷ pool)

-- `get_mut` and `pop`
unfoldable pub take_network :
    FreeNetworks → Topology (Unit {0}) → Option (Topology Namespace × FreeNetworks)
unfolding eq
take_network [] shape = none
take_network ((key, networks) ∷ pool) shape =
    let rest = take_network pool shape in
    if eq key shape then popped key networks pool else behind (key, networks) rest

-- `entry`, `or_default` and `push`
unfoldable pub give_network : FreeNetworks → Topology (Unit {0}) → Topology Namespace → FreeNetworks
unfolding eq
give_network [] shape network = (shape, network ∷ []) ∷ []
give_network ((key, networks) ∷ pool) shape network =
    let rest = give_network pool shape network in
    if eq key shape then (key, networks ++ network ∷ []) ∷ pool else (key, networks) ∷ rest

-- The network, and those that are left in the pool.
module _ {E : Type 0} (create_network : Topology (Unit {0}) → E ⊎ Topology Namespace) where
  unfoldable pub get_network :
      FreeNetworks → Topology (Unit {0}) → Outcome (ExecError E) (Topology Namespace) × FreeNetworks
  unfolding take_network
  get_network pool wanted = elim (take_network pool wanted) [
    | some (network, pool') ↦ (ok network, pool')
    | none ↦ (call (create_network wanted), pool)
  ]

-- What the calls around the containers answer: `hash` names the result's snapshot, `root_exit` is
-- the exit code of the command, as long as it takes.
pub record Client (E M : Type 0) : Type 0 where
  pub new_lease : E ⊎ Unit {0}
  pub drop_lease : E ⊎ Unit {0}
  pub hash : ContainerState → Text → E ⊎ Text
  pub create_network : Topology (Unit {0}) → E ⊎ Topology Namespace
  pub root_exit : E ⊎ ℕ
  pub calls : List ℕ → Calls E M
  pub show_ip : ℕ → Text
  pub strip : Text → Text

abbrev pub expect_container : {E : Type 0} → ContainerLike → Outcome (ExecError E) ContainerState
expect_container (container state) = ok state
expect_container (service state) =
    err (internal "Invalid container topology: root node was a service")

abbrev pub given_back :
    {E A : Type 0}
    → Outcome E A
    → FreeNetworks
    → Topology (Unit {0})
    → Topology Namespace
    → FreeNetworks
given_back (ok a) pool abstract_topology network = give_network pool abstract_topology network
given_back _ pool abstract_topology network = pool

abbrev pub then_else :
    {E A B C : Type 0} → Outcome E A → (A → Outcome E B × C) → C → Outcome E B × C
then_else (ok a) next c = next a
then_else (err e) next c = (err e, c)
then_else panic next c = (panic, c)
then_else out_of_fuel next c = (out_of_fuel, c)

module _ {E M : Type 0} (client : Client E M) where
  -- From the start of the containers to their end.
  unfoldable pub run_topology :
      Text
      → Topology ContainerTopologyNode
      → Topology Namespace
      → Outcome (ExecError E) (ContainerLike × (Text ⊎ Text))
  unfolding zip spinup_topology spindown_topology
  run_topology snapshot_name container_topology network =
      bind (spinup_topology client.show_ip client.calls [] (zip container_topology network))
        λ running.
          bind (call client.root_exit) λ _. spindown_topology client.strip running snapshot_name

  -- A network is given back where the containers have ended, and left to the shutdown after an error.
  unfoldable pub run_on :
      Text
      → Topology ContainerTopologyNode
      → Topology Namespace
      → FreeNetworks
      → Outcome (ExecError E) (ContainerState × (Text ⊎ Text)) × FreeNetworks
  unfolding run_topology give_network
  run_on snapshot_name container_topology network pool =
      let ended = run_topology snapshot_name container_topology network in
      (
        bind ended λ (like, stdout). bind (expect_container like) λ result. ok (result, stdout),
        given_back ended pool (map_data (λ _. tt) container_topology) network,
      )

  unfoldable pub exec_internal :
      ContainerState
      → Text
      → FreeNetworks
      → Outcome (ExecError E) (ContainerState × (Text ⊎ Text)) × FreeNetworks
  unfolding into_topology map_data get_network run_on
  exec_internal state cmd pool =
      then_else (call (client.hash state cmd))
        (λ snapshot_name.
          let container_topology = into_topology state cmd in
          let (network, pool') =
            get_network client.create_network pool (map_data (λ _. tt) container_topology) in
          then_else network (λ network'. run_on snapshot_name container_topology network' pool')
            pool')
        pool

  unfoldable pub exec :
      ContainerState → Text → FreeNetworks → Outcome (ExecError E) ContainerState × FreeNetworks
  unfolding exec_internal
  exec state cmd pool =
      then_else (call client.new_lease)
        (λ _.
          let (result, pool') = exec_internal state cmd pool in
          (bind result λ (state', stdout). bind (call client.drop_lease) λ _. ok state', pool'))
        pool

  abbrev captured : Text ⊎ Text → Outcome (ExecError E) Text
  captured (inl output) = ok output
  captured (inr output) = err (non_utf8_capture output)

  unfoldable pub exec_get_output :
      ContainerState → Text → FreeNetworks → Outcome (ExecError E) Text × FreeNetworks
  unfolding exec_internal
  exec_get_output state cmd pool =
      then_else (call client.new_lease)
        (λ _.
          let (result, pool') = exec_internal state cmd pool in
          (
            bind result λ (state', stdout).
                bind (captured stdout) λ output. bind (call client.drop_lease) λ _. ok output,
            pool',
          ))
        pool
