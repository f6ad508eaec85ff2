-- ===== src/Engine/Exec/Executes.antt =====
-- exec.rs: a command leaves its state renamed, and the networks in the pool fit their shapes.
use serpentine.Prelude.{
  ◌⊎◌, inl, inr, true, ◌≡◌, refl, sym, ap, ◌∙◌, subst, Option, none, some, List, [], ◌∷◌, ◌++◌, All,
  Bool-cases,
}
use serpentine.Prelude.Text.{Text}
use serpentine.Prelude.Outcome.{
  Outcome, ok, err, panic, out_of_fuel, Total, returned, rejected, Total-ok, Total-bind,
}
use serpentine.Internal.Network.{Namespace}
use serpentine.Internal.Network.{Topology, Topologies, topology, no_trees, tree_cons, eq, eq_all}
use serpentine.Internal.Network.Shapes.{both_true}
use serpentine.Internal.Network.Sorted.{shape, IsSortedTree, shape-IsSortedTree}
use serpentine.Engine.Container.{ContainerState}
use serpentine.Engine.Container.Layout.{ContainerLike, container, root_node, into_topology}
use serpentine.Engine.Container.Layout.Invariant.{
  itself, into_topology-Runs, into_topology-IsSortedTree, zip-Runs,
}
use serpentine.Sidecar.Networks.{Counters, System, realize_topology}
use serpentine.Sidecar.Networks.Shapes.{realize_topology-shape}
use serpentine.Engine.Exec.{ExecError, call}
use serpentine.Engine.Exec.Running.{
  FreeNetworks, pop_last, popped, behind, take_network, give_network, get_network, Client,
  expect_container, given_back, then_else, run_topology, run_on, exec_internal,
}
use serpentine.Engine.Exec.Renames.{renamed, IsOrdered, IsExpected}
use serpentine.Engine.Exec.Renames.Starts.{call-Ends, spinup_topology-Runs}
use serpentine.Engine.Exec.Renames.Ends.{Leaves, spindown_topology-Leaves}

mutual
  unfolding eq

  eq-same : (t u : Topology (Unit {0})) → eq t u ≡ true → t ≡ u
  eq-same (topology a cs) (topology b ds) e = ap (topology tt) (eq_all-same cs ds e)

  eq_all-same : (cs ds : Topologies (Unit {0})) → eq_all cs ds ≡ true → cs ≡ ds
  eq_all-same no_trees no_trees e = refl
  eq_all-same no_trees (tree_cons d ds) e = cc
  eq_all-same (tree_cons c cs) no_trees e = cc
  eq_all-same (tree_cons c cs) (tree_cons d ds) e =
      let (p, q) = both_true (eq c d) (eq_all cs ds) e in cc (eq-same c d p, eq_all-same cs ds q)

abbrev Fits : Topology (Unit {0}) → List (Topology Namespace) → Type 0
Fits key networks = All (λ (n : Topology Namespace). shape n ≡ key) networks

-- Every network in the pool has the shape that it is kept under.
abbrev pub AllFit : FreeNetworks → Type 0
AllFit pool = All (λ (x : Topology (Unit {0}) × List (Topology Namespace)). Fits x.0 x.1) pool

pop_last-Fits :
    (key : Topology (Unit {0})) (n : Topology Namespace) (networks : List (Topology Namespace))
    → Fits key (n ∷ networks)
    → (shape (pop_last n networks).0 ≡ key) × Fits key (pop_last n networks).1
pop_last-Fits key n [] h = (h.0, tt)
pop_last-Fits key n (m ∷ rest) h = let (p, q) = pop_last-Fits key m rest h.1 in (p, (h.0, q))

-- What is taken has the shape, and the others fit.
abbrev Taken : Topology (Unit {0}) → Option (Topology Namespace × FreeNetworks) → Type 0
Taken wanted none = Unit
Taken wanted (some (network, pool)) = (shape network ≡ wanted) × AllFit pool

popped-Taken :
    (key : Topology (Unit {0})) (networks : List (Topology Namespace)) (pool : FreeNetworks)
    → Fits key networks
    → AllFit pool
    → Taken key (popped key networks pool)
popped-Taken key [] pool h hs = tt
popped-Taken key (n ∷ networks) pool h hs =
    let (p, q) = pop_last-Fits key n networks h in (p, (q, hs))

behind-Taken :
    (wanted : Topology (Unit {0})) (entry : Topology (Unit {0}) × List (Topology Namespace))
    (taken : Option (Topology Namespace × FreeNetworks))
    → Fits entry.0 entry.1
    → Taken wanted taken
    → Taken wanted (behind entry taken)
behind-Taken wanted entry none h t = tt
behind-Taken wanted entry (some (network, pool)) h (p, hs) = (p, (h, hs))

take_network-Taken :
    (pool : FreeNetworks) (wanted : Topology (Unit {0}))
    → AllFit pool
    → Taken wanted (take_network pool wanted)
unfolding take_network
take_network-Taken [] wanted h = tt
take_network-Taken ((key, networks) ∷ pool) wanted (h, hs) = elim (Bool-cases (eq key wanted)) [
  | inl e ↦ rw e (
      subst (λ k. Taken k (popped key networks pool)) (eq-same key wanted e)
        (popped-Taken key networks pool h hs))
  | inr e ↦ rw e (
      behind-Taken wanted (key, networks) (take_network pool wanted) h
        (take_network-Taken pool wanted hs))
]

Fits-append :
    (key : Topology (Unit {0})) (networks : List (Topology Namespace))
    (network : Topology Namespace)
    → Fits key networks
    → shape network ≡ key
    → Fits key (networks ++ network ∷ [])
Fits-append key [] network h e = (e, tt)
Fits-append key (n ∷ networks) network h e = (h.0, Fits-append key networks network h.1 e)

give_network-AllFit :
    (pool : FreeNetworks) (key : Topology (Unit {0})) (network : Topology Namespace)
    → AllFit pool
    → shape network ≡ key
    → AllFit (give_network pool key network)
unfolding give_network
give_network-AllFit [] key network h e = ((e, tt), tt)
give_network-AllFit ((k, networks) ∷ pool) key network (h, hs) e = elim (Bool-cases (eq k key)) [
  | inl same ↦ rw same (Fits-append k networks network h (e ∙ sym (eq-same k key same)), hs)
  | inr other ↦ rw other (h, give_network-AllFit pool key network hs e)
]

expect_container-returned :
    {E : Type 0} (like : ContainerLike) (state : ContainerState)
    → like ≡ container state
    → Total IsExpected (λ s. s ≡ state) (expect_container {E = E} like)
expect_container-returned like state e = rw e (returned refl)

given_back-AllFit :
    {E A : Type 0} (r : Outcome E A) (pool : FreeNetworks) (key : Topology (Unit {0}))
    (network : Topology Namespace)
    → AllFit pool
    → shape network ≡ key
    → AllFit (given_back r pool key network)
given_back-AllFit (ok a) pool key network h e = give_network-AllFit pool key network h e
given_back-AllFit (err x) pool key network h e = h
given_back-AllFit panic pool key network h e = h
given_back-AllFit out_of_fuel pool key network h e = h

call-created :
    {E : Type 0} {wanted : Topology (Unit {0})} (answer : E ⊎ Topology Namespace)
    → ((network : Topology Namespace) → answer ≡ inr network → shape network ≡ wanted)
    → Total IsExpected (λ n. shape n ≡ wanted) (call answer)
unfolding call
call-created (inl e) h = rejected tt
call-created (inr network) h = returned (h network refl)

-- The state is renamed, and the networks that are left fit.
abbrev pub LeavesRenamed :
    {E : Type 0}
    → Text
    → ContainerState
    → Outcome (ExecError E) (ContainerState × (Text ⊎ Text)) × FreeNetworks
    → Type 0
LeavesRenamed name state (result, pool) =
    Total IsExpected (λ (x : ContainerState × (Text ⊎ Text)). x.0 ≡ renamed name state) result
    × AllFit pool

module _ {E M : Type 0} (client : Client E M) where
  run_topology-Leaves :
      (name : Text) (state : ContainerState) (cmd : Text) (network : Topology Namespace)
      → IsOrdered state
      → shape (into_topology state cmd) ≡ shape network
      → Total IsExpected
          (Leaves name (container state))
          (run_topology client name (into_topology state cmd) network)
  unfolding run_topology
  run_topology-Leaves name state cmd network o e =
      Total-bind
        (spinup_topology-Runs client.show_ip client.calls [] _ (root_node state cmd) (
          zip-Runs itself (into_topology state cmd) network (root_node state cmd) e
            (into_topology-Runs state cmd)))
        λ running runs.
          Total-bind (call-Ends client.root_exit)
            λ _ _. spindown_topology-Leaves client.strip running (root_node state cmd) name runs o

  run_on-LeavesRenamed :
      (name : Text) (state : ContainerState) (cmd : Text) (network : Topology Namespace)
      (pool : FreeNetworks)
      → IsOrdered state
      → AllFit pool
      → shape network ≡ shape (into_topology state cmd)
      → LeavesRenamed name state (run_on client name (into_topology state cmd) network pool)
  unfolding run_on
  run_on-LeavesRenamed name state cmd network pool o fit e = (
    Total-bind (run_topology-Leaves name state cmd network o (sym e)) λ (like, stdout) p.
        Total-bind (expect_container-returned like (renamed name state) p) λ result q. returned q,
    given_back-AllFit (run_topology client name (into_topology state cmd) network) pool
        (shape (into_topology state cmd)) network fit e,
  )

  -- A network of the shape wanted or an error of its surroundings, and a pool that fits.
  abbrev Got :
      Topology (Unit {0}) → Outcome (ExecError E) (Topology Namespace) × FreeNetworks → Type 0
  Got wanted (network, pool) = Total IsExpected (λ n. shape n ≡ wanted) network × AllFit pool

  get_network-Got :
      (pool : FreeNetworks) (wanted : Topology (Unit {0}))
      → AllFit pool
      → ((network : Topology Namespace)
          → client.create_network wanted ≡ inr network
          → shape network ≡ wanted)
      → Got wanted (get_network client.create_network pool wanted)
  unfolding get_network
  get_network-Got pool wanted fit created =
      go (take_network pool wanted) (take_network-Taken pool wanted fit)
    where
      go :
          (taken : Option (Topology Namespace × FreeNetworks))
          → Taken wanted taken
          → Got wanted (elim taken [
            | some (network, pool') ↦ (ok network, pool')
            | none ↦ (call (client.create_network wanted), pool)
          ])
      go (some (network, pool')) (p, hs) = (returned p, hs)
      go none h = (call-created (client.create_network wanted) created, fit)

  -- A command returns its state with the snapshots named, every attached service kept under its host
  -- name with its snapshot named behind that name, or fails with an error of a call, of the command or
  -- of a service, never with an error of the tree of containers; the pool keeps to its shapes.
  pub exec_internal-LeavesRenamed :
      (state : ContainerState) (cmd name : Text) (pool : FreeNetworks)
      → client.hash state cmd ≡ inr name
      → IsOrdered state
      → AllFit pool
      → ((wanted : Topology (Unit {0})) (network : Topology Namespace)
          → IsSortedTree wanted
          → client.create_network wanted ≡ inr network
          → shape network ≡ wanted)
      → LeavesRenamed name state (exec_internal client state cmd pool)
  unfolding exec_internal call
  exec_internal-LeavesRenamed state cmd name pool named o fit created = rw named (
      go (get_network client.create_network pool (shape (into_topology state cmd))) (
        get_network-Got pool (shape (into_topology state cmd)) fit
          (λ network. created (shape (into_topology state cmd)) network sorted)))
    where
      sorted : IsSortedTree (shape (into_topology state cmd))
      sorted = shape-IsSortedTree (into_topology state cmd) (into_topology-IsSortedTree state cmd)

      go :
          (r : Outcome (ExecError E) (Topology Namespace) × FreeNetworks)
          → Got (shape (into_topology state cmd)) r
          → LeavesRenamed name state (
              then_else r.0
                (λ network. run_on client name (into_topology state cmd) network r.1)
                r.1)
      go (ok network, pool') (returned p, fits) =
          run_on-LeavesRenamed name state cmd network pool' o fits p
      go (err e, pool') (rejected p, fits) = (rejected p, fits)
      go (panic, pool') (h, _) = elim h [ ]
      go (out_of_fuel, pool') (h, _) = elim h [ ]

  -- So too where the sidecar makes the networks, at whatever time it is asked for them: what the client
  -- is given is then of the shape that the command's containers need.
  pub exec_internal-realize_topology :
      {F : Type 0} (system : System F) (state : ContainerState) (cmd name : Text)
      (pool : FreeNetworks)
      → client.hash state cmd ≡ inr name
      → IsOrdered state
      → AllFit pool
      → ((wanted : Topology (Unit {0})) (network : Topology Namespace)
          → client.create_network wanted ≡ inr network
          → (st : Counters) × (st' : Counters) × (realize_topology system wanted none st
              ≡ ok (network, st')))
      → LeavesRenamed name state (exec_internal client state cmd pool)
  exec_internal-realize_topology system state cmd name pool named o fit made =
      exec_internal-LeavesRenamed state cmd name pool named o fit (λ wanted network sorted e.
        let (st, st', r) = made wanted network e in
        Total-ok (realize_topology-shape system wanted st sorted) r)
