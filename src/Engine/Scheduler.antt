-- ===== src/Engine/Scheduler.antt =====
-- serpentine/src/engine/scheduler.rs: the evaluation of a graph by tasks, as steps on the cells that
-- hold the nodes' outputs. What a node's implementation does once its inputs are there is a
-- relation, which execute_raw of Engine/Nodes/Cached is a case of.
pub mod Values
pub mod Reference
pub mod Progress
pub mod Once
use serpentine.Prelude.{
  ℕ, ◌≡◌, Option, some, List, [], ◌∷◌, map, get_elem?, ◌⊎◌, inl, inr, ◌==◌, nat_eq, if◌then◌else◌,
}
use serpentine.Engine.DataModel.{Data, Node, NodeMetadata, Graph, set_producer}
use serpentine.Engine.Nodes.{NodeImpl, all, noop, literal, join, wrap}
use serpentine.Engine.Nodes.Inputs.{resolve_inputs}

-- The `OnceCell` of a node's output: not started, being computed by a task, or set.
pub data Cell (Result : Type 0) : Type 0 where
  empty running : Cell Result
  done : Result → Cell Result

-- The results of several nodes, in order.
pub data AllAt {Result : Type 0} (At : ℕ → Result → Type 0) : List ℕ → List Result → Type 0 where
  none_at : AllAt At [] []
  one_at :
      {i : ℕ} {is : List ℕ} {r : Result} {rs : List Result}
      → At i r
      → AllAt At is rs
      → AllAt At (i ∷ is) (r ∷ rs)

-- Every implementation but `All` gives up with the first input that fails.
abbrev pub IsFailFast : {P : Type 0} → NodeImpl P → Type 0
IsFailFast all = ⊥
IsFailFast noop = Unit
IsFailFast join = Unit
IsFailFast (literal d) = Unit
IsFailFast (wrap w) = Unit

abbrev pub start_cells : {Result : Type 0} → ℕ → Cell Result
start_cells i = empty

abbrev pub set : {Result : Type 0} → (ℕ → Cell Result) → ℕ → Cell Result → ℕ → Cell Result
set cells i c k = if k == i then c else cells k

-- `R` is the type of reports; `combined` is the report that `All` makes of several.
module _ {P R : Type 0} (graph : Graph) (nodes : List (NodeImpl P)) (combined : List R → R)
    (Runs : ℕ → NodeImpl P → List (Data P) → R ⊎ Data P → Type 0) where
  -- The value gets the place of its node.
  abbrev pub produced : NodeMetadata → R ⊎ Data P → R ⊎ Data P
  produced m (inl error) = inl error
  produced m (inr data_) = inr (set_producer m.location data_)

  -- `execute_node`: what a node may end with where `At` tells what other nodes ended with. Any of
  -- the phantom inputs or inputs that failed may be the first to do so.
  pub data Settles (At : ℕ → R ⊎ Data P → Type 0) : ℕ → R ⊎ Data P → Type 0 where
    phantom_failed :
        (k : ℕ) {i p : ℕ} {n : Node} {m : NodeMetadata} {error : R}
        → get_elem? graph i ≡ some (n, m)
        → get_elem? n.phantom_inputs k ≡ some p
        → At p (inl error)
        → Settles At i (inl error)
    input_failed :
        (k : ℕ) {i p : ℕ} {n : Node} {m : NodeMetadata} {impl : NodeImpl P}
        (phantoms : List (Data P)) {error : R}
        → get_elem? graph i ≡ some (n, m)
        → get_elem? nodes n.kind ≡ some impl
        → IsFailFast impl
        → AllAt At n.phantom_inputs (map inr phantoms)
        → get_elem? n.inputs k ≡ some p
        → At p (inl error)
        → Settles At i (inl error)
    inputs_failed :
        {i : ℕ} {n : Node} {m : NodeMetadata} (phantoms : List (Data P))
        {results : List (R ⊎ Data P)} {errors : List R}
        → get_elem? graph i ≡ some (n, m)
        → get_elem? nodes n.kind ≡ some all
        → AllAt At n.phantom_inputs (map inr phantoms)
        → AllAt At n.inputs results
        → resolve_inputs results ≡ inl errors
        → Settles At i (inl (combined errors))
    ran :
        {i : ℕ} {n : Node} {m : NodeMetadata} {impl : NodeImpl P} (phantoms inputs : List (Data P))
        {r : R ⊎ Data P}
        → get_elem? graph i ≡ some (n, m)
        → get_elem? nodes n.kind ≡ some impl
        → AllAt At n.phantom_inputs (map inr phantoms)
        → AllAt At n.inputs (map inr inputs)
        → Runs i impl inputs r
        → Settles At i (produced m r)

  abbrev pub Done : (ℕ → Cell (R ⊎ Data P)) → ℕ → R ⊎ Data P → Type 0
  Done cells i r = cells i ≡ done r

  -- Who awaits a node: the caller of the scheduler, or the task of a node that has it as a phantom
  -- input, or as an input once the phantom inputs are there.
  pub data Wanted (root : ℕ) (cells : ℕ → Cell (R ⊎ Data P)) : ℕ → Type 0 where
    by_caller : Wanted root cells root
    as_phantom :
        (k : ℕ) {i p : ℕ} {n : Node} {m : NodeMetadata}
        → cells i ≡ running
        → get_elem? graph i ≡ some (n, m)
        → get_elem? n.phantom_inputs k ≡ some p
        → Wanted root cells p
    as_input :
        (k : ℕ) {i p : ℕ} {n : Node} {m : NodeMetadata} (phantoms : List (Data P))
        → cells i ≡ running
        → get_elem? graph i ≡ some (n, m)
        → AllAt (Done cells) n.phantom_inputs (map inr phantoms)
        → get_elem? n.inputs k ≡ some p
        → Wanted root cells p

  -- A node that is awaited starts; a task ends; or, since some node has failed, what awaited a task
  -- is dropped, which aborts the task and leaves the cell as if it had not started.
  pub data Step (root : ℕ) (cells : ℕ → Cell (R ⊎ Data P)) : (ℕ → Cell (R ⊎ Data P)) → Type 0 where
    start : (i : ℕ) → cells i ≡ empty → Wanted root cells i → Step root cells (set cells i running)
    finish :
        (i : ℕ) (r : R ⊎ Data P)
        → cells i ≡ running
        → Settles (Done cells) i r
        → Step root cells (set cells i (done r))
    abort :
        (i j : ℕ) (error : R)
        → cells i ≡ running
        → cells j ≡ done (inl error)
        → Step root cells (set cells i empty)

  pub data Steps (root : ℕ) : (ℕ → Cell (R ⊎ Data P)) → (ℕ → Cell (R ⊎ Data P)) → Type 0 where
    stop : {cells : ℕ → Cell (R ⊎ Data P)} → Steps root cells cells
    step :
        {cells cells' cells'' : ℕ → Cell (R ⊎ Data P)}
        → Step root cells cells'
        → Steps root cells' cells''
        → Steps root cells cells''
