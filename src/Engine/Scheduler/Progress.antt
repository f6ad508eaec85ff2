-- ===== src/Engine/Scheduler/Progress.antt =====
-- scheduler.rs: the tasks of an acyclic graph come to an end.
use serpentine.Prelude.{
  ℕ, zero, suc, ◌<◌, ◌≤◌, ◌≡◌, refl, sym, ap, subst, ◌∙◌, List, [], ◌∷◌, map, some, get_elem?,
  length, All, ◌⊎◌, inl, inr, ◌==◌, nat_eq, nat_beq_iff, if◌then◌else◌, Bool, true, false, arith,
}
use serpentine.Engine.DataModel.{Data, Node, NodeMetadata, Graph}
use serpentine.Engine.Nodes.{NodeImpl, all, noop, literal, join, wrap}
use serpentine.Engine.Nodes.Inputs.{
  resolve_inputs, resolve_inputs-errors_or, errors_of, values_of, errors_or,
}
use serpentine.Engine.Scheduler.{
  IsFailFast, Cell, empty, running, done, AllAt, none_at, one_at, set, Settles, phantom_failed,
  input_failed, inputs_failed, ran, produced, Done, Wanted, by_caller, as_phantom, as_input, Step,
  start, finish, Steps, stop, step,
}
use serpentine.Engine.Scheduler.Reference.{AllAt-mono}
use serpentine.Snek.Compiler.Denotation.{IsAcyclic}

get_elem?_there :
    {A : Type 0} (xs : List A) (i : ℕ) → i < length xs → (a : A) × (get_elem? xs i ≡ some a)
get_elem?_there [] i lt = absurd (omega arith)
get_elem?_there (x ∷ xs) zero lt = (x, refl)
get_elem?_there (x ∷ xs) (suc i) lt = get_elem?_there xs i (omega arith)

AllAt-get_elem? :
    {Result : Type 0} {At : ℕ → Result → Type 0} {is : List ℕ} {rs : List Result} (k : ℕ)
    {r : Result}
    → AllAt At is rs
    → get_elem? rs k ≡ some r
    → (p : ℕ) × (get_elem? is k ≡ some p) × At p r
AllAt-get_elem? k none_at e = cc
AllAt-get_elem? {At = At} zero (one_at {i} a as') e =
    (i, refl, (let same : _ ≡ _ = cc in subst (At i) same a))
AllAt-get_elem? (suc k) (one_at a as') e = AllAt-get_elem? k as' e

pub set_same :
    {Result : Type 0} (cells : ℕ → Cell Result) (i : ℕ) (c : Cell Result) → set cells i c i ≡ c
set_same cells i c = rw ((nat_beq_iff i i).1 refl) refl

pub set_other :
    {Result : Type 0} (cells : ℕ → Cell Result) (i : ℕ) (c : Cell Result) (k : ℕ)
    → (k ≡ i → ⊥)
    → set cells i c k ≡ cells k
set_other cells i c k ne = go (k == i) (nat_beq_iff k i).0
  where
    go : (b : Bool) → (b ≡ true → k ≡ i) → (if b then c else cells k) ≡ cells k
    go true same = absurd (ne (same refl))
    go false same = refl

module _ {R D : Type 0} where
  -- All of the results are values, or one is an error.
  split_results :
      (rs : List (R ⊎ D))
      → ((ds : List D) × (rs ≡ map inr ds))
        ⊎ ((k : ℕ) × (error : R) × (get_elem? rs k ≡ some (inl error)))
  split_results [] = inl ([], refl)
  split_results (inl error ∷ rs) = inr (0, error, refl)
  split_results (inr d ∷ rs) = elim (split_results rs) [
    | inl (ds, e) ↦ inl (d ∷ ds, ap (λ rs. inr d ∷ rs) e)
    | inr (k, error, e) ↦ inr (suc k, error, e)
  ]

  failed-errors_or :
      (rs : List (R ⊎ D)) (k : ℕ) (error : R)
      → get_elem? rs k ≡ some (inl error)
      → (errors : List R) × (resolve_inputs rs ≡ inl errors)
  failed-errors_or rs k error e =
      let (errors, p) = some_error rs k error e (values_of rs) in
      (errors, resolve_inputs-errors_or rs ∙ p)
    where
      some_error :
          (rs : List (R ⊎ D)) (k : ℕ) (error : R)
          → get_elem? rs k ≡ some (inl error)
          → (values : List D) → (errors : List R) × (errors_or (errors_of rs) values ≡ inl errors)
      some_error [] k error e values = cc
      some_error (inl x ∷ rs) k error e values = (x ∷ errors_of rs, refl)
      some_error (inr d ∷ rs) zero error e values = cc
      some_error (inr d ∷ rs) (suc k) error e values = some_error rs k error e values

module _ {P R : Type 0} (graph : Graph) (nodes : List (NodeImpl P)) (combined : List R → R)
    (Runs : ℕ → NodeImpl P → List (Data P) → R ⊎ Data P → Type 0) (root : ℕ) where
  -- Steps that leave the cells from `bound` on as they are, and all outputs that are set.
  record Moves (bound : ℕ) (cells cells' : ℕ → Cell (R ⊎ Data P)) : Type 0 where
    steps : Steps graph nodes combined Runs root cells cells'
    above : (k : ℕ) → bound ≤ k → cells' k ≡ cells k
    kept : (k : ℕ) (r : R ⊎ Data P) → cells k ≡ done r → cells' k ≡ done r

  Steps-append :
      {a b c : ℕ → Cell (R ⊎ Data P)}
      → Steps graph nodes combined Runs root a b
      → Steps graph nodes combined Runs root b c
      → Steps graph nodes combined Runs root a c
  Steps-append stop t = t
  Steps-append (step s ss) t = step s (Steps-append ss t)

  Moves-refl : (bound : ℕ) (cells : ℕ → Cell (R ⊎ Data P)) → Moves bound cells cells
  Moves-refl bound cells = record { steps = stop; above = λ k le. refl; kept = λ k r e. e }

  Moves-trans :
      {bound bound' : ℕ} {a b c : ℕ → Cell (R ⊎ Data P)}
      → bound ≤ bound'
      → Moves bound a b
      → Moves bound' b c
      → Moves bound' a c
  Moves-trans le m m' = record {
    steps = Steps-append m.steps m'.steps;
    above = λ k le'. m'.above k le' ∙ m.above k (omega (arith, le, le'));
    kept = λ k r e. m'.kept k r (m.kept k r e);
  }

  Moves-weaken :
      {bound bound' : ℕ} {a b : ℕ → Cell (R ⊎ Data P)}
      → bound ≤ bound'
      → Moves bound a b
      → Moves bound' a b
  Moves-weaken le m = record {
    steps = m.steps;
    above = λ k le'. m.above k (omega (arith, le, le'));
    kept = m.kept;
  }

  Moves-set :
      (i : ℕ) (c : Cell (R ⊎ Data P)) (cells : ℕ → Cell (R ⊎ Data P))
      → ((r : R ⊎ Data P) → cells i ≡ done r → ⊥)
      → Step graph nodes combined Runs root cells (set cells i c)
      → Moves (suc i) cells (set cells i c)
  Moves-set i c cells unset s = record {
    steps = step s stop;
    above = λ k le. set_other cells i c k (λ p. omega (arith, le, p));
    kept = λ k r e. set_other cells i c k (λ p. unset r (ap cells (sym p) ∙ e)) ∙ e;
  }

  -- The node has an output after moves below the bound.
  record Settled (i : ℕ) (cells : ℕ → Cell (R ⊎ Data P)) : Type 0 where
    after : ℕ → Cell (R ⊎ Data P)
    result : R ⊎ Data P
    moves : Moves (suc i) cells after
    output : after i ≡ done result

  record AllSettled (bound : ℕ) (is : List ℕ) (cells : ℕ → Cell (R ⊎ Data P)) : Type 0 where
    after : ℕ → Cell (R ⊎ Data P)
    results : List (R ⊎ Data P)
    moves : Moves bound cells after
    outputs : AllAt (Done graph nodes combined Runs after) is results

  -- All nodes that the task of `i` awaits, one after another.
  await_each :
      (i : ℕ)
      → ((p : ℕ) (cells : ℕ → Cell (R ⊎ Data P))
          → p < i
          → Wanted graph nodes combined Runs root cells p
          → Settled p cells)
      → (is : List ℕ) (cells : ℕ → Cell (R ⊎ Data P)) → All (λ j. j < i) is
      → ((cells' : ℕ → Cell (R ⊎ Data P)) (k p : ℕ)
          → Moves i cells cells'
          → get_elem? is k ≡ some p
          → Wanted graph nodes combined Runs root cells' p)
      → AllSettled i is cells
  await_each i settle [] cells lt wanted = record {
    after = cells;
    results = [];
    moves = Moves-refl i cells;
    outputs = none_at;
  }
  await_each i settle (p ∷ is) cells lt wanted =
      let one = settle p cells lt.0 (wanted cells 0 p (Moves-refl i cells) refl) in
      let first = Moves-weaken {bound' = i} (omega (arith, lt.0)) one.moves in
      let rest =
        await_each i settle is one.after lt.1
          (λ cells' k q m e. wanted cells' (suc k) q (Moves-trans (omega arith) first m) e) in
      record {
        after = rest.after;
        results = one.result ∷ rest.results;
        moves = Moves-trans (omega arith) first rest.moves;
        outputs = one_at (rest.moves.kept p one.result one.output) rest.outputs;
      }

  finished :
      (i : ℕ) (r : R ⊎ Data P) (cells : ℕ → Cell (R ⊎ Data P))
      → cells i ≡ running
      → Settles graph nodes combined Runs (Done graph nodes combined Runs cells) i r
      → Settled i cells
  finished i r cells runs s = record {
    after = set cells i (done r);
    result = r;
    moves = Moves-set i (done r) cells (λ r' e. cc) (finish i r runs s);
    output = set_same cells i (done r);
  }

  Settled-after : {i : ℕ} {a b : ℕ → Cell (R ⊎ Data P)} → Moves i a b → Settled i b → Settled i a
  Settled-after m s = record {
    after = s.after;
    result = s.result;
    moves = Moves-trans (omega arith) m s.moves;
    output = s.output;
  }

fast_or_all : {P : Type 0} (impl : NodeImpl P) → IsFailFast impl ⊎ (impl ≡ all)
fast_or_all all = inr refl
fast_or_all noop = inl tt
fast_or_all join = inl tt
fast_or_all (literal d) = inl tt
fast_or_all (wrap w) = inl tt

module _ {P R : Type 0} (graph : Graph) (nodes : List (NodeImpl P)) (combined : List R → R)
    (Runs : ℕ → NodeImpl P → List (Data P) → R ⊎ Data P → Type 0) (root : ℕ)
    (acyclic : IsAcyclic graph)
    (implemented : (i : ℕ) (n : Node) (m : NodeMetadata)
      → get_elem? graph i ≡ some (n, m)
      → (impl : NodeImpl P) × (get_elem? nodes n.kind ≡ some impl))
    (finishes : (i : ℕ) (impl : NodeImpl P) (inputs : List (Data P))
      → (r : R ⊎ Data P) × Runs i impl inputs r) where
  -- Once the phantom inputs are there.
  end_inputs :
      (i : ℕ) (n : Node) (m : NodeMetadata)
      → get_elem? graph i ≡ some (n, m)
      → ((p : ℕ) (cells : ℕ → Cell (R ⊎ Data P))
          → p < i
          → Wanted graph nodes combined Runs root cells p
          → Settled graph nodes combined Runs root p cells)
      → (cells : ℕ → Cell (R ⊎ Data P)) → cells i ≡ running
      → (phantoms : List (Data P))
      → AllAt (Done graph nodes combined Runs cells) n.phantom_inputs (map inr phantoms)
      → Settled graph nodes combined Runs root i cells
  end_inputs i n m there settle cells runs phantoms ps =
      let is =
        await_each graph nodes combined Runs root i settle n.inputs cells (acyclic i n m there).0
          (λ cells' k p m' e.
            as_input k phantoms (m'.above i (omega arith) ∙ runs) there (AllAt-mono m'.kept ps)
              e) in
      let still : is.after i ≡ running = is.moves.above i (omega arith) ∙ runs in
      let ps' = AllAt-mono is.moves.kept ps in
      let (impl, impl_there) = implemented i n m there in
      Settled-after graph nodes combined Runs root is.moves (elim (split_results is.results) [
        | inl (vs, e) ↦
            let (r, ends) = finishes i impl vs in
            finished graph nodes combined Runs root i (produced graph nodes combined Runs m r)
              is.after still
              (ran phantoms vs there impl_there ps'
                (subst (λ rs. AllAt (Done graph nodes combined Runs is.after) n.inputs rs) e
                  is.outputs)
                ends)
        | inr (k, error, e) ↦
            let (p, at, d) = AllAt-get_elem? k is.outputs e in
            elim (fast_or_all impl) [
              | inl fast ↦
                  finished graph nodes combined Runs root i (inl error) is.after still
                    (input_failed k phantoms there impl_there fast ps' at d)
              | inr same ↦
                  let (errors, all_failed) = failed-errors_or is.results k error e in
                  finished graph nodes combined Runs root i (inl (combined errors)) is.after still (
                    inputs_failed phantoms there (impl_there ∙ ap some same) ps' is.outputs
                      all_failed)
            ]
      ])

  run_task :
      (i : ℕ) (n : Node) (m : NodeMetadata)
      → get_elem? graph i ≡ some (n, m)
      → ((p : ℕ) (cells : ℕ → Cell (R ⊎ Data P))
          → p < i
          → Wanted graph nodes combined Runs root cells p
          → Settled graph nodes combined Runs root p cells)
      → (cells : ℕ → Cell (R ⊎ Data P)) → cells i ≡ running
      → Settled graph nodes combined Runs root i cells
  run_task i n m there settle cells runs =
      let ps =
        await_each graph nodes combined Runs root i settle n.phantom_inputs cells
          (acyclic i n m there).1
          (λ cells' k p m' e. as_phantom k (m'.above i (omega arith) ∙ runs) there e) in
      let still : ps.after i ≡ running = ps.moves.above i (omega arith) ∙ runs in
      Settled-after graph nodes combined Runs root ps.moves (elim (split_results ps.results) [
        | inl (ds, e) ↦ end_inputs i n m there settle ps.after still ds (
            subst (λ rs. AllAt (Done graph nodes combined Runs ps.after) n.phantom_inputs rs) e
              ps.outputs)
        | inr (k, error, e) ↦
            let (p, at, d) = AllAt-get_elem? k ps.outputs e in
            finished graph nodes combined Runs root i (inl error) ps.after still
              (phantom_failed k there at d)
      ])

  settle :
      (fuel i : ℕ) (cells : ℕ → Cell (R ⊎ Data P))
      → i < fuel
      → i < length graph
      → Wanted graph nodes combined Runs root cells i
      → Settled graph nodes combined Runs root i cells
  settle zero i cells lt there wanted = absurd (omega arith)
  settle (suc fuel) i cells lt there wanted =
      let ((n, m), at) = get_elem?_there graph i there in
      go n m at
        (λ p cells' lt' w.
          settle fuel p cells' (omega (arith, lt, lt')) (omega (arith, there, lt')) w)
        (cells i) refl
    where
      go :
          (n : Node) (m : NodeMetadata)
          → get_elem? graph i ≡ some (n, m)
          → ((p : ℕ) (cells : ℕ → Cell (R ⊎ Data P))
              → p < i
              → Wanted graph nodes combined Runs root cells p
              → Settled graph nodes combined Runs root p cells)
          → (c : Cell (R ⊎ Data P)) → cells i ≡ c
          → Settled graph nodes combined Runs root i cells
      go n m at rec (done r) e = record {
        after = cells;
        result = r;
        moves = Moves-refl graph nodes combined Runs root (suc i) cells;
        output = e;
      }
      go n m at rec running e = run_task i n m at rec cells e
      go n m at rec empty e =
          let s = run_task i n m at rec (set cells i running) (set_same cells i running) in
          let started =
            Moves-set graph nodes combined Runs root i running cells (λ r e'. cc)
              (start i e wanted) in
          record {
            after = s.after;
            result = s.result;
            moves = Moves-trans graph nodes combined Runs root (omega arith) started s.moves;
            output = s.output;
          }

  -- Where every input comes before its node, every kind has an implementation and every execution
  -- ends, the tasks never block each other: whatever has been started or aborted so far, there are
  -- steps to the end, after which the output that the caller awaits is set.
  pub Steps-done :
      (cells : ℕ → Cell (R ⊎ Data P))
      → root < length graph
      → (after : ℕ → Cell (R ⊎ Data P)) × (r : R ⊎ Data P) × Steps graph nodes combined Runs root
          cells after
        × (after root ≡ done r)
  Steps-done cells there =
      let s = settle (suc root) root cells (omega arith) there by_caller in
      (s.after, s.result, s.moves.steps, s.output)
