-- ===== src/Tests/Schedule.antt =====
-- A graph of a literal and a node that joins it with itself, run by tasks.
use serpentine.Prelude.{
  ℕ, zero, suc, ◌<◌, ◌≤◌, ◌≡◌, refl, sym, subst, ◌∙◌, All, List, [], ◌∷◌, some, get_elem?, ◌⊎◌, inl,
  inr, arith, nat_eq,
}
use serpentine.Prelude.Text.{Text, codes}
use serpentine.Prelude.Outcome.{Outcome, ok, err}
use serpentine.Engine.DataModel.{set_producer, Data, Node, NodeMetadata, Graph}
use serpentine.Engine.Nodes.{NodeImpl, ExecuteError, literal, join, execute}
use serpentine.Engine.Scheduler.{
  Cell, empty, running, done, start_cells, set, start, finish, Steps, step, stop, by_caller,
  as_phantom, ran, none_at, one_at,
}
use serpentine.Engine.Scheduler.Reference.{RunsTo, eval, Agrees, Steps-Agrees}
use serpentine.Engine.Scheduler.Progress.{Steps-done, set_other}
use serpentine.Engine.Scheduler.Once.{starts, NoneFailed, starts_le}
use serpentine.Snek.Span.{dummy}
use serpentine.Snek.Compiler.Denotation.{IsAcyclic}
use serpentine.Tests.Caching.{answers}

abbrev nodes : List (NodeImpl Unit)
nodes = literal (Data.string (codes "a")) ∷ join ∷ []

abbrev here : NodeMetadata
here = record { location = dummy; stack_trace = [] }

abbrev first : Node
first = record { kind = 0; inputs = []; phantom_inputs = [] }

abbrev second : Node
second = record { kind = 1; inputs = 0 ∷ 0 ∷ []; phantom_inputs = 0 ∷ [] }

abbrev graph : Graph
graph = (first, here) ∷ (second, here) ∷ []

abbrev Report : Type 0
Report = List (ExecuteError Text)

abbrev reported : Outcome (ExecuteError Text) (Data Unit) → Report ⊎ Data Unit
reported (ok d) = inr d
reported (err e) = inl (e ∷ [])
reported _ = inl []

abbrev combined : List Report → Report
combined [] = []
combined (r ∷ rs) = r

abbrev run : ℕ → NodeImpl Unit → List (Data Unit) → Report ⊎ Data Unit
run i impl inputs = reported (execute answers impl inputs)

abbrev Runs : ℕ → NodeImpl Unit → List (Data Unit) → Report ⊎ Data Unit → Type 0
Runs = RunsTo graph nodes combined run

graph-IsAcyclic : IsAcyclic graph
graph-IsAcyclic zero n m e =
    let p : first ≡ n = cc in
    subst (λ (n : Node). All (λ j. j < 0) n.inputs × All (λ j. j < 0) n.phantom_inputs) p (tt, tt)
graph-IsAcyclic (suc zero) n m e =
    let p : second ≡ n = cc in
    subst (λ (n : Node). All (λ j. j < 1) n.inputs × All (λ j. j < 1) n.phantom_inputs) p
      ((omega arith, (omega arith, tt)), (omega arith, tt))
graph-IsAcyclic (suc (suc i)) n m e = cc

graph_implemented :
    (i : ℕ) (n : Node) (m : NodeMetadata)
    → get_elem? graph i ≡ some (n, m)
    → (impl : NodeImpl Unit) × (get_elem? nodes n.kind ≡ some impl)
graph_implemented zero n m e =
    let p : first ≡ n = cc in
    subst (λ (n : Node). (impl : NodeImpl Unit) × (get_elem? nodes n.kind ≡ some impl)) p
      (literal (Data.string (codes "a")), refl)
graph_implemented (suc zero) n m e =
    let p : second ≡ n = cc in
    subst (λ (n : Node). (impl : NodeImpl Unit) × (get_elem? nodes n.kind ≡ some impl)) p
      (join, refl)
graph_implemented (suc (suc i)) n m e = cc

Steps-done_example :
    (after : ℕ → Cell (Report ⊎ Data Unit)) × (r : Report ⊎ Data Unit) × Steps graph nodes combined
      Runs 1 start_cells after
    × (after 1 ≡ done r)
Steps-done_example =
    Steps-done graph nodes combined Runs 1 graph-IsAcyclic graph_implemented
      (λ i impl ds. (reported (execute answers impl ds), refl)) start_cells (omega arith)

-- The literal alone.
abbrev value : Report ⊎ Data Unit
value = inr (Data.string (codes "a"))

abbrev after : ℕ → Cell (Report ⊎ Data Unit)
after = set (set start_cells 0 running) 0 (done value)

literal_run : Steps graph nodes combined Runs 0 start_cells after
unfolding execute set_producer
literal_run = step (start 0 refl by_caller) (
    step (finish 0 value refl (ran {m = here} [] [] {r = value} refl refl none_at none_at refl))
      stop)

literal_NoneFailed : NoneFailed graph nodes combined Runs 0 after
literal_NoneFailed zero error p = let q : done value ≡ done (inl error) = p in cc q
literal_NoneFailed (suc i) error p =
    let q : empty ≡ done (inl error) =
      sym (
        set_other (set start_cells 0 running) 0 (done value) (suc i) (λ r. omega arith)
        ∙ set_other start_cells 0 running (suc i) (λ r. omega arith))
      ∙ p in
    cc q

-- The node that joins starts first, and ends once the literal is there.
abbrev joining : ℕ → Cell (Report ⊎ Data Unit)
joining = set (set (set start_cells 1 running) 0 running) 0 (done value)

abbrev joined : Report ⊎ Data Unit
joined = inr (Data.string (codes "aa"))

join_run : Steps graph nodes combined Runs 1 start_cells joining
unfolding execute set_producer
join_run = step (start 1 refl by_caller) (
    step (start 0 refl (as_phantom 0 {i = 1} {n = second} {m = here} refl refl refl)) (
      step (finish 0 value refl (ran {m = here} [] [] {r = value} refl refl none_at none_at refl))
        stop))

join_end : Steps graph nodes combined Runs 1 joining (set joining 1 (done joined))
unfolding execute set_producer
join_end =
    step
      (finish 1 joined refl (
        ran {m = here} (Data.string (codes "a") ∷ [])
          (Data.string (codes "a") ∷ Data.string (codes "a") ∷ []) {r = joined} refl refl
          (one_at refl none_at) (one_at refl (one_at refl none_at)) refl))
      stop

Steps-Agrees_example :
    (set joining 1 (done joined) 0 ≡ done value) × Agrees graph nodes combined run 0 value
Steps-Agrees_example = Steps-Agrees graph nodes combined run 1 0 value join_run refl join_end

-- The evaluation of the node that joins.
eval_join : eval graph nodes combined run 2 1 ≡ some (Data.string (codes "aa"))
unfolding execute set_producer
eval_join = refl

starts_le_example : starts graph nodes combined Runs 0 0 literal_run ≤ 1
starts_le_example = starts_le graph nodes combined Runs 0 0 literal_run literal_NoneFailed
