-- ===== src/Engine/Scheduler/Reference.antt =====
-- scheduler.rs: the outputs against a recursive evaluation of the graph, with no cells and no tasks.
use serpentine.Prelude.{
  ℕ, zero, suc, ◌+◌, ◌≤◌, ◌≡◌, ◌≢◌, refl, sym, subst, List, get_elem?, Option, none, some, ◌⊎◌, inl,
  inr, ◌==◌, nat_eq, nat_beq_iff, if◌then◌else◌, Bool, true, false, arith,
}
use serpentine.Engine.DataModel.{Data, Node, NodeMetadata, Graph, set_producer}
use serpentine.Engine.Nodes.{NodeImpl}
use serpentine.Engine.Nodes.Inputs.{errors_of, values_of, errors_or, resolve_inputs-errors_or}
use serpentine.Engine.Scheduler.Values.{evals, evals_mono, evals-AllAt, evals-none, failed_inputs}
use serpentine.Engine.Scheduler.{
  Cell, empty, running, done, AllAt, none_at, one_at, start_cells, set, produced, Settles,
  phantom_failed, input_failed, inputs_failed, ran, Step, start, finish, abort, Steps, stop, step,
}

pub AllAt-mono :
    {Result : Type 0} {At At' : ℕ → Result → Type 0} {is : List ℕ} {rs : List Result}
    → ((i : ℕ) (r : Result) → At i r → At' i r)
    → AllAt At is rs
    → AllAt At' is rs
AllAt-mono f none_at = none_at
AllAt-mono f (one_at a as') = one_at (f _ _ a) (AllAt-mono f as')

Settles-mono :
    {P R : Type 0} (graph : Graph) (nodes : List (NodeImpl P)) (combined : List R → R)
    (Runs : ℕ → NodeImpl P → List (Data P) → R ⊎ Data P → Type 0) {At At' : ℕ → R ⊎ Data P → Type 0}
    {i : ℕ} {r : R ⊎ Data P}
    → ((i : ℕ) (r : R ⊎ Data P) → At i r → At' i r)
    → Settles graph nodes combined Runs At i r
    → Settles graph nodes combined Runs At' i r
Settles-mono graph nodes combined Runs f (phantom_failed k n p a) = phantom_failed k n p (f _ _ a)
Settles-mono graph nodes combined Runs f (input_failed k phantoms n impl fast ps p a) =
    input_failed k phantoms n impl fast (AllAt-mono f ps) p (f _ _ a)
Settles-mono graph nodes combined Runs f (inputs_failed phantoms n impl ps is e) =
    inputs_failed phantoms n impl (AllAt-mono f ps) (AllAt-mono f is) e
Settles-mono graph nodes combined Runs f (ran phantoms inputs n impl ps is a) =
    ran phantoms inputs n impl (AllAt-mono f ps) (AllAt-mono f is) a

module _ {P R : Type 0} (graph : Graph) (nodes : List (NodeImpl P)) (combined : List R → R)
    (run : ℕ → NodeImpl P → List (Data P) → R ⊎ Data P) where
  abbrev pub RunsTo : ℕ → NodeImpl P → List (Data P) → R ⊎ Data P → Type 0
  RunsTo i impl inputs r = run i impl inputs ≡ r

  abbrev value : NodeMetadata → R ⊎ Data P → Option (Data P)
  value m (inr d) = some (set_producer m.location d)
  value m (inl e) = none

  -- A node with a phantom input or an input that has no value has none.
  abbrev eval_node :
      ℕ
      → NodeMetadata
      → Option (List (Data P))
      → Option (List (Data P))
      → Option (NodeImpl P)
      → Option (Data P)
  eval_node i m (some phantoms) (some inputs) (some impl) = value m (run i impl inputs)
  eval_node i m _ _ _ = none

  abbrev eval_with : (ℕ → Option (Data P)) → ℕ → Option (Node × NodeMetadata) → Option (Data P)
  eval_with f i none = none
  eval_with f i (some (n, m)) =
      eval_node i m (evals f n.phantom_inputs) (evals f n.inputs) (get_elem? nodes n.kind)

  -- A node's value, computed after those of its phantom inputs and of its inputs, down to the given
  -- depth and each time anew.
  abbrev pub eval : ℕ → ℕ → Option (Data P)
  eval zero i = none
  eval (suc depth) i = eval_with (eval depth) i (get_elem? graph i)

  -- A value is the one that the evaluation gives; where there is an error, it gives no value.
  abbrev pub Agrees : ℕ → R ⊎ Data P → Type 0
  Agrees i (inr d) = (depth : ℕ) × (eval depth i ≡ some d)
  Agrees i (inl e) = (depth : ℕ) → eval depth i ≡ none

  eval_node_mono :
      (i : ℕ) (m : NodeMetadata) (ps qs is js : Option (List (Data P))) (o : Option (NodeImpl P))
      {d : Data P}
      → ((ds : List (Data P)) → ps ≡ some ds → qs ≡ some ds)
      → ((ds : List (Data P)) → is ≡ some ds → js ≡ some ds)
      → eval_node i m ps is o ≡ some d
      → eval_node i m qs js o ≡ some d
  eval_node_mono i m (some ps) qs (some is) js (some impl) f g e = rw (f ps refl, g is refl) e
  eval_node_mono i m (some ps) qs (some is) js none f g e = cc
  eval_node_mono i m (some ps) qs none js o f g e = cc
  eval_node_mono i m none qs is js o f g e = cc

  eval_with_mono :
      (f g : ℕ → Option (Data P)) (i : ℕ) (o : Option (Node × NodeMetadata)) {d : Data P}
      → ((i : ℕ) (d : Data P) → f i ≡ some d → g i ≡ some d)
      → eval_with f i o ≡ some d
      → eval_with g i o ≡ some d
  eval_with_mono f g i none h e = cc
  eval_with_mono f g i (some (n, m)) h e =
      eval_node_mono i m (evals f n.phantom_inputs) (evals g n.phantom_inputs) (evals f n.inputs)
        (evals g n.inputs) (get_elem? nodes n.kind) (λ ds p. evals_mono f g n.phantom_inputs h p)
        (λ ds p. evals_mono f g n.inputs h p) e

  eval_mono :
      (depth depth' : ℕ)
      → depth ≤ depth'
      → (i : ℕ) (d : Data P) → eval depth i ≡ some d
      → eval depth' i ≡ some d
  eval_mono zero depth' le i d e = cc
  eval_mono (suc depth) zero le i d e = absurd (omega arith)
  eval_mono (suc depth) (suc depth') le i d e =
      eval_with_mono (eval depth) (eval depth') i (get_elem? graph i)
        (λ j d p. eval_mono depth depth' (omega arith) j d p) e

  eval_node-inputs :
      (i : ℕ) (m : NodeMetadata) (ps : Option (List (Data P))) (o : Option (NodeImpl P))
      → eval_node i m ps none o ≡ none
  eval_node-inputs i m none o = refl
  eval_node-inputs i m (some ps) o = refl

  -- The inputs have the same values at every depth that gives them any.
  evals-same :
      (depth depth' : ℕ) (is : List ℕ) {ds ds' : List (Data P)}
      → evals (eval depth) is ≡ some ds
      → evals (eval depth') is ≡ some ds'
      → ds ≡ ds'
  evals-same depth depth' is e e' =
      let p =
        evals_mono (eval depth) (eval (depth + depth')) is
          (λ i d. eval_mono depth (depth + depth') (omega arith) i d) e in
      let q =
        evals_mono (eval depth') (eval (depth + depth')) is
          (λ i d. eval_mono depth' (depth + depth') (omega arith) i d) e' in
      cc (p, q)

  -- The same to one depth, for all the outputs that are set.
  abbrev AgreesAt : ℕ → ℕ → R ⊎ Data P → Type 0
  AgreesAt depth i (inr d) = eval depth i ≡ some d
  AgreesAt depth i (inl e) = (depth : ℕ) → eval depth i ≡ none

  produced-AgreesAt :
      (depth i : ℕ) {n : Node} {m : NodeMetadata} {impl : NodeImpl P}
      {phantoms inputs : List (Data P)} (r : R ⊎ Data P)
      → get_elem? graph i ≡ some (n, m)
      → get_elem? nodes n.kind ≡ some impl
      → evals (eval depth) n.phantom_inputs ≡ some phantoms
      → evals (eval depth) n.inputs ≡ some inputs
      → run i impl inputs ≡ r
      → AgreesAt (suc depth) i (produced graph nodes combined RunsTo m r)
  produced-AgreesAt depth i (inr d) e k ps is a = rw (e, ps, is, k, a) refl
  produced-AgreesAt depth i {n} {m} {impl} {phantoms} {inputs} (inl x) e k ps is a = none_at_all
    where
      go :
          (depth' : ℕ) (o : Option (List (Data P))) (os : Option (List (Data P)))
          → evals (eval depth') n.inputs ≡ os
          → eval_node i m o os (some impl) ≡ none
      go depth' none os p = refl
      go depth' (some qs) none p = refl
      go depth' (some qs) (some js) p =
          let same : inputs ≡ js = evals-same depth depth' n.inputs is p in rw (sym same, a) refl

      none_at_all : (depth : ℕ) → eval depth i ≡ none
      none_at_all zero = refl
      none_at_all (suc depth') =
          rw (e, k)
            (go depth' (evals (eval depth') n.phantom_inputs) (evals (eval depth') n.inputs) refl)

  Settles-AgreesAt :
      (depth i : ℕ) (r : R ⊎ Data P)
      → Settles graph nodes combined RunsTo (AgreesAt depth) i r
      → AgreesAt (suc depth) i r
  Settles-AgreesAt depth i _ (phantom_failed k {n} e p fails) = go
    where
      go : (depth : ℕ) → eval depth i ≡ none
      go zero = refl
      go (suc depth) = rw (e, evals-none (eval depth) n.phantom_inputs k p (fails depth)) refl
  Settles-AgreesAt depth i _ (input_failed k {n} {m} phantoms e impl fast ps p fails) = go
    where
      go : (depth : ℕ) → eval depth i ≡ none
      go zero = refl
      go (suc depth) =
          rw (e, evals-none (eval depth) n.inputs k p (fails depth))
            (eval_node-inputs i m (evals (eval depth) n.phantom_inputs) (get_elem? nodes n.kind))
  Settles-AgreesAt depth i _ (inputs_failed {n} {m} phantoms {results} e impl ps is failed) = go
    where
      fails : (depth : ℕ) → evals (eval depth) n.inputs ≡ none
      fails depth' = elim (failed_inputs (eval depth') (λ j x h. h depth') is) [
        | inl all_there ↦
            let both_ways = resolve_inputs-errors_or results in
            let there : errors_or (errors_of results) (values_of results)
                ≡ inr (values_of results) =
              rw all_there refl in
            cc (both_ways, there, failed)
        | inr none_there ↦ none_there
      ]

      go : (depth : ℕ) → eval depth i ≡ none
      go zero = refl
      go (suc depth) =
          rw (e, fails depth)
            (eval_node-inputs i m (evals (eval depth) n.phantom_inputs) (get_elem? nodes n.kind))
  Settles-AgreesAt depth i _ (ran {n} phantoms inputs {r} e impl ps is a) =
      produced-AgreesAt depth i r e impl (evals-AllAt (eval depth) phantoms (λ j d h. h) ps)
        (evals-AllAt (eval depth) inputs (λ j d h. h) is) a

  AgreesAt-suc : (depth i : ℕ) (r : R ⊎ Data P) → AgreesAt depth i r → AgreesAt (suc depth) i r
  AgreesAt-suc depth i (inr d) h = eval_mono depth (suc depth) (omega arith) i d h
  AgreesAt-suc depth i (inl e) h = h

  abbrev AreAgreed : ℕ → (ℕ → Cell (R ⊎ Data P)) → Type 0
  AreAgreed depth cells = (i : ℕ) (r : R ⊎ Data P) → cells i ≡ done r → AgreesAt depth i r

  set-AreAgreed :
      (depth i : ℕ) (c : Cell (R ⊎ Data P)) (cells : ℕ → Cell (R ⊎ Data P))
      → AreAgreed depth cells
      → ((r : R ⊎ Data P) → c ≡ done r → AgreesAt (suc depth) i r)
      → AreAgreed (suc depth) (set cells i c)
  set-AreAgreed depth i c cells h new k r e = go (k == i) (nat_beq_iff k i).0 e
    where
      go :
          (b : Bool)
          → (b ≡ true → k ≡ i)
          → (if b then c else cells k) ≡ done r
          → AgreesAt (suc depth) k r
      go true same e = subst (λ k. AgreesAt (suc depth) k r) (sym (same refl)) (new r e)
      go false same e = AgreesAt-suc depth k r (h k r e)

  Settles-AreAgreed :
      (depth i : ℕ) (r : R ⊎ Data P) {cells : ℕ → Cell (R ⊎ Data P)}
      → AreAgreed depth cells
      → Settles graph nodes combined RunsTo (λ j x. cells j ≡ done x) i r
      → AgreesAt (suc depth) i r
  Settles-AreAgreed depth i r h s =
      Settles-AgreesAt depth i r (Settles-mono graph nodes combined RunsTo h s)

  Step-AreAgreed :
      (root depth : ℕ) {cells cells' : ℕ → Cell (R ⊎ Data P)}
      → Step graph nodes combined RunsTo root cells cells'
      → AreAgreed depth cells
      → AreAgreed (suc depth) cells'
  Step-AreAgreed root depth {cells} (start i e w) h =
      set-AreAgreed depth i running cells h (λ r e. cc)
  Step-AreAgreed root depth {cells} (finish i r e s) h =
      set-AreAgreed depth i (done r) cells h (λ r' e'.
        let same : r ≡ r' = cc in
        subst (λ r. AgreesAt (suc depth) i r) same (Settles-AreAgreed depth i r h s))
  Step-AreAgreed root depth {cells} (abort i j error e f) h =
      set-AreAgreed depth i empty cells h (λ r e. cc)

  Steps-AreAgreed :
      (root depth : ℕ) {cells cells' : ℕ → Cell (R ⊎ Data P)}
      → Steps graph nodes combined RunsTo root cells cells'
      → AreAgreed depth cells
      → (depth' : ℕ) × AreAgreed depth' cells'
  Steps-AreAgreed root depth stop h = (depth, h)
  Steps-AreAgreed root depth (step s ss) h =
      Steps-AreAgreed root (suc depth) ss (Step-AreAgreed root depth s h)

  set-done :
      (i j : ℕ) (c : Cell (R ⊎ Data P)) (cells : ℕ → Cell (R ⊎ Data P)) (r : R ⊎ Data P)
      → cells i ≡ done r
      → cells j ≢ done r
      → set cells j c i ≡ done r
  set-done i j c cells r e other = go (i == j) (nat_beq_iff i j).0
    where
      go : (b : Bool) → (b ≡ true → i ≡ j) → (if b then c else cells i) ≡ done r
      go true same = absurd (other (subst (λ i. cells i ≡ done r) (same refl) e))
      go false same = e

  Step-done_kept :
      (root i : ℕ) (r : R ⊎ Data P) {cells cells' : ℕ → Cell (R ⊎ Data P)}
      → Step graph nodes combined RunsTo root cells cells'
      → cells i ≡ done r
      → cells' i ≡ done r
  Step-done_kept root i r {cells} (start j e w) h = set-done i j running cells r h (λ p. cc (e, p))
  Step-done_kept root i r {cells} (finish j x e s) h =
      set-done i j (done x) cells r h (λ p. cc (e, p))
  Step-done_kept root i r {cells} (abort j k error e f) h =
      set-done i j empty cells r h (λ p. cc (e, p))

  Steps-done_kept :
      (root i : ℕ) (r : R ⊎ Data P) {cells cells' : ℕ → Cell (R ⊎ Data P)}
      → Steps graph nodes combined RunsTo root cells cells'
      → cells i ≡ done r
      → cells' i ≡ done r
  Steps-done_kept root i r stop h = h
  Steps-done_kept root i r (step s ss) h = Steps-done_kept root i r ss (Step-done_kept root i r s h)

  Agrees-of : (depth i : ℕ) (r : R ⊎ Data P) → AgreesAt depth i r → Agrees i r
  Agrees-of depth i (inr d) h = (depth, h)
  Agrees-of depth i (inl e) h = h

  -- Where an implementation gives one result for its inputs: however the tasks are interleaved and
  -- aborted, an output that is set stays as it is, whatever steps follow, and agrees with the
  -- recursive evaluation: a value is the one that it gives, and for an error it gives no value.
  pub Steps-Agrees :
      (root : ℕ) {cells cells' : ℕ → Cell (R ⊎ Data P)} (i : ℕ) (r : R ⊎ Data P)
      → Steps graph nodes combined RunsTo root start_cells cells
      → cells i ≡ done r
      → Steps graph nodes combined RunsTo root cells cells'
      → (cells' i ≡ done r) × Agrees i r
  Steps-Agrees root i r ss e later =
      let (depth, h) = Steps-AreAgreed root 0 ss (λ i r e. cc) in
      (Steps-done_kept root i r later e, Agrees-of depth i r (h i r e))
