-- ===== src/Engine/Scheduler/Values.antt =====
-- scheduler.rs: the values of several nodes, for the evaluation in Reference.
use serpentine.Prelude.{
  ℕ, zero, suc, ◌≡◌, refl, subst, List, [], ◌∷◌, map, get_elem?, Option, none, some, ◌⊎◌, inl, inr,
}
use serpentine.Engine.Nodes.Inputs.{errors_of}
use serpentine.Engine.Scheduler.{AllAt, none_at, one_at}

abbrev both : {D : Type 0} → Option D → Option (List D) → Option (List D)
both (some d) (some ds) = some (d ∷ ds)
both (some d) none = none
both none ds = none

-- The values of several nodes, if all of them have one.
abbrev pub evals : {D : Type 0} → (ℕ → Option D) → List ℕ → Option (List D)
evals f [] = some []
evals f (i ∷ is) = both (f i) (evals f is)

both-none : {D : Type 0} (o : Option D) → both o none ≡ none
both-none none = refl
both-none (some d) = refl

both_mono :
    {D : Type 0} (o o' : Option D) (os os' : Option (List D)) {ds : List D}
    → ((d : D) → o ≡ some d → o' ≡ some d)
    → ((ds : List D) → os ≡ some ds → os' ≡ some ds)
    → both o os ≡ some ds
    → both o' os' ≡ some ds
both_mono (some d) o' (some ds) os' f g e = rw (f d refl, g ds refl) e
both_mono (some d) o' none os' f g e = cc
both_mono none o' os os' f g e = cc

pub evals_mono :
    {D : Type 0} (f g : ℕ → Option D) (is : List ℕ) {ds : List D}
    → ((i : ℕ) (d : D) → f i ≡ some d → g i ≡ some d)
    → evals f is ≡ some ds
    → evals g is ≡ some ds
evals_mono f g [] m e = e
evals_mono f g (i ∷ is) m e =
    both_mono (f i) (g i) (evals f is) (evals g is) (m i) (λ ds p. evals_mono f g is m p) e

pub evals-AllAt :
    {R D : Type 0} {At : ℕ → R ⊎ D → Type 0} (f : ℕ → Option D) {is : List ℕ} (ds : List D)
    → ((i : ℕ) (d : D) → At i (inr d) → f i ≡ some d)
    → AllAt At is (map inr ds)
    → evals f is ≡ some ds
evals-AllAt f [] h none_at = refl
evals-AllAt f (d ∷ ds) h (one_at a as') = rw (h _ d a, evals-AllAt f ds h as') refl

-- One of the nodes has no value.
pub evals-none :
    {D : Type 0} (f : ℕ → Option D) (is : List ℕ) (k : ℕ) {p : ℕ}
    → get_elem? is k ≡ some p
    → f p ≡ none
    → evals f is ≡ none
evals-none f [] k e h = cc
evals-none f (i ∷ is) zero {p} e h =
    let same : p ≡ i = cc e in
    let there : f i ≡ none = subst (λ i. f i ≡ none) same h in rw there refl
evals-none f (i ∷ is) (suc k) e h = rw (evals-none f is k e h) (both-none (f i))

pub failed_inputs :
    {R D : Type 0} {At : ℕ → R ⊎ D → Type 0} (f : ℕ → Option D) {is : List ℕ} {rs : List (R ⊎ D)}
    → ((i : ℕ) (e : R) → At i (inl e) → f i ≡ none)
    → AllAt At is rs
    → (errors_of rs ≡ []) ⊎ (evals f is ≡ none)
failed_inputs f h none_at = inl refl
failed_inputs f h (one_at {r = inl e} a as') = inr (rw (h _ e a) refl)
failed_inputs f h (one_at {i} {r = inr d} a as') = elim (failed_inputs f h as') [
  | inl none_failed ↦ inl none_failed
  | inr fails ↦ inr (rw fails (both-none (f i)))
]
