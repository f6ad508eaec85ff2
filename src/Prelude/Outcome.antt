-- ===== src/Prelude/Outcome.antt =====
-- The outcome of a run: a value, an error value, a panic, or fuel that ran out (which has no
-- counterpart in the program).
use mathlib.Core.Path.{◌≡◌, refl, subst}
use mathlib.Core.Option.{Option, none, some}
use mathlib.Core.Logic.{◌≢◌}

pub data Outcome {ℓ κ} (E : Type ℓ) (A : Type κ) : Type (ℓ ⊔ κ) where
  ok : A → Outcome E A
  err : E → Outcome E A
  panic : Outcome E A
  out_of_fuel : Outcome E A

module _ {ℓ κ κ'} {E : Type ℓ} {A : Type κ} {B : Type κ'} where
  abbrev pub bind : Outcome E A → (A → Outcome E B) → Outcome E B
  bind (ok a) f = f a
  bind (err e) f = err e
  bind panic f = panic
  bind out_of_fuel f = out_of_fuel

-- `Vec::get` and `HashMap::get` behind an `expect`.
abbrev pub expect {ℓ κ} : {E : Type ℓ} {A : Type κ} → Option A → Outcome E A
expect (some a) = ok a
expect none = panic

-- If the run returns a value, `P` holds of it.
pub data Ensures {ℓ κ μ} {E : Type ℓ} {A : Type κ} (P : A → Type μ)
    : Outcome E A → Type (ℓ ⊔ κ ⊔ μ) where
  holds : {a : A} → P a → Ensures P (ok a)
  raised : {e : E} → Ensures P (err e)
  panicked : Ensures P panic
  exhausted : Ensures P out_of_fuel

module _ {ℓ κ μ} {E : Type ℓ} {A : Type κ} {P : A → Type μ} where
  pub Ensures-ok : {r : Outcome E A} {a : A} → Ensures P r → r ≡ ok a → P a
  Ensures-ok (holds h) e = subst P (cc) h
  Ensures-ok raised e = cc
  Ensures-ok panicked e = cc
  Ensures-ok exhausted e = cc

  pub Ensures-mono {ν} :
      {Q : A → Type ν} {r : Outcome E A} → ((a : A) → P a → Q a) → Ensures P r → Ensures Q r
  Ensures-mono f (holds {a} h) = holds (f a h)
  Ensures-mono f raised = raised
  Ensures-mono f panicked = panicked
  Ensures-mono f exhausted = exhausted

  pub Ensures-expect : (o : Option A) → ((a : A) → o ≡ some a → P a) → Ensures {E = E} P (expect o)
  Ensures-expect none h = panicked
  Ensures-expect (some a) h = holds (h a refl)

  pub Ensures-of_ok : (r : Outcome E A) → ((a : A) → r ≡ ok a → P a) → Ensures P r
  Ensures-of_ok (ok a) h = holds (h a refl)
  Ensures-of_ok (err e) h = raised
  Ensures-of_ok panic h = panicked
  Ensures-of_ok out_of_fuel h = exhausted

module _ {ℓ κ κ' μ μ'} {E : Type ℓ} {A : Type κ} {B : Type κ'} {P : A → Type μ}
    {Q : B → Type μ'} where
  pub Ensures-bind :
      {r : Outcome E A} {f : A → Outcome E B}
      → Ensures P r
      → ((a : A) → P a → Ensures Q (f a))
      → Ensures Q (bind r f)
  Ensures-bind (holds {a} h) k = k a h
  Ensures-bind raised k = raised
  Ensures-bind panicked k = panicked
  Ensures-bind exhausted k = exhausted

module _ {ℓ κ} {E : Type ℓ} {A : Type κ} where
  pub expect-ne-out_of_fuel : (o : Option A) → expect {E = E} o ≢ out_of_fuel
  expect-ne-out_of_fuel none = cc
  expect-ne-out_of_fuel (some a) = cc

module _ {ℓ κ κ'} {E : Type ℓ} {A : Type κ} {B : Type κ'} where
  pub bind-ne-out_of_fuel :
      (r : Outcome E A) (f : A → Outcome E B)
      → r ≢ out_of_fuel
      → ((a : A) → f a ≢ out_of_fuel)
      → bind r f ≢ out_of_fuel
  bind-ne-out_of_fuel (ok a) f h k = k a
  bind-ne-out_of_fuel (err e) f h k = cc
  bind-ne-out_of_fuel panic f h k = cc
  bind-ne-out_of_fuel out_of_fuel f h k = absurd (h refl)

-- The run returns a value with `P` or an error with `R`: it does not panic, and fuel suffices.
pub data Total {ℓ κ μ ν} {E : Type ℓ} {A : Type κ} (R : E → Type ν) (P : A → Type μ)
    : Outcome E A → Type (ℓ ⊔ κ ⊔ μ ⊔ ν) where
  returned : {a : A} → P a → Total R P (ok a)
  rejected : {e : E} → R e → Total R P (err e)

module _ {ℓ κ μ ν} {E : Type ℓ} {A : Type κ} {R : E → Type ν} {P : A → Type μ} where
  pub Total-mono {μ'} :
      {Q : A → Type μ'} {r : Outcome E A} → ((a : A) → P a → Q a) → Total R P r → Total R Q r
  Total-mono f (returned {a} p) = returned (f a p)
  Total-mono f (rejected q) = rejected q

  pub Total-ok : {r : Outcome E A} {a : A} → Total R P r → r ≡ ok a → P a
  Total-ok (returned h) e = subst P (cc) h
  Total-ok (rejected h) e = cc

  pub Total-bind {κ' μ'} :
      {B : Type κ'} {Q : B → Type μ'} {r : Outcome E A} {f : A → Outcome E B}
      → Total R P r
      → ((a : A) → P a → Total R Q (f a))
      → Total R Q (bind r f)
  Total-bind (returned {a} p) k = k a p
  Total-bind (rejected q) k = rejected q
