-- ===== src/Prelude/Map.antt =====
-- A hash map as a function of the keys: what `get` shows after a series of `insert`s. The code
-- never iterates over the maps that are modelled so.
use mathlib.Core.Option.{Option, none, some}
use mathlib.Core.List.{List, [], ◌∷◌}
use mathlib.Core.Bool.{Bool, true, false}
use mathlib.Core.Path.{◌≡◌, refl, subst}
use serpentine.Prelude.Tests.{Eq, ◌==◌, if◌then◌else◌}
use serpentine.Prelude.Lists.{All}

abbrev pub Map {ℓ κ} : Type ℓ → Type κ → Type (ℓ ⊔ κ)
Map K V = List (K × V)

module _ {ℓ κ} {K : Type ℓ} {V : Type κ} ⦃e : Eq K⦄ where
  abbrev pub lookup : Map K V → K → Option V
  lookup [] k = none
  lookup ((j, v) ∷ m) k = if j == k then some v else lookup m k

  -- A later entry hides an earlier one.
  abbrev pub insert : Map K V → K → V → Map K V
  insert m k v = (k, v) ∷ m

  -- What holds of every entry holds of what is found.
  pub All-lookup {μ} :
      (Q : V → Type μ) (m : Map K V) (k : K) {v : V}
      → All (λ (x : K × V). Q x.1) m
      → lookup m k ≡ some v
      → Q v
  All-lookup Q [] k h e = cc
  All-lookup Q ((j, w) ∷ m) k {v} h e = pick (j == k) e (All-lookup Q m k h.1)
    where
      pick :
          (b : Bool)
          → (if b then some w else lookup m k) ≡ some v
          → (lookup m k ≡ some v → Q v)
          → Q v
      pick true e' rest = let same : w ≡ v = cc in subst Q same h.0
      pick false e' rest = rest e'

  pub lookup-insert : (m : Map K V) (k : K) (v : V) → lookup (insert m k v) k ≡ some v
  lookup-insert m k v = rw ((e.is_eq_iff k k).1 refl) refl

  -- An insert leaves what is found of another key.
  pub lookup-insert_other :
      (m : Map K V) (k j : K) (v : V) {o : Option V}
      → ¬ (k ≡ j)
      → lookup m j ≡ o
      → lookup (insert m k v) j ≡ o
  lookup-insert_other m k j v {o} other there = go (k == j) (e.is_eq_iff k j).0
    where
      go : (b : Bool) → (b ≡ true → k ≡ j) → (if b then some v else lookup m j) ≡ o
      go true same = absurd (other (same refl))
      go false same = there

  -- An insert of a key that was not there leaves all that is found.
  pub lookup-insert_absent :
      (m : Map K V) (k j : K) (v : V) {w : V}
      → lookup m k ≡ none
      → lookup m j ≡ some w
      → lookup (insert m k v) j ≡ some w
  lookup-insert_absent m k j v absent there =
      lookup-insert_other m k j v (λ same. cc (subst (λ k. lookup m k ≡ none) same absent, there))
        there
