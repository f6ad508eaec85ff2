-- ===== src/Engine/UserDb/Reads.antt =====
-- userdb.rs: how a user string is read.
use serpentine.Prelude.{
  ℕ, zero, suc, ◌+◌, ◌*◌, ◌-◌, ◌^◌, ◌≤◌, ◌<◌, ◌≡◌, ◌≢◌, refl, ap, true, false, Option, none, some,
  [], ◌∷◌, ◌++◌, All, length, leb, ◌⊎◌, inl, inr, ◌==◌, nat_eq, nat_beq_iff, arith, sym, ◌∙◌, subst,
  Bool-cases,
}
use serpentine.Prelude.Text.{Text}
use serpentine.Engine.UserDb.{
  split_once, digits_u32, parse_u32, Identifier, by_id, by_name, parse_identifier, OciUser,
  parse_user,
}

abbrev pub IsDigit : ℕ → Type 0
IsDigit c = (48 ≤ c) × (c ≤ 57)

-- Ten to the power of `k`.
abbrev pub place : ℕ → ℕ
place zero = 1
place (suc k) = 10 * place k

-- The number that decimal digits stand for, each by its place.
abbrev pub decimal : Text → ℕ
decimal [] = 0
decimal (c ∷ cs) = (c - 48) * place (length cs) + decimal cs

abbrev pub IsNumeral : Text → ℕ → Type 0
IsNumeral ds n = (ds ≢ []) × All IsDigit ds × (decimal ds ≡ n) × (n < 2 ^ 32)

-- Decimal digits of a number of 32 bits, or those after a plus.
abbrev pub IsU32 : Text → ℕ → Type 0
IsU32 s n = IsNumeral s n ⊎ ((ds : Text) × (s ≡ b'+' ∷ ds) × IsNumeral ds n)

leb_cases : (a b : ℕ) → (leb a b ≡ true) × (a ≤ b) ⊎ (leb a b ≡ false) × (b < a)
leb_cases a b = ground arith

place_pos : (k : ℕ) → 1 ≤ place k
place_pos zero = omega arith
place_pos (suc k) = omega (arith, place_pos k)

le-mul_place : (n k : ℕ) → n ≤ n * place k
le-mul_place n k = grind (arith, place_pos k)

horner : (v d p w : ℕ) → (v * 10 + d) * p + w ≡ v * (10 * p) + (d * p + w)
horner v d p w = grind arith

-- The first digit goes before the value so far.
decimal-cons :
    (value c : ℕ) (cs : Text)
    → (value * 10 + (c - 48)) * place (length cs) + decimal cs
      ≡ value * place (length (c ∷ cs)) + decimal (c ∷ cs)
decimal-cons value c cs = horner value (c - 48) (place (length cs)) (decimal cs)

-- The digits are read where they are all digits and the value does not get too large on the way,
-- which it does where it is too large in the end.
abbrev IsRead : ℕ → Text → ℕ → Type 0
IsRead value cs n = All IsDigit cs × (value * place (length cs) + decimal cs ≡ n) × (n < 2 ^ 32)

digits_cases :
    (value : ℕ) (cs : Text)
    → value < 2 ^ 32
    → ((n : ℕ) × (digits_u32 value cs ≡ some n) × IsRead value cs n)
      ⊎ ((digits_u32 value cs ≡ none) × ((n : ℕ) → ¬ IsRead value cs n))
unfolding digits_u32
digits_cases value [] lt = inl (value, refl, (tt, omega arith, lt))
digits_cases value (c ∷ cs) lt = elim (leb_cases b'0' c) [
  | inr (e, low) ↦ inr (rw e refl, λ n h. omega (arith, low, h.0.0.0))
  | inl (e, from) ↦ elim (leb_cases c b'9') [
    | inr (e', high) ↦ inr (rw (e, e') refl, λ n h. omega (arith, high, h.0.0.1))
    | inl (e', to) ↦ elim (leb_cases (value * 10 + (c - 48)) 4294967295) [
      | inr (e'', large) ↦ inr (
        rw (e, e', e'') refl,
        λ n h. omega (
          arith,
          large,
          h.1,
          h.2,
          decimal-cons value c cs,
          le-mul_place (value * 10 + (c - 48)) (length cs),
        ),
      )
      | inl (e'', fits) ↦ elim (digits_cases (value * 10 + (c - 48)) cs (omega arith)) [
        | inl (n, read, (all, is, small)) ↦ inl (
          n,
          rw (e, e', e'') read,
          (((from, to), all), sym (decimal-cons value c cs) ∙ is, small),
        )
        | inr (fails, never) ↦
            inr (rw (e, e', e'') fails, λ n h. never n (h.0.1, decimal-cons value c cs ∙ h.1, h.2))
      ]
    ]
  ]
]

from_none : (cs : Text) → 0 * place (length cs) + decimal cs ≡ decimal cs
from_none cs = grind arith

digits_u32-cases :
    (c : ℕ) (cs : Text)
    → ((n : ℕ) × (digits_u32 0 (c ∷ cs) ≡ some n) × IsNumeral (c ∷ cs) n)
      ⊎ ((digits_u32 0 (c ∷ cs) ≡ none) × ((n : ℕ) → ¬ IsNumeral (c ∷ cs) n))
digits_u32-cases c cs = elim (digits_cases 0 (c ∷ cs) (omega arith)) [
  | inl (n, read, (all, is, small)) ↦
      inl (n, read, ((λ p. cc p), all, sym (from_none (c ∷ cs)) ∙ is, small))
  | inr (fails, never) ↦ inr (fails, λ n h. never n (h.1, from_none (c ∷ cs) ∙ h.2, h.3))
]

-- A numeral has no sign.
not_plus : (cs : Text) (n : ℕ) → ¬ IsNumeral (b'+' ∷ cs) n
not_plus cs n h = omega (arith, h.1.0.0)

-- What `parse_u32` reads, where it reads anything.
abbrev Reading : Text → Option ℕ → Type 0
Reading s o = ((n : ℕ) × (o ≡ some n) × IsU32 s n) ⊎ ((o ≡ none) × ((n : ℕ) → ¬ IsU32 s n))

unsigned-Reading :
    (c : ℕ) (cs : Text)
    → ((ds : Text) (n : ℕ) → c ∷ cs ≡ b'+' ∷ ds → ¬ IsNumeral ds n)
    → Reading (c ∷ cs) (digits_u32 0 (c ∷ cs))
unsigned-Reading c cs no_sign = elim (digits_u32-cases c cs) [
  | inl (n, read, numeral) ↦ inl (n, read, inl numeral)
  | inr (fails, never) ↦ inr (
    fails,
    λ n h. elim h [ inl numeral ↦ never n numeral | inr (ds, p, rest) ↦ no_sign ds n p rest ],
  )
]

signed-Reading : (d : ℕ) (cs : Text) → Reading (b'+' ∷ d ∷ cs) (digits_u32 0 (d ∷ cs))
signed-Reading d cs = elim (digits_u32-cases d cs) [
  | inl (n, read, numeral) ↦ inl (n, read, inr (d ∷ cs, refl, numeral))
  | inr (fails, never) ↦ inr (
    fails,
    λ n h. elim h [
      | inl numeral ↦ not_plus (d ∷ cs) n numeral
      | inr (ds, p, rest) ↦
          let same : ds ≡ d ∷ cs = cc p in never n (subst (λ ds. IsNumeral ds n) same rest)
    ],
  )
]

parse_u32-Reading : (s : Text) → Reading s (parse_u32 s)
unfolding parse_u32
parse_u32-Reading [] =
    inr (refl, λ n h. elim h [ inl numeral ↦ numeral.0 refl | inr (ds, p, rest) ↦ cc p ])
parse_u32-Reading (c ∷ []) =
    unsigned-Reading c [] λ ds n p rest. let empty : ds ≡ [] = cc p in rest.0 empty
parse_u32-Reading (c ∷ d ∷ cs) = elim (Bool-cases (c == b'+')) [
  | inl e ↦
      let same : c ≡ b'+' = (nat_beq_iff c b'+').0 e in
      rw e
        (subst (λ c. Reading (c ∷ d ∷ cs) (digits_u32 0 (d ∷ cs))) (sym same) (signed-Reading d cs))
  | inr e ↦ rw e (
      unsigned-Reading c (d ∷ cs)
        λ ds n p rest. let same : c ≡ b'+' = cc p in cc ((nat_beq_iff c b'+').1 same, e))
]

-- A number where the text is one, the whole text as a name otherwise.
abbrev pub Reads : Text → Identifier → Type 0
Reads s (by_id n) = IsU32 s n
Reads s (by_name name) = (name ≡ s) × ((n : ℕ) → ¬ IsU32 s n)

parse_identifier-Reads : (s : Text) → Reads s (parse_identifier s)
unfolding parse_identifier
parse_identifier-Reads s = elim (parse_u32-Reading s) [
  | inl (n, e, is) ↦ rw e is
  | inr (e, never) ↦ rw e (refl, never)
]

abbrev pub IsFreeOf : ℕ → Text → Type 0
IsFreeOf sep s = All (λ c. c ≢ sep) s

split_once_cases :
    (sep : ℕ) (s : Text)
    → ((u : Text) × (g : Text) × (split_once sep s ≡ some (u, g))
        × (s ≡ u ++ sep ∷ g)
        × IsFreeOf sep u)
      ⊎ ((split_once sep s ≡ none) × IsFreeOf sep s)
unfolding split_once
split_once_cases sep [] = inr (refl, tt)
split_once_cases sep (c ∷ cs) = elim (Bool-cases (c == sep)) [
  | inl e ↦ inl ([], cs, rw e refl, ap (λ c. c ∷ cs) ((nat_beq_iff c sep).0 e), tt)
  | inr e ↦
      let other : c ≢ sep = λ p. cc ((nat_beq_iff c sep).1 p, e) in
      elim (split_once_cases sep cs) [
        | inl (u, g, h, p, free) ↦ inl (c ∷ u, g, rw (e, h) refl, ap (◌∷◌ c) p, (other, free))
        | inr (h, free) ↦ inr (rw (e, h) refl, (other, free))
      ]
]

-- Of a user string, what is before the first colon is the user and all that is behind it the group;
-- without a colon all of it is the user, with no group.
abbrev pub ReadsUser : Text → OciUser → Type 0
ReadsUser s self =
    ((u : Text) × (g : Text) × (group : Identifier) × (s ≡ u ++ b':' ∷ g)
      × IsFreeOf b':' u
      × Reads u self.user
      × (self.group ≡ some group)
      × Reads g group)
    ⊎ (IsFreeOf b':' s × Reads s self.user × (self.group ≡ none))

-- A user string is split at its first colon, if it has one. The user and the group are each a number
-- where the text is decimal digits of a number below 2 ^ 32, a plus before them or not, and the text
-- itself as a name where, and only where, it is not.
pub parse_user-ReadsUser : (s : Text) → ReadsUser s (parse_user s)
unfolding parse_user
parse_user-ReadsUser s = elim (split_once_cases b':' s) [
  | inl (u, g, e, p, free) ↦
      let self : OciUser = record {
        user = parse_identifier u;
        group = some (parse_identifier g);
      } in
      let read : self ≡ parse_user s = rw (parse_user, e) refl in
      subst (ReadsUser s) read (
        inl (
          u,
          g,
          parse_identifier g,
          p,
          free,
          parse_identifier-Reads u,
          refl,
          parse_identifier-Reads g,
        ))
  | inr (e, free) ↦
      let self : OciUser = record { user = parse_identifier s; group = none } in
      let read : self ≡ parse_user s = rw (parse_user, e) refl in
      subst (ReadsUser s) read (inr (free, parse_identifier-Reads s, refl))
]
