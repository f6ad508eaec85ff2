-- ===== src/Engine/UserDb/Resolved.antt =====
-- userdb.rs: whom a user string stands for.
use serpentine.Prelude.{
  ℕ, suc, String, ◌≡◌, ◌≢◌, refl, sym, subst, ap, Bool, true, false, Bool-cases, Option, none, some,
  List, [], ◌∷◌, ◌++◌, All, All-mono, get_elem?, ◌⊎◌, inl, inr, ◌==◌, nat_eq, list_eq, nat_beq_iff,
}
use serpentine.Prelude.Outcome.{Outcome, Total, returned, rejected, Total-bind}
use serpentine.Prelude.Text.{Text}
use serpentine.Engine.UserDb.{
  Identifier, by_id, by_name, OciUser, PasswdEntry, GroupEntry, is_user, find, any, check_gid_valid,
  has_member, additional_groups, User, UserNotFound, or_not_found, valid_gid, resolve_groups,
  resolve,
}

-- The first element that passes the test.
abbrev pub IsFirst : {A : Type 0} → (A → Bool) → List A → A → Type 0
IsFirst {A} test xs a =
    (before after : List A) × (xs ≡ before ++ a ∷ after)
    × All (λ x. test x ≡ false) before
    × (test a ≡ true)

abbrev pub HasGroup : List GroupEntry → ℕ → Type 0
HasGroup groups gid =
    (i : ℕ) × (entry : GroupEntry) × (get_elem? groups i ≡ some entry) × (entry.gid ≡ gid)

-- A group other than the user's own, that the user is a member of.
abbrev pub IsOther : List GroupEntry → Text → ℕ → ℕ → Type 0
IsOther groups username own gid =
    (gid ≢ own)
    × (i : ℕ) × (entry : GroupEntry) × (get_elem? groups i ≡ some entry)
    × (entry.gid ≡ gid)
    × (has_member username entry ≡ true)

abbrev pub IsListed : List ℕ → Text → ℕ → GroupEntry → Type 0
IsListed gids username own entry =
    (has_member username entry ≡ false)
    ⊎ (entry.gid ≡ own)
    ⊎ ((i : ℕ) × (get_elem? gids i ≡ some entry.gid))

-- The group that is named, or the one of the passwd entry with all others of the user.
abbrev pub IsGroup : List GroupEntry → PasswdEntry → Option Identifier → ℕ × List ℕ → Type 0
IsGroup groups entry (some (by_id i)) (gid, others) = (gid ≡ i) × HasGroup groups i × (others ≡ [])
IsGroup groups entry (some (by_name n)) (gid, others) =
    ((g : GroupEntry) × IsFirst (λ (g : GroupEntry). g.group_name == n) groups g × (gid ≡ g.gid))
    × (others ≡ [])
IsGroup groups entry none (gid, others) =
    (gid ≡ entry.group_id)
    × HasGroup groups gid
    × All (IsOther groups entry.username gid) others
    × All (IsListed others entry.username gid) groups

abbrev pub NoGroup : List GroupEntry → PasswdEntry → Option Identifier → Type 0
NoGroup groups entry (some (by_id i)) = All (λ (g : GroupEntry). (g.gid == i) ≡ false) groups
NoGroup groups entry (some (by_name n)) =
    All (λ (g : GroupEntry). (g.group_name == n) ≡ false) groups
NoGroup groups entry none = All (λ (g : GroupEntry). (g.gid == entry.group_id) ≡ false) groups

abbrev pub IsResolved : OciUser → List PasswdEntry → List GroupEntry → User × Text → Type 0
IsResolved self passwd groups (user, home) =
    (entry : PasswdEntry) × IsFirst (is_user self.user) passwd entry
    × (user.uid ≡ entry.user_id)
    × (home ≡ entry.home_directory)
    × IsGroup groups entry self.group (user.gid, user.additional_gids)

abbrev pub IsMissing : OciUser → List PasswdEntry → List GroupEntry → UserNotFound → Type 0
IsMissing self passwd groups x =
    (x.user ≡ self)
    × (All (λ entry. is_user self.user entry ≡ false) passwd
        ⊎ ((entry : PasswdEntry) × IsFirst (is_user self.user) passwd entry
            × NoGroup groups entry self.group))

module _ {A : Type 0} (test : A → Bool) where
  find_cases :
      (xs : List A)
      → ((a : A) × (find test xs ≡ some a) × IsFirst test xs a)
        ⊎ ((find test xs ≡ none) × All (λ x. test x ≡ false) xs)
  unfolding find
  find_cases [] = inr (refl, tt)
  find_cases (x ∷ xs) = elim (Bool-cases (test x)) [
    | inl e ↦ inl (x, rw e refl, ([], xs, refl, tt, e))
    | inr e ↦ elim (find_cases xs) [
      | inl (a, h, (before, after, p, f, t)) ↦
          inl (a, rw e h, (x ∷ before, after, ap (λ xs. x ∷ xs) p, (e, f), t))
      | inr (h, f) ↦ inr (rw e h, (e, f))
    ]
  ]

  any_cases :
      (xs : List A)
      → ((any test xs ≡ true) × (i : ℕ) × (a : A) × (get_elem? xs i ≡ some a) × (test a ≡ true))
        ⊎ ((any test xs ≡ false) × All (λ x. test x ≡ false) xs)
  unfolding any
  any_cases [] = inr (refl, tt)
  any_cases (x ∷ xs) = elim (Bool-cases (test x)) [
    | inl e ↦ inl (rw e refl, 0, x, refl, e)
    | inr e ↦ elim (any_cases xs) [
      | inl (h, i, a, p, t) ↦ inl (rw e h, suc i, a, p, t)
      | inr (h, f) ↦ inr (rw e h, (e, f))
    ]
  ]

valid_gid-Total :
    (self : OciUser) (msg : String) (groups : List GroupEntry) (gid : ℕ)
    → Total
        (λ (x : UserNotFound).
          (x.user ≡ self) × All (λ (g : GroupEntry). (g.gid == gid) ≡ false) groups)
        (λ n. (n ≡ gid) × HasGroup groups gid)
        (or_not_found self msg (valid_gid groups gid))
unfolding check_gid_valid
valid_gid-Total self msg groups gid = elim (any_cases (λ (g : GroupEntry). g.gid == gid) groups) [
  | inl (h, i, g, p, t) ↦ rw h (returned (refl, (i, g, p, (nat_beq_iff g.gid gid).0 t)))
  | inr (h, f) ↦ rw h (rejected (refl, f))
]

IsOther-cons :
    (g : GroupEntry) (groups : List GroupEntry) (username : Text) (own gid : ℕ)
    → IsOther groups username own gid
    → IsOther (g ∷ groups) username own gid
IsOther-cons g groups username own gid (ne, i, entry, p, q, r) = (ne, suc i, entry, p, q, r)

additional_groups-IsOther :
    (groups : List GroupEntry) (username : Text) (own : ℕ)
    → All (IsOther groups username own) (additional_groups groups username own)
unfolding additional_groups
additional_groups-IsOther [] username own = tt
additional_groups-IsOther (g ∷ groups) username own =
    let rest =
      All-mono (λ gid h. IsOther-cons g groups username own gid h)
        (additional_groups groups username own) (additional_groups-IsOther groups username own) in
    elim (Bool-cases (has_member username g)) [
      | inl member ↦ elim (Bool-cases (g.gid == own)) [
        | inl same ↦ rw (member, same) rest
        | inr other ↦
            rw (member, other)
              (((λ p. cc ((nat_beq_iff g.gid own).1 p, other)), 0, g, refl, refl, member), rest)
      ]
      | inr absent ↦ rw absent rest
    ]

IsListed-cons :
    (gid : ℕ) (gids : List ℕ) (username : Text) (own : ℕ) (g : GroupEntry)
    → IsListed gids username own g
    → IsListed (gid ∷ gids) username own g
IsListed-cons gid gids username own g (inl e) = inl e
IsListed-cons gid gids username own g (inr (inl e)) = inr (inl e)
IsListed-cons gid gids username own g (inr (inr (i, e))) = inr (inr (suc i, e))

listed :
    (g : GroupEntry) (groups : List GroupEntry) (username : Text) (own : ℕ) {gids gids' : List ℕ}
    → gids ≡ gids'
    → IsListed gids username own g × All (IsListed gids username own) groups
    → IsListed gids' username own g × All (IsListed gids' username own) groups
listed g groups username own p h =
    subst (λ l. IsListed l username own g × All (IsListed l username own) groups) p h

additional_groups-IsListed :
    (groups : List GroupEntry) (username : Text) (own : ℕ)
    → All (IsListed (additional_groups groups username own) username own) groups
unfolding additional_groups
additional_groups-IsListed [] username own = tt
additional_groups-IsListed (g ∷ groups) username own =
    let rest = additional_groups-IsListed groups username own in
    elim (Bool-cases (has_member username g)) [
      | inl member ↦ elim (Bool-cases (g.gid == own)) [
        | inl same ↦
            let skipped : additional_groups groups username own
                ≡ additional_groups (g ∷ groups) username own =
              rw (member, same) refl in
            listed g groups username own skipped (inr (inl ((nat_beq_iff g.gid own).0 same)), rest)
        | inr other ↦
            let taken : g.gid ∷ additional_groups groups username own
                ≡ additional_groups (g ∷ groups) username own =
              rw (member, other) refl in
            let more = additional_groups groups username own in
            listed g groups username own taken (
              inr (inr (0, refl)),
              All-mono (λ x h. IsListed-cons g.gid more username own x h) groups rest,
            )
      ]
      | inr absent ↦
          let skipped : additional_groups groups username own
              ≡ additional_groups (g ∷ groups) username own =
            rw absent refl in
          listed g groups username own skipped (inl absent, rest)
    ]

Total-errors :
    {E A : Type 0} {F G : E → Type 0} {Q : A → Type 0} {r : Outcome E A}
    → ((x : E) → F x → G x)
    → Total F Q r
    → Total G Q r
Total-errors f (returned q) = returned q
Total-errors f (rejected h) = rejected (f _ h)

found-Total :
    {A : Type 0} (self : OciUser) (msg : String) (test : A → Bool) (xs : List A)
    → Total
        (λ (x : UserNotFound). (x.user ≡ self) × All (λ x. test x ≡ false) xs)
        (IsFirst test xs)
        (or_not_found self msg (find test xs))
found-Total self msg test xs = elim (find_cases test xs) [
  | inl (a, e, first) ↦ rw e (returned first)
  | inr (e, absent) ↦ rw e (rejected (refl, absent))
]

resolve_groups-Total :
    (self : OciUser) (groups : List GroupEntry) (entry : PasswdEntry) (group : Option Identifier)
    → Total
        (λ (x : UserNotFound). (x.user ≡ self) × NoGroup groups entry group)
        (IsGroup groups entry group)
        (resolve_groups self groups entry group)
unfolding resolve_groups
resolve_groups-Total self groups entry (some (by_id i)) =
    Total-bind (valid_gid-Total self "Group id not found in /etc/group" groups i)
      λ gid (p, h). returned (p, h, refl)
resolve_groups-Total self groups entry (some (by_name n)) =
    Total-bind
      (found-Total self "Group name not found in /etc/group" (λ (g : GroupEntry). g.group_name == n)
        groups)
      λ g first. returned ((g, first, refl), refl)
resolve_groups-Total self groups entry none =
    Total-bind (valid_gid-Total self "Group id not found in /etc/group" groups entry.group_id)
      λ gid (p, h). returned (
        p,
        subst (λ n. HasGroup groups n) (sym p) h,
        additional_groups-IsOther groups entry.username gid,
        additional_groups-IsListed groups entry.username gid,
      )

-- A user string stands for the first entry of the passwd file with its name or id, with that entry's
-- home directory. A group that the string names is the only one: it must be in the group file.
-- Otherwise the group is that of the passwd entry, if it is in the group file, and the additional
-- groups are exactly the others that list the user as a member. Where the user or the group is not
-- there, and only there, the result is an error that names the string.
pub resolve-IsResolved :
    (self : OciUser) (passwd : List PasswdEntry) (groups : List GroupEntry)
    → Total
        (IsMissing self passwd groups)
        (IsResolved self passwd groups)
        (resolve self passwd groups)
unfolding resolve
resolve-IsResolved self passwd groups = elim (find_cases (is_user self.user) passwd) [
  | inl (entry, e, first) ↦ rw e (
      Total-bind
        (Total-errors (λ x (p, h). (p, inr (entry, first, h)))
          (resolve_groups-Total self groups entry self.group))
        λ (gid, others) h. returned (entry, first, refl, refl, h))
  | inr (e, absent) ↦ rw e (rejected (refl, inl absent))
]
