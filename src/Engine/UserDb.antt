-- ===== src/Engine/UserDb.antt =====
-- serpentine/src/engine/userdb.rs: users and groups as images name them, and the files that say who
-- they are.
pub mod Resolved
pub mod Reads
use serpentine.Prelude.{
  ℕ, zero, suc, ◌+◌, ◌*◌, ◌-◌, ◌≡◌, refl, String, Bool, true, false, ◌&&◌, ◌||◌, not, Option, none,
  some, List, [], ◌∷◌, ◌++◌, map, ltb, leb, Eq, ◌==◌, nat_eq, list_eq, if◌then◌else◌,
}
use serpentine.Prelude.Outcome.{Outcome, ok, err, bind}
use serpentine.Prelude.Text.{Text, codes}

-- `str::split_once`
unfoldable pub split_once : ℕ → Text → Option (Text × Text)
split_once sep [] = none
split_once sep (c ∷ cs) =
    let rest = split_once sep cs in
    if c == sep then some ([], cs) else elim rest [ none ↦ none | some (a, b) ↦ some (c ∷ a, b) ]

-- `str::split`, with the piece so far.
unfoldable pub split_from : ℕ → Text → Text → List Text
split_from sep piece [] = piece ∷ []
split_from sep piece (c ∷ cs) =
    let rest = split_from sep (if c == sep then [] else piece ++ c ∷ []) cs in
    if c == sep then piece ∷ rest else rest

unfoldable pub split : ℕ → Text → List Text
unfolding split_from
split sep s = split_from sep [] s

-- A carriage return before the line feed is a part of the line's end.
unfoldable pub without_return : Text → Text
without_return [] = []
without_return (c ∷ []) = if c == b'\r' then [] else c ∷ []
without_return (c ∷ d ∷ cs) = c ∷ without_return (d ∷ cs)

-- `str::lines`, with the line so far.
unfoldable pub lines_from : Text → Text → List Text
unfolding without_return
lines_from [] [] = []
lines_from (c ∷ cs) [] = (c ∷ cs) ∷ []
lines_from line (c ∷ cs) =
    let rest = lines_from (if c == b'\n' then [] else line ++ c ∷ []) cs in
    if c == b'\n' then without_return line ∷ rest else rest

unfoldable pub lines : Text → List Text
unfolding lines_from
lines s = lines_from [] s

-- The digits of a `u32`, with the value so far.
unfoldable pub digits_u32 : ℕ → Text → Option ℕ
digits_u32 value [] = some value
digits_u32 value (c ∷ cs) =
    let next = value * 10 + (c - b'0') in
    let rest = digits_u32 next cs in
    if (leb b'0' c && leb c b'9') && leb next 4294967295 then rest else none

-- `u32::from_str`: a plus may come before the digits.
unfoldable pub parse_u32 : Text → Option ℕ
unfolding digits_u32
parse_u32 [] = none
parse_u32 (c ∷ []) = digits_u32 0 (c ∷ [])
parse_u32 (c ∷ d ∷ cs) = if c == b'+' then digits_u32 0 (d ∷ cs) else digits_u32 0 (c ∷ d ∷ cs)

-- A user or a group.
pub data Identifier : Type 0 where
  by_id : ℕ → Identifier
  by_name : Text → Identifier

abbrev pub identified : Text → Option ℕ → Identifier
identified s none = by_name s
identified s (some n) = by_id n

unfoldable pub parse_identifier : Text → Identifier
unfolding parse_u32
parse_identifier s = identified s (parse_u32 s)

pub record OciUser : Type 0 where
  pub user : Identifier
  pub group : Option Identifier

unfoldable pub parse_user : Text → OciUser
unfolding split_once parse_identifier
parse_user s = elim (split_once b':' s) [
  | none ↦ record { user = parse_identifier s; group = none }
  | some (u, g) ↦ record { user = parse_identifier u; group = some (parse_identifier g) }
]

pub record PasswdEntry : Type 0 where
  pub username : Text
  pub user_id : ℕ
  pub group_id : ℕ
  pub home_directory : Text

abbrev pub passwd_entry : Text → Option ℕ → Option ℕ → Text → Option PasswdEntry
passwd_entry username (some uid) (some gid) home =
    some (record { username = username; user_id = uid; group_id = gid; home_directory = home })
passwd_entry username _ _ home = none

-- At least seven fields.
unfoldable pub passwd_of : List Text → Option PasswdEntry
unfolding parse_u32
passwd_of (username ∷ password ∷ uid ∷ gid ∷ comments ∷ home ∷ shell ∷ more) =
    passwd_entry username (parse_u32 uid) (parse_u32 gid) home
passwd_of _ = none

pub record GroupEntry : Type 0 where
  pub group_name : Text
  pub gid : ℕ
  pub members : List Text

abbrev pub non_empty : List Text → List Text
non_empty [] = []
non_empty ([] ∷ ss) = non_empty ss
non_empty ((c ∷ cs) ∷ ss) = (c ∷ cs) ∷ non_empty ss

abbrev pub group_entry : Text → Option ℕ → List Text → Option GroupEntry
group_entry group_name (some gid) members =
    some (record { group_name = group_name; gid = gid; members = members })
group_entry group_name none members = none

-- At least four fields.
unfoldable pub group_of : List Text → Option GroupEntry
unfolding split parse_u32
group_of (group_name ∷ password ∷ gid ∷ members ∷ more) =
    group_entry group_name (parse_u32 gid) (non_empty (split b',' members))
group_of _ = none

-- The lines that are entries.
abbrev pub entries : {A : Type 0} → (Text → Option A) → List Text → List A
entries parse [] = []
entries parse (line ∷ rest) = elim (parse line) [
  | none ↦ entries parse rest
  | some entry ↦ entry ∷ entries parse rest
]

unfoldable pub parse_passwd : Text → List PasswdEntry
unfolding lines split passwd_of
parse_passwd s = entries (λ line. passwd_of (split b':' line)) (lines s)

unfoldable pub parse_group : Text → List GroupEntry
unfolding lines split group_of
parse_group s = entries (λ line. group_of (split b':' line)) (lines s)

abbrev pub is_user : Identifier → PasswdEntry → Bool
is_user (by_name n) entry = entry.username == n
is_user (by_id i) entry = entry.user_id == i

-- `Iterator::find`
unfoldable pub find : {A : Type 0} → (A → Bool) → List A → Option A
find test [] = none
find test (x ∷ xs) = let rest = find test xs in if test x then some x else rest

-- `Iterator::any`
unfoldable pub any : {A : Type 0} → (A → Bool) → List A → Bool
any test [] = false
any test (x ∷ xs) = test x || any test xs

unfoldable pub find_user : List PasswdEntry → Identifier → Option PasswdEntry
unfolding find
find_user passwd identifier = find (is_user identifier) passwd

unfoldable pub check_gid_valid : List GroupEntry → ℕ → Bool
unfolding any
check_gid_valid groups gid = any (λ entry. entry.gid == gid) groups

unfoldable pub find_group_by_name : List GroupEntry → Text → Option GroupEntry
unfolding find
find_group_by_name groups group_name = find (λ entry. entry.group_name == group_name) groups

unfoldable pub has_member : Text → GroupEntry → Bool
unfolding any
has_member username entry = any (λ member. member == username) entry.members

-- The ids of the other groups that the user is a member of.
unfoldable pub additional_groups : List GroupEntry → Text → ℕ → List ℕ
unfolding has_member
additional_groups [] username group_id = []
additional_groups (entry ∷ rest) username group_id =
    let others = additional_groups rest username group_id in
    if has_member username entry && not (entry.gid == group_id) then entry.gid ∷ others else others

-- What `resolve` sets of a runtime user.
pub record User : Type 0 where
  pub uid : ℕ
  pub gid : ℕ
  pub additional_gids : List ℕ

pub record UserNotFound : Type 0 where
  pub user : OciUser
  pub msg : String

-- An error where nothing was found.
abbrev pub or_not_found : {A : Type 0} → OciUser → String → Option A → Outcome UserNotFound A
or_not_found user msg none = err (record { user = user; msg = msg })
or_not_found user msg (some a) = ok a

abbrev pub valid_gid : List GroupEntry → ℕ → Option ℕ
valid_gid groups gid = if check_gid_valid groups gid then some gid else none

-- The group and the additional groups, for the entry of the user.
unfoldable pub resolve_groups :
    OciUser → List GroupEntry → PasswdEntry → Option Identifier → Outcome UserNotFound (ℕ × List ℕ)
unfolding check_gid_valid find_group_by_name additional_groups
resolve_groups self groups entry (some (by_id i)) =
    bind (or_not_found self "Group id not found in /etc/group" (valid_gid groups i))
      λ gid. ok (gid, [])
resolve_groups self groups entry (some (by_name n)) =
    bind (or_not_found self "Group name not found in /etc/group" (find_group_by_name groups n))
      λ group. ok (group.gid, [])
resolve_groups self groups entry none =
    bind (or_not_found self "Group id not found in /etc/group" (valid_gid groups entry.group_id))
      λ gid. ok (gid, additional_groups groups entry.username gid)

unfoldable pub resolve :
    OciUser → List PasswdEntry → List GroupEntry → Outcome UserNotFound (User × Text)
unfolding find_user resolve_groups
resolve self passwd groups =
    bind (or_not_found self "Failed to find user in /etc/passwd" (find_user passwd self.user))
      λ entry. bind (resolve_groups self groups entry self.group) λ (gid, additional). ok (
        record { uid = entry.user_id; gid = gid; additional_gids = additional },
        entry.home_directory,
      )
