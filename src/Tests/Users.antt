-- ===== src/Tests/Users.antt =====
-- A passwd and a group file with two users.
use serpentine.Prelude.{◌≡◌, refl, [], ◌∷◌, List, some, none}
use serpentine.Prelude.Text.{codes}
use serpentine.Prelude.Outcome.{ok, err, Total}
use serpentine.Engine.UserDb.{
  by_id, by_name, parse_user, parse_passwd, parse_group, resolve, PasswdEntry, GroupEntry,
}
use serpentine.Engine.UserDb.Reads.{ReadsUser, parse_user-ReadsUser}
use serpentine.Engine.UserDb.Resolved.{IsMissing, IsResolved, resolve-IsResolved}

abbrev passwd : List PasswdEntry
passwd =
    record { username = codes "root"; user_id = 0; group_id = 0; home_directory = codes "/root" }
    ∷ record {
      username = codes "viv";
      user_id = 1000;
      group_id = 2000;
      home_directory = codes "/home";
    }
    ∷ []

parse_passwd_file :
    parse_passwd
      (codes "\nroot:x:0:0:root:/root:/bin/bash\r\nbroken\nviv:x:+1000:2000:Viv:/home:sh")
    ≡ passwd
unfolding parse_passwd
parse_passwd_file = refl

abbrev groups : List GroupEntry
groups =
    record { group_name = codes "viv"; gid = 2000; members = [] }
    ∷ record { group_name = codes "docker"; gid = 7; members = codes "x" ∷ codes "viv" ∷ [] }
    ∷ []

parse_group_file : parse_group (codes "viv:x:2000:\ndocker:x:7:x,viv\n") ≡ groups
unfolding parse_group
parse_group_file = refl

resolve_viv :
    resolve (parse_user (codes "viv")) passwd groups
    ≡ ok (record { uid = 1000; gid = 2000; additional_gids = 7 ∷ [] }, codes "/home")
unfolding resolve parse_user
resolve_viv = refl

-- The group of root is not in the file.
resolve_root :
    resolve (parse_user (codes "0")) passwd groups
    ≡ err (record {
      user = record { user = by_id 0; group = none };
      msg = "Group id not found in /etc/group";
    })
unfolding resolve parse_user
resolve_root = refl

resolve-IsResolved_example :
    Total
      (IsMissing (record { user = by_name (codes "viv"); group = none }) passwd groups)
      (IsResolved (record { user = by_name (codes "viv"); group = none }) passwd groups)
      (resolve (record { user = by_name (codes "viv"); group = none }) passwd groups)
resolve-IsResolved_example =
    resolve-IsResolved (record { user = by_name (codes "viv"); group = none }) passwd groups

-- The number needs all of its text, and 32 bits.
identifiers :
    parse_user (codes "+0666:4294967296")
    ≡ record { user = by_id 666; group = some (by_name (codes "4294967296")) }
unfolding parse_user
identifiers = refl

parse_user-ReadsUser_example : ReadsUser (codes "666:docker") (parse_user (codes "666:docker"))
parse_user-ReadsUser_example = parse_user-ReadsUser (codes "666:docker")
