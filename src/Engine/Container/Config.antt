-- ===== src/Engine/Container/Config.antt =====
-- container_config.rs: the operations on configurations and states. Joining paths and quoting shell
-- words are parameters; a BTreeMap is the list of its entries in the order of their keys.
use Prim.Native.Nat.{compare, Ordering}
use serpentine.Prelude.{ℕ, Option, none, some, List, [], ◌∷◌, ◌++◌}
use serpentine.Prelude.Text.{Text, codes}
use serpentine.Internal.Network.{Order, less, same, greater, and_then}
use serpentine.Engine.UserDb.{split_once}
use serpentine.Engine.Container.{
  ServiceConfig, ContainerState, container_state, ContainerConfig, container_config, Services,
  btree_end, btree_entry, ServiceState, service_state,
}

abbrev pub cmp_char : ℕ → ℕ → Order
cmp_char a b = elim (compare a b) [
  | Ordering.lt ↦ less
  | Ordering.eq ↦ same
  | Ordering.gt ↦ greater
]

-- `str::cmp`: the order of the UTF-8 bytes is that of the characters.
unfoldable pub cmp_str : Text → Text → Order
cmp_str [] [] = same
cmp_str [] (b ∷ bs) = less
cmp_str (a ∷ cs) [] = greater
cmp_str (a ∷ cs) (b ∷ bs) = and_then (cmp_char a b) (cmp_str cs bs)

abbrev pub Env : Type 0
Env = List (Text × Text)

-- `BTreeMap::get`
unfoldable pub get : Env → Text → Option Text
unfolding cmp_str
get [] key = none
get ((k, v) ∷ env) key =
    let rest = get env key in elim (cmp_str key k) [ less ↦ none | same ↦ some v | greater ↦ rest ]

-- `BTreeMap::insert`, on an environment and on the services.
unfoldable pub insert : Env → Text → Text → Env
unfolding cmp_str
insert [] key value = (key, value) ∷ []
insert ((k, v) ∷ env) key value =
    let rest = insert env key value in
    elim (cmp_str key k) [
      | less ↦ (key, value) ∷ (k, v) ∷ env
      | same ↦ (key, value) ∷ env
      | greater ↦ (k, v) ∷ rest
    ]

unfoldable pub insert_service : Services → Text → ServiceState → Services
unfolding cmp_str
insert_service btree_end key value = btree_entry key value btree_end
insert_service (btree_entry k v services) key value =
    let rest = insert_service services key value in
    elim (cmp_str key k) [
      | less ↦ btree_entry key value (btree_entry k v services)
      | same ↦ btree_entry key value services
      | greater ↦ btree_entry k v rest
    ]

abbrev pub get_env_var : ContainerConfig → Text → Option Text
get_env_var (container_config env dir user services) key = get env key

abbrev pub set_working_dir : (Text → Text → Text) → Text → ContainerConfig → ContainerConfig
set_working_dir join to (container_config env dir user services) =
    container_config env (join dir to) user services

abbrev pub set_env_var : Text → Text → ContainerConfig → ContainerConfig
set_env_var key value (container_config env dir user services) =
    container_config (insert env key value) dir user services

abbrev pub set_user : Text → ContainerConfig → ContainerConfig
set_user name (container_config env dir user services) =
    container_config env dir (some name) services

abbrev pub with_service : ServiceState → Text → ContainerConfig → ContainerConfig
with_service state hostname (container_config env dir user services) =
    container_config env dir user (insert_service services hostname state)

-- `oci_client::config::Config`
pub record OciConfig : Type 0 where
  pub env : Option (List Text)
  pub working_dir : Option Text
  pub user : Option Text
  pub entrypoint : Option (List Text)
  pub cmd : Option (List Text)

abbrev unwrap_or_default : {A : Type 0} → Option (List A) → List A
unwrap_or_default none = []
unwrap_or_default (some xs) = xs

-- The variables with an equals sign, a later one in place of an earlier one.
unfoldable pub collect_env : List Text → Env → Env
unfolding split_once insert
collect_env [] env = env
collect_env (var ∷ vars) env = elim (split_once b'=' var) [
  | none ↦ collect_env vars env
  | some (key, value) ↦ collect_env vars (insert env key value)
]

abbrev pub or_root : Option Text → Text
or_root none = codes "/"
or_root (some dir) = dir

unfoldable pub from_oci : OciConfig → ContainerConfig
unfolding collect_env
from_oci config =
    container_config (collect_env (unwrap_or_default config.env) []) (or_root config.working_dir)
      config.user btree_end

-- `join` is `shell_words::join`; the timeout is in seconds.
abbrev pub service_from_oci : (List Text → Text) → OciConfig → ServiceConfig
service_from_oci join config = record {
  entrypoint =
      codes "exec " ++ join (unwrap_or_default config.entrypoint ++ unwrap_or_default config.cmd);
  healthcheck = (codes "exit 0", 1);
}

abbrev pub default : ServiceConfig
default = record {
  entrypoint = codes "while true; do sleep 1; done";
  healthcheck = (codes "exit 0", 1);
}

abbrev pub set_healthcheck : Text → ℕ → ServiceConfig → ServiceConfig
set_healthcheck command timeout config = record config { healthcheck = (command, timeout) }

abbrev pub get_service_config : ServiceState → ServiceConfig
get_service_config (service_state container config) = config

abbrev pub update_service_config : (ServiceConfig → ServiceConfig) → ServiceState → ServiceState
update_service_config update (service_state container config) =
    service_state container (update config)

abbrev pub get_config : ContainerState → ContainerConfig
get_config (container_state snapshot config) = config

abbrev pub update_config : (ContainerConfig → ContainerConfig) → ContainerState → ContainerState
update_config update (container_state snapshot config) = container_state snapshot (update config)

abbrev pub into_service : Text → ContainerState → ServiceState
into_service entrypoint state = service_state state (record default { entrypoint = entrypoint })
