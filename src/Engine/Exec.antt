-- ===== src/Engine/Exec.antt =====
-- exec.rs: what one container is started with. The calls of containerd and of the sidecar are
-- parameters: `Calls` holds what they answer to one container, whatever else happens meanwhile.
pub mod Starting
pub mod Stopping
pub mod Running
pub mod Executes
pub mod Renames
use serpentine.Prelude.{
  ℕ, zero, suc, ◌⊎◌, inl, inr, String, Bool, true, false, Option, none, some, List, [], ◌∷◌, ◌++◌,
  map, ◌==◌, nat_eq, if◌then◌else◌,
}
use serpentine.Prelude.Text.{Text, codes}
use serpentine.Prelude.Outcome.{Outcome, ok, err, panic, out_of_fuel, bind}
use serpentine.Engine.UserDb.{User, UserNotFound, parse_user, parse_passwd, parse_group, resolve}
use serpentine.Engine.Container.{ContainerState, container_state, container_config}
use serpentine.Engine.Container.Config.{Env}

-- `external` is an error of a call, `reader_panicked` and `internal` are the code's internal errors.
pub data ExecError (E : Type 0) : Type 0 where
  external : E → ExecError E
  command_failed : ℕ → Text → Text → ExecError E
  non_utf8_capture : Text → ExecError E
  user_not_found : UserNotFound → ExecError E
  unhealthy : Text → ExecError E
  reader_panicked : ExecError E
  internal : String → ExecError E

-- What is set of `oci_spec::runtime::Process`, the constant capabilities left out.
pub record Process : Type 0 where
  pub args : List Text
  pub env : List Text
  pub cwd : Text
  pub user : Option User

-- What differs between the specs of two containers.
pub record Spec : Type 0 where
  pub process : Process
  pub network_namespace : Text
  pub hosts_file : Text

-- The answers to one container; `M` is the type of its mounts, and an answer on the left an error.
pub record Calls (E M : Type 0) : Type 0 where
  pub mutable_snapshot : Text
  pub prepare : Text → Text → E ⊎ M
  pub container_id : Text
  pub read_file : M → Text → E ⊎ Text
  pub write_hosts : Text → E ⊎ Text
  pub create : Text → Text → Spec → E ⊎ Unit {0}
  pub stdout_pipe : E ⊎ Text
  pub stderr_pipe : E ⊎ Text
  pub create_task : Text → M → Text → Text → E ⊎ Unit {0}
  pub start_task : Text → E ⊎ Unit {0}
  -- the runs of the healthcheck until its time is over; none where a run took too long
  pub attempts : ℕ
  pub attempt : ℕ → Text → Process → E ⊎ Option ℕ
  -- after a signal: none where the container did not exit in time
  pub exit_in_time : ℕ → E ⊎ Option ℕ
  pub exit : ℕ → E ⊎ ℕ
  -- the lines of stdout and stderr as they come in, none for one that is not UTF-8; or no answer,
  -- where the reader panicked
  pub output_lines : Option (List (Option Text))
  pub commit : Text → Text → E ⊎ Unit {0}
  pub is_already_exists : E → Bool

unfoldable pub call : {E A : Type 0} → E ⊎ A → Outcome (ExecError E) A
call (inl e) = err (external e)
call (inr a) = ok a

abbrev pub or_user_not_found : {E A : Type 0} → Outcome UserNotFound A → Outcome (ExecError E) A
or_user_not_found (ok a) = ok a
or_user_not_found (err e) = err (user_not_found e)
or_user_not_found panic = panic
or_user_not_found out_of_fuel = out_of_fuel

abbrev push_line : Text → Text → Text
push_line [] line = line
push_line (c ∷ result) line = (c ∷ result) ++ b'\n' ∷ line

-- `strip` removes the escape sequences of terminals. The result is on the left where every line was
-- UTF-8.
unfoldable pub read_lines : (Text → Text) → List (Option Text) → Text → Bool → Text ⊎ Text
read_lines strip [] result success = if success then inl result else inr result
read_lines strip (some line ∷ lines) result success =
    read_lines strip lines (push_line result (strip line)) success
read_lines strip (none ∷ lines) result success =
    read_lines strip lines (push_line result (codes "<<NON_UTF8_ON_LINE>>")) false

unfoldable pub read_stdout : (Text → Text) → List (Option Text) → Text ⊎ Text
unfolding read_lines
read_stdout strip lines = read_lines strip lines [] true

-- The lines of the hosts file, joined; `show_ip` is `Display` of an address.
unfoldable pub hosts_content : (ℕ → Text) → List (Text × ℕ) → Text
hosts_content show_ip [] = codes "127.0.0.1 localhost\n::1 localhost"
hosts_content show_ip ((hostname, ip) ∷ hosts) =
    show_ip ip ++ b'\t' ∷ (hostname ++ b'\n' ∷ hosts_content show_ip hosts)

module _ {E M : Type 0} (calls : Calls E M) where
  unfoldable pub construct_spec_user : M → Text → Outcome (ExecError E) (User × Text)
  unfolding parse_passwd parse_group parse_user resolve
  construct_spec_user mounts user =
      bind (call (calls.read_file mounts (codes "/etc/passwd"))) λ passwd.
        bind (call (calls.read_file mounts (codes "/etc/group"))) λ groups.
          or_user_not_found (resolve (parse_user user) (parse_passwd passwd) (parse_group groups))

  abbrev pub user_and_home : M → Option Text → Outcome (ExecError E) (Option User × Text)
  user_and_home mounts none = ok (none, codes "/root")
  user_and_home mounts (some user) =
      bind (construct_spec_user mounts user) λ (user', home). ok (some user', home)

  unfoldable pub create_container :
      (ℕ → Text)
      → ContainerState
      → Text
      → Text
      → List (Text × ℕ)
      → M
      → Outcome (ExecError E) (Text × Process)
  unfolding construct_spec_user hosts_content
  create_container show_ip
        (container_state snapshot (container_config env working_dir user services)) cmd
        network_namespace hosts mounts =
      bind (user_and_home mounts user) λ (user', home_dir).
        let process : Process = record {
          args = codes "/bin/sh" ∷ codes "-c" ∷ cmd ∷ [];
          env =
              map (λ (var : Text × Text). var.0 ++ b'=' ∷ var.1) env
              ++ (codes "HOME=" ++ home_dir) ∷ [];
          cwd = working_dir;
          user = user';
        } in
        bind (call (calls.write_hosts (hosts_content show_ip hosts))) λ hosts_file.
          bind
            (call (
              calls.create calls.container_id snapshot (record {
                process = process;
                network_namespace = network_namespace;
                hosts_file = hosts_file;
              })))
            λ _. ok (calls.container_id, process)

  abbrev pub exit_code_or_late : Option ℕ → ℕ
  exit_code_or_late none = 255
  exit_code_or_late (some code) = code

  -- One run of the healthcheck.
  unfoldable pub healthcheck_run : ℕ → Text → Process → Text → Outcome (ExecError E) (Unit {0})
  healthcheck_run i container_id base_process command =
      let args = codes "/bin/sh" ∷ codes "-c" ∷ command ∷ [] in
      bind (call (calls.attempt i container_id (record base_process { args = args })))
        λ exit. if exit_code_or_late exit == 0 then ok tt else err (unhealthy command)

  -- The runs until one succeeds, at least one; the last error otherwise.
  unfoldable pub retry :
      (ℕ → Outcome (ExecError E) (Unit {0})) → ℕ → Outcome (ExecError E) (Unit {0})
  retry run zero = run 0
  retry run (suc n) = elim (run (suc n)) [
    | ok a ↦ ok a
    | err e ↦ retry run n
    | panic ↦ panic
    | out_of_fuel ↦ out_of_fuel
  ]

  unfoldable pub wait_for_command_success : Text → Process → Text → Outcome (ExecError E) (Unit {0})
  unfolding healthcheck_run retry
  wait_for_command_success container_id base_process command =
      retry (λ i. healthcheck_run i container_id base_process command) calls.attempts
