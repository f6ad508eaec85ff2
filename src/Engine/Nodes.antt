-- ===== src/Engine/Nodes.antt =====
-- serpentine/src/engine/nodes.rs: the node implementations, how calls of them are typed, and how
-- `Wrap` takes its arguments out of `Data`.
pub mod Cached
pub mod Caching
pub mod Inputs
pub mod Answers
pub mod Typing
use serpentine.Prelude.{
  ℕ, suc, ◌+◌, String, Bool, true, false, not, ◌&&◌, ◌||◌, Option, none, some, List, [], ◌∷◌,
  length, nat_eq, ◌++◌, ◌==◌, if◌then◌else◌,
}
use serpentine.Prelude.Outcome.{Outcome, ok, err, panic, out_of_fuel, bind}
use serpentine.Prelude.Text.{Text}
use serpentine.Engine.Container.{ContainerState, ServiceState}
use serpentine.Engine.DataModel.{
  ℤ, DataType, Data, FileSystem, describe, type_, type_eq, is_cacheable,
}

-- How an expected number of arguments is written: "n", "n+" and "m-n".
pub data Count : Type 0 where
  exactly at_least : ℕ → Count
  between : ℕ → ℕ → Count

pub data ReturnTypeError : Type 0 where
  type_mismatch : String → String → ℕ → ReturnTypeError
  argument_count_mismatch : Count → ℕ → ReturnTypeError

-- The types that implement `RawData`.
pub data RawType : Type 0 where
  int string container file_system service container_like : RawType

-- `RawData::KIND`
unfoldable pub raw_kind : RawType → DataType
raw_kind RawType.int = DataType.int
raw_kind RawType.string = DataType.string
raw_kind RawType.container = DataType.container
raw_kind RawType.file_system = DataType.file_system
raw_kind RawType.service = DataType.service
raw_kind RawType.container_like = DataType.container

-- `RawData::accepts`
unfoldable pub accepts : RawType → DataType → Bool
unfolding raw_kind
accepts RawType.container_like t = (t == DataType.container) || (t == DataType.service)
accepts r t = t == raw_kind r

pub data ContainerLike : Type 0 where
  container : ContainerState → ContainerLike
  service : ServiceState → ContainerLike

-- The values of a raw type.
abbrev pub Raw : Type 0 → RawType → Type 0
Raw P RawType.int = ℤ
Raw P RawType.string = Text
Raw P RawType.container = ContainerState
Raw P RawType.file_system = FileSystem P
Raw P RawType.service = ServiceState
Raw P RawType.container_like = ContainerLike

module _ {P : Type 0} where
  unfoldable pub from_data : (r : RawType) → Data P → Option (Raw P r)
  from_data RawType.int (Data.int n) = some n
  from_data RawType.string (Data.string s) = some s
  from_data RawType.container (Data.container c) = some c
  from_data RawType.file_system (Data.file_system fs) = some fs
  from_data RawType.service (Data.service s) = some s
  from_data RawType.container_like (Data.container c) = some (container c)
  from_data RawType.container_like (Data.service s) = some (service s)
  from_data _ _ = none

  unfoldable pub into_data : (r : RawType) → Raw P r → Data P
  into_data RawType.int n = Data.int n
  into_data RawType.string s = Data.string s
  into_data RawType.container c = Data.container c
  into_data RawType.file_system fs = Data.file_system fs
  into_data RawType.service s = Data.service s
  into_data RawType.container_like (container c) = Data.container c
  into_data RawType.container_like (service s) = Data.service s

-- `Wrap`, less its function: the argument types, the return type and the two flags.
pub record Wrap : Type 0 where
  pub parameters : List RawType
  pub result : RawType
  pub passthrough_return : Bool
  pub cache : Bool

pub data NodeImpl (P : Type 0) : Type 0 where
  noop all join : NodeImpl P
  literal : Data P → NodeImpl P
  wrap : Wrap → NodeImpl P

module _ {P : Type 0} where
  unfoldable pub should_be_cached : NodeImpl P → Bool
  should_be_cached (wrap w) = w.cache && is_cacheable (raw_kind w.result)
  should_be_cached _ = false

-- The macro's loop over the parameters; what it returns early is `some`.
unfoldable pub check_arguments : List RawType → List DataType → ℕ → Option ReturnTypeError
check_arguments (r ∷ rs) (t ∷ ts) index =
    let rest = check_arguments rs ts (index + 1) in
    if accepts r t then rest else some (type_mismatch (describe (raw_kind r)) (describe t) index)
check_arguments _ _ index = none

-- `first_type`, the type of the first argument that the loop has seen.
unfoldable pub passthrough_type : List DataType → Outcome ReturnTypeError DataType
passthrough_type [] = err (argument_count_mismatch (at_least 1) 0)
passthrough_type (t ∷ ts) = ok t

unfoldable pub wrap_return_type : Wrap → List DataType → Outcome ReturnTypeError DataType
unfolding check_arguments passthrough_type
wrap_return_type w arguments =
    if not (length arguments == length w.parameters)
    then err (argument_count_mismatch (exactly (length w.parameters)) (length arguments))
    else elim (check_arguments w.parameters arguments 0) [
      | some e ↦ err e
      | none ↦ if w.passthrough_return then passthrough_type arguments else ok (raw_kind w.result)
    ]

-- The loop of `Join`.
unfoldable pub check_strings : List DataType → ℕ → Outcome ReturnTypeError DataType
check_strings [] index = ok DataType.string
check_strings (t ∷ ts) index =
    let rest = check_strings ts (index + 1) in
    if t == DataType.string
    then rest
    else err (type_mismatch (describe DataType.string) (describe t) index)

unfoldable pub noop_return_type : List DataType → Outcome ReturnTypeError DataType
noop_return_type (t ∷ []) = ok t
noop_return_type ts = err (argument_count_mismatch (exactly 1) (length ts))

module _ {P : Type 0} where
  unfoldable pub return_type : NodeImpl P → List DataType → Outcome ReturnTypeError DataType
  unfolding noop_return_type passthrough_type check_strings wrap_return_type
  return_type noop ts = noop_return_type ts
  return_type all ts = passthrough_type ts
  return_type join ts = check_strings ts 0
  return_type (literal d) ts = ok (type_ d)
  return_type (wrap w) ts = wrap_return_type w ts

-- What a run reports as an internal error.
pub data RuntimeError : Type 0 where
  missing_arguments type_mismatch_at_runtime : RuntimeError

-- A tuple of values, one of each raw type.
abbrev pub Raws : Type 0 → List RawType → Type 0
Raws P [] = Unit
Raws P (r ∷ rs) = Raw P r × Raws P rs

-- What `execute` fails with: an internal error, or the error `E` of the wrapped function.
pub data ExecuteError (E : Type 0) : Type 0 where
  internal : RuntimeError → ExecuteError E
  failed : E → ExecuteError E

module _ {P E : Type 0} where
  -- One `inputs.next()` for each parameter.
  unfoldable pub next_arguments :
      List RawType → List (Data P) → Outcome (ExecuteError E) (List (Data P))
  next_arguments [] inputs = ok []
  next_arguments (r ∷ rs) [] = err (internal missing_arguments)
  next_arguments (r ∷ rs) (d ∷ ds) = bind (next_arguments rs ds) λ rest. ok (d ∷ rest)

  unfoldable pub convert_arguments :
      (rs : List RawType) → List (Data P) → Outcome (ExecuteError E) (Raws P rs)
  convert_arguments [] ds = ok tt
  convert_arguments (r ∷ rs) [] = err (internal missing_arguments)
  convert_arguments (r ∷ rs) (d ∷ ds) = elim (from_data r d) [
    | none ↦ err (internal type_mismatch_at_runtime)
    | some v ↦ bind (convert_arguments rs ds) λ vs. ok (v, vs)
  ]

  -- What the function returned goes back into `Data`.
  abbrev pub wrapped : (r : RawType) → Outcome E (Raw P r) → Outcome (ExecuteError E) (Data P)
  wrapped r (ok v) = ok (into_data r v)
  wrapped r (err e) = err (failed e)
  wrapped r panic = panic
  wrapped r out_of_fuel = out_of_fuel

  -- `execute` of `Wrap` around a function.
  unfoldable pub wrap_execute :
      (w : Wrap)
      → (Raws P w.parameters → Outcome E (Raw P w.result))
      → List (Data P)
      → Outcome (ExecuteError E) (Data P)
  unfolding next_arguments convert_arguments
  wrap_execute w function inputs = bind (next_arguments w.parameters inputs) λ arguments.
      bind (convert_arguments w.parameters arguments) λ raws. wrapped w.result (function raws)

  unfoldable pub first_input : List (Data P) → Outcome (ExecuteError E) (Data P)
  first_input [] = err (internal missing_arguments)
  first_input (d ∷ ds) = ok d

  -- `Join` pushes the strings onto one another.
  unfoldable pub join_strings : Text → List (Data P) → Outcome (ExecuteError E) (Data P)
  join_strings result [] = ok (Data.string result)
  join_strings result (Data.string s ∷ ds) = join_strings (result ++ s) ds
  join_strings result (_ ∷ ds) = err (internal type_mismatch_at_runtime)

  -- `NodeImpl::execute`; the functions inside the `Wrap`s are given by `functions`.
  unfoldable pub execute :
      ((w : Wrap) → Raws P w.parameters → Outcome E (Raw P w.result))
      → NodeImpl P
      → List (Data P)
      → Outcome (ExecuteError E) (Data P)
  unfolding first_input join_strings wrap_execute
  execute functions noop inputs = first_input inputs
  execute functions all inputs = first_input inputs
  execute functions join inputs = join_strings [] inputs
  execute functions (literal d) inputs = ok d
  execute functions (wrap w) inputs = wrap_execute w (functions w) inputs

-- Abbreviations for the entries of `prelude`.
fixed : List RawType → RawType → Bool → Wrap
fixed rs r cache = record { parameters = rs; result = r; passthrough_return = false; cache = cache }

passthrough : List RawType → Bool → Wrap
passthrough rs cache = record {
  parameters = rs;
  result = RawType.container_like;
  passthrough_return = true;
  cache = cache;
}

-- The names of the nodes that every module sees, with their implementations.
module _ {P : Type 0} where
  unfoldable pub prelude : List (String × NodeImpl P)
  unfolding fixed passthrough
  prelude =
      ("Noop", noop)
      ∷ ("Image", wrap (fixed (RawType.string ∷ []) RawType.container true))
      ∷ ("ImageService", wrap (fixed (RawType.string ∷ []) RawType.service true))
      ∷ ("Exec", wrap (passthrough (RawType.container_like ∷ RawType.string ∷ []) true))
      ∷ (
        "ExecOutput",
        wrap (fixed (RawType.container_like ∷ RawType.string ∷ []) RawType.string true),
      )
      ∷ ("FromHost", wrap (fixed (RawType.string ∷ []) RawType.file_system false))
      ∷ (
        "Export",
        wrap (fixed (RawType.container_like ∷ RawType.string ∷ []) RawType.file_system false),
      )
      ∷ ("ToHost", wrap (fixed (RawType.file_system ∷ RawType.string ∷ []) RawType.int false))
      ∷ (
        "With",
        wrap
            (passthrough (RawType.container_like ∷ RawType.file_system ∷ RawType.string ∷ []) true),
      )
      ∷ ("WorkingDir", wrap (passthrough (RawType.container_like ∷ RawType.string ∷ []) false))
      ∷ (
        "Env",
        wrap (passthrough (RawType.container_like ∷ RawType.string ∷ RawType.string ∷ []) false),
      )
      ∷ ("GetEnv", wrap (fixed (RawType.container_like ∷ RawType.string ∷ []) RawType.string false))
      ∷ ("User", wrap (passthrough (RawType.container_like ∷ RawType.string ∷ []) false))
      ∷ ("Join", join)
      ∷ ("All", all)
      ∷ ("ToService", wrap (fixed (RawType.container ∷ RawType.string ∷ []) RawType.service false))
      ∷ (
        "WithService",
        wrap (passthrough (RawType.container_like ∷ RawType.service ∷ RawType.string ∷ []) false),
      )
      ∷ (
        "HealthCheck",
        wrap (fixed (RawType.service ∷ RawType.string ∷ RawType.int ∷ []) RawType.service false),
      )
      ∷ ("ShellEscape", wrap (fixed (RawType.string ∷ []) RawType.string false))
      ∷ []
