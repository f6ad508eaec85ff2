-- ===== src/Engine/Nodes/Typing.antt =====
-- nodes.rs: `return_type` compared with `execute`, and how inputs are taken out of `Data`.
use serpentine.Prelude.{
  ℕ, suc, ◌≡◌, refl, ap, Bool, true, false, Option, none, some, List, [], ◌++◌, ◌∷◌, length, map,
  arith, if◌then◌else◌,
}
use mathlib.Core.Path.{sym, ◌∙◌}
use serpentine.Prelude.Outcome.{Outcome, ok, err, panic, out_of_fuel}
use serpentine.Prelude.Text.{Text}
use serpentine.Engine.DataModel.{DataType, Data, type_}
use serpentine.Engine.Nodes.{
  RawType, Raw, Raws, Wrap, NodeImpl, noop, all, join, literal, wrap, ExecuteError, internal,
  failed, accepts, raw_kind, from_data, into_data, check_arguments, check_strings, wrap_return_type,
  passthrough_type, return_type, next_arguments, convert_arguments, wrap_execute, wrapped,
  join_strings, execute, ContainerLike,
}

abbrev pub is_some {ℓ} : {A : Type ℓ} → Option A → Bool
is_some none = false
is_some (some _) = true

-- The arguments are as many as the parameters, and each is accepted.
abbrev pub Accepted : List RawType → List DataType → Type 0
Accepted [] [] = Unit
Accepted (r ∷ rs) (t ∷ ts) = (accepts r t ≡ true) × Accepted rs ts
Accepted _ _ = ⊥

module _ {P : Type 0} where
  -- A value is taken out of `Data` at run time exactly when its type is accepted at compile time.
  pub from_data-accepts : (r : RawType) (d : Data P) → is_some (from_data r d) ≡ accepts r (type_ d)
  unfolding from_data accepts type_
  from_data-accepts RawType.int = elim [ Data.int _ ↦ refl | _ ↦ refl ]
  from_data-accepts RawType.string = elim [ Data.string _ ↦ refl | _ ↦ refl ]
  from_data-accepts RawType.container = elim [ Data.container _ ↦ refl | _ ↦ refl ]
  from_data-accepts RawType.file_system = elim [ Data.file_system _ ↦ refl | _ ↦ refl ]
  from_data-accepts RawType.service = elim [ Data.service _ ↦ refl | _ ↦ refl ]
  from_data-accepts RawType.container_like = elim [ Data.container _ ↦ refl | _ ↦ refl ]

  wrap_or : Data P → Option ContainerLike → Data P
  wrap_or d none = d
  wrap_or d (some v) = into_data RawType.container_like v

  -- What is taken out of `Data`, where it can be, goes back into `Data` as it was.
  pub into_data-from_data :
      (r : RawType) {v : Raw P r} (d : Data P) → from_data r d ≡ some v → into_data r v ≡ d
  unfolding from_data into_data wrap_or
  into_data-from_data RawType.int = elim [ Data.int _ ↦ λ h. cc | _ ↦ λ h. cc ]
  into_data-from_data RawType.string = elim [ Data.string _ ↦ λ h. cc | _ ↦ λ h. cc ]
  into_data-from_data RawType.container = elim [ Data.container _ ↦ λ h. cc | _ ↦ λ h. cc ]
  into_data-from_data RawType.file_system = elim [ Data.file_system _ ↦ λ h. cc | _ ↦ λ h. cc ]
  into_data-from_data RawType.service = elim [ Data.service _ ↦ λ h. cc | _ ↦ λ h. cc ]
  into_data-from_data RawType.container_like = elim [
    | Data.container c ↦ λ h. ap (wrap_or (Data.container c)) (sym h)
    | Data.service s ↦ λ h. ap (wrap_or (Data.service s)) (sym h)
    | _ ↦ λ h. cc
  ]

check_arguments-Accepted :
    (rs : List RawType) (ts : List DataType) (i : ℕ)
    → length ts ≡ length rs
    → check_arguments rs ts i ≡ none
    → Accepted rs ts
unfolding check_arguments
check_arguments-Accepted [] [] i l h = tt
check_arguments-Accepted [] (t ∷ ts) i l h = absurd (omega arith)
check_arguments-Accepted (r ∷ rs) [] i l h = absurd (omega arith)
check_arguments-Accepted (r ∷ rs) (t ∷ ts) i l h =
    (ground arith, check_arguments-Accepted rs ts (suc i) (omega arith) (ground arith))

pub wrap_return_type-Accepted :
    (w : Wrap) (ts : List DataType) {τ : DataType}
    → wrap_return_type w ts ≡ ok τ
    → Accepted w.parameters ts
unfolding wrap_return_type
wrap_return_type-Accepted w ts h =
    check_arguments-Accepted w.parameters ts 0 (ground arith) (ground arith)

pub wrap_return_type-last :
    (w : Wrap) (ts : List DataType) {τ : DataType}
    → wrap_return_type w ts ≡ ok τ
    → (if w.passthrough_return then passthrough_type ts else ok (raw_kind w.result)) ≡ ok τ
unfolding wrap_return_type
wrap_return_type-last w ts h = ground arith

-- The type that `Wrap` promises: that of its first argument if it passes through.
abbrev pub promised : (P : Type 0) (rs : List RawType) → Raws P rs → Bool → DataType → DataType
promised P [] vs b kind = kind
promised P (r ∷ rs) (v, vs) true kind = type_ (into_data r v)
promised P (r ∷ rs) (v, vs) false kind = kind

-- No internal error, and a value has the type.
abbrev pub Behaves : {P E : Type 0} → DataType → Outcome (ExecuteError E) (Data P) → Type 0
Behaves τ (ok d) = type_ d ≡ τ
Behaves τ (err (internal e)) = ⊥
Behaves τ (err (failed e)) = Unit
Behaves τ panic = Unit
Behaves τ out_of_fuel = Unit

module _ {P : Type 0} where
  -- The values are those of the data, one by one.
  abbrev Unwraps : (rs : List RawType) → Raws P rs → List (Data P) → Type 0
  Unwraps [] vs ds = Unit
  Unwraps (r ∷ rs) vs [] = ⊥
  Unwraps (r ∷ rs) (v, vs) (d ∷ ds) = (into_data r v ≡ d) × Unwraps rs vs ds

  first_type-promised :
      (rs : List RawType) (vs : Raws P rs) (ds : List (Data P)) (b : Bool) (kind : DataType)
      {τ : DataType}
      → Accepted rs (map type_ ds)
      → Unwraps rs vs ds
      → (if b then passthrough_type (map type_ ds) else ok kind) ≡ ok τ
      → promised P rs vs b kind ≡ τ
  unfolding passthrough_type
  first_type-promised [] vs [] true kind a u h = cc
  first_type-promised [] vs [] false kind a u h = cc
  first_type-promised [] vs (d ∷ ds) b kind a u h = absurd a
  first_type-promised (r ∷ rs) vs [] b kind a u h = absurd a
  first_type-promised (r ∷ rs) vs (d ∷ ds) true kind a u h = cc (ap type_ u.0)
  first_type-promised (r ∷ rs) vs (d ∷ ds) false kind a u h = cc

module _ {P : Type 0} (E : Type 0) where
  check_strings-Behaves :
      (result : Text) (ds : List (Data P)) (i : ℕ) {τ : DataType}
      → check_strings (map type_ ds) i ≡ ok τ
      → Behaves {E = E} τ (join_strings result ds)
  unfolding check_strings join_strings type_
  check_strings-Behaves result [] i h = cc
  check_strings-Behaves result (Data.string s ∷ ds) i h =
      check_strings-Behaves (result ++ s) ds (suc i) (ground arith)
  check_strings-Behaves result (_ ∷ ds) i h = ground arith

module _ {P E : Type 0} where
  -- Neither step over the inputs fails.
  next_arguments-ok :
      (rs : List RawType) (ds : List (Data P))
      → Accepted rs (map type_ ds)
      → next_arguments {E = E} rs ds ≡ ok ds
  unfolding next_arguments
  next_arguments-ok [] [] h = refl
  next_arguments-ok [] (d ∷ ds) h = absurd h
  next_arguments-ok (r ∷ rs) [] h = absurd h
  next_arguments-ok (r ∷ rs) (d ∷ ds) h = rw (next_arguments-ok rs ds h.1)

  convert_arguments-ok :
      (rs : List RawType) (ds : List (Data P))
      → Accepted rs (map type_ ds)
      → (vs : Raws P rs) × (convert_arguments {E = E} rs ds ≡ ok vs) × Unwraps rs vs ds
  unfolding convert_arguments
  convert_arguments-ok [] ds h = (tt, refl, tt)
  convert_arguments-ok (r ∷ rs) [] h = absurd h
  convert_arguments-ok (r ∷ rs) (d ∷ ds) h =
      go (from_data r d) refl (convert_arguments-ok rs ds h.1)
    where
      go :
          (o : Option (Raw P r))
          → from_data r d ≡ o
          → (vs : Raws P rs) × (convert_arguments {E = E} rs ds ≡ ok vs) × Unwraps rs vs ds
          → (vs : Raws P (r ∷ rs)) × (convert_arguments {E = E} (r ∷ rs) (d ∷ ds) ≡ ok vs)
            × Unwraps (r ∷ rs) vs (d ∷ ds)
      go none e rest = cc (from_data-accepts r d, h.0)
      go (some v) e (vs, p, u) =
          ((v, vs), rw (e, convert_arguments) (rw p), (into_data-from_data r d e, u))

  wrap_execute-Behaves :
      (w : Wrap) (function : Raws P w.parameters → Outcome E (Raw P w.result)) (ds : List (Data P))
      {τ : DataType}
      → ((vs : Raws P w.parameters) (v : Raw P w.result)
          → function vs ≡ ok v
          → type_ (into_data w.result v)
            ≡ promised P w.parameters vs w.passthrough_return (raw_kind w.result))
      → wrap_return_type w (map type_ ds) ≡ ok τ
      → Behaves τ (wrap_execute w function ds)
  unfolding wrap_execute
  wrap_execute-Behaves w function ds {τ} keeps h =
      let a = wrap_return_type-Accepted w (map type_ ds) h in
      let (vs, p, u) = convert_arguments-ok w.parameters ds a in
      rw (next_arguments-ok w.parameters ds a) (rw p (go vs u (function vs) refl))
    where
      go :
          (vs : Raws P w.parameters)
          → Unwraps w.parameters vs ds
          → (o : Outcome E (Raw P w.result)) → function vs ≡ o
          → Behaves τ (wrapped w.result o)
      go vs u (ok v) e =
          keeps vs v e
          ∙ first_type-promised w.parameters vs ds w.passthrough_return (raw_kind w.result)
              (wrap_return_type-Accepted w (map type_ ds) h) u
              (wrap_return_type-last w (map type_ ds) h)
      go vs u (err x) e = tt
      go vs u panic e = tt
      go vs u out_of_fuel e = tt

  -- The wrapped functions keep the promise of their `Wrap`.
  abbrev pub Keeps : ((w : Wrap) → Raws P w.parameters → Outcome E (Raw P w.result)) → Type 0
  Keeps functions =
      (w : Wrap) (vs : Raws P w.parameters) (v : Raw P w.result)
      → functions w vs ≡ ok v
      → type_ (into_data w.result v)
        ≡ promised P w.parameters vs w.passthrough_return (raw_kind w.result)

  -- Where a call type checks at the types of its inputs, with wrapped functions that keep the
  -- promise of their `Wrap`, `execute` raises no internal error, and a value that it returns has the
  -- type that the check gave.
  pub execute-Behaves :
      (functions : (w : Wrap) → Raws P w.parameters → Outcome E (Raw P w.result))
      → Keeps functions
      → (impl : NodeImpl P) (ds : List (Data P)) {τ : DataType}
      → return_type impl (map type_ ds) ≡ ok τ
      → Behaves τ (execute functions impl ds)
  unfolding return_type execute
  execute-Behaves functions keeps noop [] h = cc
  execute-Behaves functions keeps noop (d ∷ []) h = cc
  execute-Behaves functions keeps noop (d ∷ e ∷ ds) h = cc
  execute-Behaves functions keeps all [] h = cc
  execute-Behaves functions keeps all (d ∷ ds) h = cc
  execute-Behaves functions keeps join ds h = check_strings-Behaves E [] ds 0 h
  execute-Behaves functions keeps (literal d) ds h = cc
  execute-Behaves functions keeps (wrap w) ds h =
      wrap_execute-Behaves w (functions w) ds (keeps w) h
