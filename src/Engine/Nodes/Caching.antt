-- ===== src/Engine/Nodes/Caching.antt =====
-- nodes.rs: `should_be_cached` of the nodes of `prelude`, and their results.
use serpentine.Prelude.{
  String, if◌then◌else◌, ℕ, get_elem?, All-get_elem?, ◌≡◌, ◌≢◌, refl, subst, Bool, true, false,
  none, some, List, [], ◌∷◌, map, All, arith,
}
use serpentine.Prelude.Outcome.{Outcome, ok}
use serpentine.Engine.DataModel.{DataType, Data, type_, cacheable, is_cacheable}
use serpentine.Engine.Nodes.{
  RawType, Raw, Raws, Wrap, NodeImpl, wrap, accepts, raw_kind, should_be_cached, wrap_return_type,
  passthrough_type, return_type, execute, prelude, fixed, passthrough,
}
use serpentine.Engine.Nodes.Typing.{
  Accepted, wrap_return_type-Accepted, wrap_return_type-last, Keeps, Behaves, execute-Behaves,
}

-- The parameter of a `Wrap` that gives the type of its result takes only cacheable types.
abbrev KeepsCacheable : List RawType → Bool → RawType → Type 0
KeepsCacheable rs false r = is_cacheable (raw_kind r) ≡ true
KeepsCacheable [] true r = Unit
KeepsCacheable (RawType.file_system ∷ rs) true r = ⊥
KeepsCacheable (_ ∷ rs) true r = Unit

accepts_cacheable :
    (r : RawType) (rs : List RawType) (k : RawType) (t : DataType)
    → KeepsCacheable (r ∷ rs) true k
    → accepts r t ≡ true
    → is_cacheable t ≡ true
unfolding accepts is_cacheable raw_kind
accepts_cacheable RawType.file_system rs k t h e = absurd h
accepts_cacheable _ rs k DataType.file_system h e = ground arith
accepts_cacheable _ rs k _ h e = refl

wrap_cacheable :
    (w : Wrap) (ts : List DataType) {τ : DataType}
    → KeepsCacheable w.parameters w.passthrough_return w.result
    → wrap_return_type w ts ≡ ok τ
    → is_cacheable τ ≡ true
unfolding passthrough_type
wrap_cacheable w ts {τ} safe h =
    go w.parameters ts w.passthrough_return safe (wrap_return_type-Accepted w ts h)
      (wrap_return_type-last w ts h)
  where
    go :
        (rs : List RawType) (ts : List DataType) (b : Bool)
        → KeepsCacheable rs b w.result
        → Accepted rs ts
        → (if b then passthrough_type ts else ok (raw_kind w.result)) ≡ ok τ
        → is_cacheable τ ≡ true
    go rs ts false safe a h =
        let e : raw_kind w.result ≡ τ = cc in subst (λ k. is_cacheable k ≡ true) e safe
    go [] [] true safe a h = cc
    go [] (t ∷ ts) true safe a h = absurd a
    go (r ∷ rs) [] true safe a h = absurd a
    go (r ∷ rs) (t ∷ ts) true safe a h =
        let e : t ≡ τ = cc in
        subst (λ k. is_cacheable k ≡ true) e (accepts_cacheable r rs w.result t safe a.0)

module _ {P : Type 0} where
  abbrev IsSafe : NodeImpl P → Type 0
  IsSafe (wrap w) = KeepsCacheable w.parameters w.passthrough_return w.result
  IsSafe _ = Unit

  -- A value of a cacheable type has a cacheable form.
  cacheable-ne-none : (d : Data P) → is_cacheable (type_ d) ≡ true → cacheable d ≢ none
  unfolding cacheable is_cacheable type_
  cacheable-ne-none (Data.file_system fs) h = λ _. cc
  cacheable-ne-none _ h = λ e. cc

prelude-IsSafe :
    (P : Type 0)
    → All {A = String × NodeImpl P}
        (λ (name, impl). should_be_cached impl ≡ true → IsSafe impl)
        prelude
unfolding prelude should_be_cached is_cacheable raw_kind fixed passthrough
prelude-IsSafe P = (
  λ e. tt,
  (
    λ e. refl,
    (
      λ e. refl,
      (
        λ e. tt,
        (
          λ e. refl,
          (
            λ e. cc,
            (
              λ e. cc,
              (
                λ e. refl,
                (
                  λ e. tt,
                  (
                    λ e. tt,
                    (
                      λ e. tt,
                      (
                        λ e. refl,
                        (
                          λ e. tt,
                          (
                            λ e. tt,
                            (λ e. tt, (λ e. refl, (λ e. tt, (λ e. refl, (λ e. refl, tt))))),
                          ),
                        ),
                      ),
                    ),
                  ),
                ),
              ),
            ),
          ),
        ),
      ),
    ),
  ),
)

module _ {P : Type 0} where
  return_type-cacheable :
      (impl : NodeImpl P) (ds : List (Data P)) {τ : DataType} (d : Data P)
      → IsSafe impl
      → should_be_cached impl ≡ true
      → return_type impl (map type_ ds) ≡ ok τ
      → type_ d ≡ τ
      → is_cacheable (type_ d) ≡ true
  unfolding return_type should_be_cached
  return_type-cacheable (wrap w) ds d safe cached h e =
      rw e (wrap_cacheable w (map type_ ds) safe h)
  return_type-cacheable _ ds d safe cached h e = cc

module _ {P E : Type 0} where
  -- Whatever the `prelude` caches can be cached: where a node of `prelude` asks for its result to be
  -- cached, a call of it type checks at the types of its inputs, the wrapped functions keep the
  -- promise of their `Wrap`, and the execution returns a value, that value has a cacheable form.
  pub prelude-cacheable :
      (functions : (w : Wrap) → Raws P w.parameters → Outcome E (Raw P w.result))
      → Keeps functions
      → (i : ℕ) {name : String} {impl : NodeImpl P} (ds : List (Data P)) {τ : DataType} {d : Data P}
      → get_elem? (prelude {P = P}) i ≡ some (name, impl)
      → should_be_cached impl ≡ true
      → return_type impl (map type_ ds) ≡ ok τ
      → execute functions impl ds ≡ ok d
      → cacheable d ≢ none
  prelude-cacheable functions keeps i {impl = impl} ds {τ} {d} here cached typed run =
      let safe : should_be_cached impl ≡ true → IsSafe impl =
        All-get_elem? _ prelude i (prelude-IsSafe P) here in
      cacheable-ne-none d (
        return_type-cacheable impl ds d (safe cached) cached typed
          (subst (λ o. Behaves τ o) run (execute-Behaves functions keeps impl ds typed)))
