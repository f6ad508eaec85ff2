-- ===== src/Engine/Nodes/Answers.antt =====
-- nodes.rs: what `execute_raw` answers after any calls before it, each in a world of its own: the
-- wrapped functions and the health check may give something else in every call.
use serpentine.Prelude.{
  ℕ, suc, ◌≡◌, refl, sym, ap, subst, Bool, true, false, Option, none, some, List, [], ◌∷◌, ◌++◌,
  get_elem?, ◌∙◌, ◌⊎◌, inl, inr, Bool-cases, if◌then◌else◌,
}
use serpentine.Prelude.Outcome.{Outcome, ok, err, panic, out_of_fuel}
use serpentine.Engine.DataModel.{Data, CacheableData, cacheable, from_cacheable}
use serpentine.Engine.DataModel.Cache.{CachedAs, cacheable-CachedAs}
use serpentine.Engine.Nodes.{Raw, Raws, Wrap, NodeImpl, ExecuteError, execute, should_be_cached}
use serpentine.Engine.Nodes.Cached.{
  Cache, NodeTransition, started, cached, ran, stored, run_and_store, cached_or_run, with_key,
  uncached, reported, execute_raw,
}

-- What a cache promises: after a write it holds what was written, or what it held before.
abbrev pub IsCache : {K S : Type 0} → Cache K S → Type 0
IsCache {K} {S} cache =
    (s : S) (key key' : K) (c d : CacheableData)
    → cache.read_key (cache.write_key s key c) key' ≡ some d
    → (key ≡ key') × (c ≡ d) ⊎ (cache.read_key s key' ≡ some d)

-- What a report says of a node: that its implementation has run.
abbrev has_run : List NodeTransition → Bool
has_run (started ∷ ran ∷ []) = true
has_run _ = false

-- The key and the value of a node that is to be cached, where it has run and returned.
abbrev pub executed :
    {P E K : Type 0}
    → Bool
    → Outcome E K
    → Outcome E (Data P) × List NodeTransition
    → List (K × Data P)
executed true (ok key) (ok d, reports) = if has_run reports then (key, d) ∷ [] else []
executed _ _ _ = []

module _ {P F K S : Type 0} (cache : Cache K S)
    (key_of : ℕ → List (Data P) → Outcome (ExecuteError F) K) where
  abbrev pub Functions : Type 0
  Functions = (w : Wrap) → Raws P w.parameters → Outcome F (Raw P w.result)

  -- The value has been returned by a call with the key.
  abbrev pub IsFrom : List (K × Data P) → K → CacheableData → Type 0
  IsFrom values key c = (i : ℕ) × (get_elem? values i ≡ some (key, from_cacheable c))

  -- The states after calls in a cache that was empty, with the keys and values of those that ran.
  pub data History : S → List (K × Data P) → Type 0 where
    fresh : (s : S) → ((key : K) → cache.read_key s key ≡ none) → History s []
    call :
        {s : S} {values : List (K × Data P)} (functions : Functions)
        (healthcheck : CacheableData → Bool) (node_error : ExecuteError F → ExecuteError F)
        (impl : NodeImpl P) (kind : ℕ) (inputs : List (Data P))
        → History s values
        → History
            (execute_raw cache healthcheck key_of functions node_error impl kind (ok inputs) s).1
            (executed
                (should_be_cached impl)
                (key_of kind inputs)
                (execute_raw cache healthcheck key_of functions node_error impl kind
                  (ok inputs)
                  s).0
              ++ values)

  module _ (functions : Functions) (healthcheck : CacheableData → Bool)
      (node_error : ExecuteError F → ExecuteError F) (impl : NodeImpl P) (kind : ℕ)
      (inputs : List (Data P)) (values : List (K × Data P)) (s : S) where
    -- The node is not to be cached, or its key has no entry that is healthy.
    abbrev pub IsDue : Type 0
    IsDue =
        (should_be_cached impl ≡ false)
        ⊎ (key : K) × (should_be_cached impl ≡ true)
          × (key_of kind inputs ≡ ok key)
          × ((c : CacheableData) → cache.read_key s key ≡ some c → healthcheck c ≡ false)

    -- The answers that a call may give, with its reports and the state of the cache after it.
    pub data Answer : (Outcome (ExecuteError F) (Data P) × List NodeTransition) × S → Type 0 where
      hit :
          (key : K) (c : CacheableData)
          → should_be_cached impl ≡ true
          → key_of kind inputs ≡ ok key
          → cache.read_key s key ≡ some c
          → healthcheck c ≡ true
          → IsFrom values key c
          → Answer ((ok (from_cacheable c), started ∷ cached ∷ []), s)
      ran_and_kept :
          (key : K) (d : Data P) (c : CacheableData)
          → IsDue
          → should_be_cached impl ≡ true
          → key_of kind inputs ≡ ok key
          → execute functions impl inputs ≡ ok d
          → CachedAs d (some c)
          → Answer ((ok d, started ∷ ran ∷ []), cache.write_key s key c)
      ran_only :
          (d : Data P)
          → IsDue
          → execute functions impl inputs ≡ ok d
          → (should_be_cached impl ≡ false) ⊎ (cacheable d ≡ none)
          → Answer ((ok d, started ∷ ran ∷ []), s)
      failed :
          (e : ExecuteError F)
          → IsDue
          → execute functions impl inputs ≡ err e
          → Answer ((err (node_error e), started ∷ ran ∷ []), s)
      panicked : IsDue → execute functions impl inputs ≡ panic → Answer ((panic, started ∷ []), s)
      exhausted :
          IsDue
          → execute functions impl inputs ≡ out_of_fuel
          → Answer ((out_of_fuel, started ∷ []), s)
      not_hashed :
          (e : ExecuteError F)
          → should_be_cached impl ≡ true
          → key_of kind inputs ≡ err e
          → Answer ((err (node_error e), started ∷ ran ∷ []), s)
      hash_panicked :
          should_be_cached impl ≡ true
          → key_of kind inputs ≡ panic
          → Answer ((panic, started ∷ []), s)
      hash_exhausted :
          should_be_cached impl ≡ true
          → key_of kind inputs ≡ out_of_fuel
          → Answer ((out_of_fuel, started ∷ []), s)

    abbrev answer :
        Outcome (ExecuteError F) (Data P × NodeTransition) × S
        → (Outcome (ExecuteError F) (Data P) × List NodeTransition) × S
    answer (result, s') = (reported node_error result, s')

    stored-Answer :
        (key : K) (d : Data P) (o : Option CacheableData)
        → IsDue
        → should_be_cached impl ≡ true
        → key_of kind inputs ≡ ok key
        → execute functions impl inputs ≡ ok d
        → cacheable d ≡ o
        → CachedAs d o
        → Answer ((ok d, started ∷ ran ∷ []), stored cache key o s)
    stored-Answer key d none due wanted hashed run e as_it_is = ran_only d due run (inr e)
    stored-Answer key d (some c) due wanted hashed run e as_it_is =
        ran_and_kept key d c due wanted hashed run as_it_is

    run_and_store-Answer :
        (key : K) (run : Outcome (ExecuteError F) (Data P))
        → IsDue
        → should_be_cached impl ≡ true
        → key_of kind inputs ≡ ok key
        → execute functions impl inputs ≡ run
        → Answer (answer (run_and_store cache healthcheck key run s))
    run_and_store-Answer key (ok d) due wanted hashed e =
        stored-Answer key d (cacheable d) due wanted hashed e refl (cacheable-CachedAs d)
    run_and_store-Answer key (err x) due wanted hashed e = failed x due e
    run_and_store-Answer key panic due wanted hashed e = panicked due e
    run_and_store-Answer key out_of_fuel due wanted hashed e = exhausted due e

    cached_or_run-Answer :
        (key : K) (o : Option CacheableData)
        → ((c : CacheableData) → cache.read_key s key ≡ some c → IsFrom values key c)
        → should_be_cached impl ≡ true
        → key_of kind inputs ≡ ok key
        → cache.read_key s key ≡ o
        → Answer (answer (cached_or_run cache healthcheck key o (execute functions impl inputs) s))
    cached_or_run-Answer key none from wanted hashed e =
        run_and_store-Answer key (execute functions impl inputs)
          (inr (key, wanted, hashed, λ c e'. cc (e, e'))) wanted hashed refl
    cached_or_run-Answer key (some c) from wanted hashed e = elim (Bool-cases (healthcheck c)) [
      | inl healthy ↦ rw healthy (hit key c wanted hashed e healthy (from c e))
      | inr gone ↦
          let other : (d : CacheableData) → cache.read_key s key ≡ some d → healthcheck d ≡ false =
            λ d e'. let same : c ≡ d = cc (e, e') in subst (λ d. healthcheck d ≡ false) same gone in
          rw gone (
            run_and_store-Answer key (execute functions impl inputs)
              (inr (key, wanted, hashed, other)) wanted hashed refl)
    ]

    with_key-Answer :
        (o : Outcome (ExecuteError F) K)
        → ((key : K) (c : CacheableData) → cache.read_key s key ≡ some c → IsFrom values key c)
        → should_be_cached impl ≡ true
        → key_of kind inputs ≡ o
        → Answer (answer (with_key cache healthcheck o (execute functions impl inputs) s))
    with_key-Answer (ok key) from wanted e =
        cached_or_run-Answer key (cache.read_key s key) (from key) wanted e refl
    with_key-Answer (err x) from wanted e = not_hashed x wanted e
    with_key-Answer panic from wanted e = hash_panicked wanted e
    with_key-Answer out_of_fuel from wanted e = hash_exhausted wanted e

    uncached-Answer :
        (run : Outcome (ExecuteError F) (Data P))
        → should_be_cached impl ≡ false
        → execute functions impl inputs ≡ run
        → Answer (answer (uncached run, s))
    uncached-Answer (ok d) direct e = ran_only d (inl direct) e (inl direct)
    uncached-Answer (err x) direct e = failed x (inl direct) e
    uncached-Answer panic direct e = panicked (inl direct) e
    uncached-Answer out_of_fuel direct e = exhausted (inl direct) e

    from-Answer :
        ((key : K) (c : CacheableData) → cache.read_key s key ≡ some c → IsFrom values key c)
        → Answer (execute_raw cache healthcheck key_of functions node_error impl kind (ok inputs) s)
    unfolding execute_raw
    from-Answer from = elim (Bool-cases (should_be_cached impl)) [
      | inl wanted ↦ rw wanted (with_key-Answer (key_of kind inputs) from wanted refl)
      | inr direct ↦ rw direct (uncached-Answer (execute functions impl inputs) direct refl)
    ]

  -- The entries after an answer come from what has run before or now.
  Answer-IsFrom :
      IsCache cache
      → (functions : Functions) (healthcheck : CacheableData → Bool)
        (node_error : ExecuteError F → ExecuteError F) (impl : NodeImpl P) (kind : ℕ)
        (inputs : List (Data P)) (values : List (K × Data P)) (s : S)
        {x : (Outcome (ExecuteError F) (Data P) × List NodeTransition) × S}
      → ((key : K) (c : CacheableData) → cache.read_key s key ≡ some c → IsFrom values key c)
      → Answer functions healthcheck node_error impl kind inputs values s x
      → (key : K) (c : CacheableData) → cache.read_key x.1 key ≡ some c
      → IsFrom (executed (should_be_cached impl) (key_of kind inputs) x.0 ++ values) key c
  Answer-IsFrom law functions healthcheck node_error impl kind inputs values s from a key c read =
      go a read
    where
      older : (new : List (K × Data P)) → IsFrom values key c → IsFrom (new ++ values) key c
      older [] old = old
      older (x ∷ new) old = let (i, there) = older new old in (suc i, there)

      go :
          {x : (Outcome (ExecuteError F) (Data P) × List NodeTransition) × S}
          → Answer functions healthcheck node_error impl kind inputs values s x
          → cache.read_key x.1 key ≡ some c
          → IsFrom (executed (should_be_cached impl) (key_of kind inputs) x.0 ++ values) key c
      go (hit k d wanted hashed there healthy old) read = older _ (from key c read)
      go (ran_and_kept k d e due wanted hashed run as_it_is) read = elim (law s k key e c read) [
        | inl (same, is) ↦
            let value : from_cacheable c ≡ d = ap from_cacheable (sym is) ∙ as_it_is.1 in
            rw (wanted, hashed) (0, cc (same, value))
        | inr old ↦ older _ (from key c old)
      ]
      go (ran_only d due run why) read = older _ (from key c read)
      go (failed e due run) read = older _ (from key c read)
      go (panicked due run) read = older _ (from key c read)
      go (exhausted due run) read = older _ (from key c read)
      go (not_hashed e wanted hashed) read = older _ (from key c read)
      go (hash_panicked wanted hashed) read = older _ (from key c read)
      go (hash_exhausted wanted hashed) read = older _ (from key c read)

  History-IsFrom :
      IsCache cache
      → {s : S} {values : List (K × Data P)} → History s values
      → (key : K) (c : CacheableData) → cache.read_key s key ≡ some c
      → IsFrom values key c
  History-IsFrom law (fresh s empty) key c read = cc (empty key, read)
  History-IsFrom law (call {s} {values} functions healthcheck node_error impl kind inputs before)
        key c read =
      let from = History-IsFrom law before in
      Answer-IsFrom law functions healthcheck node_error impl kind inputs values s from
        (from-Answer functions healthcheck node_error impl kind inputs values s from) key c read

  -- Where the cache holds only what was written to it, after any calls in a cache that was empty: a
  -- hit is given only for an entry that is healthy now, and its value is one that a call with the
  -- same key has returned when it ran. In every other case the node runs, or its key cannot be had,
  -- and what it gives is returned, an error with its place; only a value that has a cacheable form
  -- is written, for a node that is to be cached and under its key. The reports say which it was.
  pub execute_raw-Answer :
      IsCache cache
      → {s : S} {values : List (K × Data P)} → History s values
      → (functions : Functions) (healthcheck : CacheableData → Bool)
        (node_error : ExecuteError F → ExecuteError F) (impl : NodeImpl P) (kind : ℕ)
        (inputs : List (Data P))
      → Answer functions healthcheck node_error impl kind inputs values s
          (execute_raw cache healthcheck key_of functions node_error impl kind (ok inputs) s)
  execute_raw-Answer law {s} {values} before functions healthcheck node_error impl kind inputs =
      from-Answer functions healthcheck node_error impl kind inputs values s
        (History-IsFrom law before)
