-- ===== src/Engine/Nodes/Cached.antt =====
-- serpentine/src/engine/nodes.rs: `execute_raw`, which looks for the result of a node in the cache
-- before it executes it, and keeps the result after. The cache is an interface; the health check,
-- the key's hash and the wrapping of errors are parameters, and waiting is not modelled.
use serpentine.Prelude.{ℕ, Bool, Option, none, some, List, [], ◌∷◌, if◌then◌else◌}
use serpentine.Prelude.Outcome.{Outcome, ok, err, panic, out_of_fuel}
use serpentine.Engine.DataModel.{Data, CacheableData, cacheable, from_cacheable}
use serpentine.Engine.Nodes.{Raw, Raws, Wrap, NodeImpl, ExecuteError, execute, should_be_cached}

-- What is reported of a node while it runs.
pub data NodeTransition : Type 0 where
  queued started cached ran : NodeTransition

-- What `execute_raw` uses of the cache with states `S` and keys `K`. A read gives nothing where no
-- entry is there or it does not decode; a write may fail and leave the state as it is.
pub record Cache (K S : Type 0) : Type 0 where
  pub read_key : S → K → Option CacheableData
  pub write_key : S → K → CacheableData → S

module _ {K S : Type 0} (cache : Cache K S) where
  -- The result goes into the cache if it has a cacheable form.
  abbrev pub stored : K → Option CacheableData → S → S
  stored key none s = s
  stored key (some c) s = cache.write_key s key c

module _ {P E : Type 0} where
  abbrev pub uncached : Outcome E (Data P) → Outcome E (Data P × NodeTransition)
  uncached (ok d) = ok (d, ran)
  uncached (err e) = err e
  uncached panic = panic
  uncached out_of_fuel = out_of_fuel

module _ {P E K S : Type 0} (cache : Cache K S) (healthcheck : CacheableData → Bool) where
  abbrev pub run_and_store : K → Outcome E (Data P) → S → Outcome E (Data P × NodeTransition) × S
  run_and_store key (ok d) s = (ok (d, ran), stored cache key (cacheable d) s)
  run_and_store key (err e) s = (err e, s)
  run_and_store key panic s = (panic, s)
  run_and_store key out_of_fuel s = (out_of_fuel, s)

  -- On what the cache holds.
  abbrev pub cached_or_run :
      K → Option CacheableData → Outcome E (Data P) → S → Outcome E (Data P × NodeTransition) × S
  cached_or_run key none run s = run_and_store key run s
  cached_or_run key (some c) run s =
      if healthcheck c then (ok (from_cacheable c, cached), s) else run_and_store key run s

  abbrev pub with_key :
      Outcome E K → Outcome E (Data P) → S → Outcome E (Data P × NodeTransition) × S
  with_key (ok key) run s = cached_or_run key (cache.read_key s key) run s
  with_key (err e) run s = (err e, s)
  with_key panic run s = (panic, s)
  with_key out_of_fuel run s = (out_of_fuel, s)

-- The reports of a node, and its error with the node's place in the program.
module _ {P E : Type 0} (node_error : E → E) where
  abbrev pub reported :
      Outcome E (Data P × NodeTransition) → Outcome E (Data P) × List NodeTransition
  reported (ok (d, transition)) = (ok d, started ∷ transition ∷ [])
  reported (err e) = (err (node_error e), started ∷ ran ∷ [])
  reported panic = (panic, started ∷ [])
  reported out_of_fuel = (out_of_fuel, started ∷ [])

module _ {P F K S : Type 0} (cache : Cache K S) (healthcheck : CacheableData → Bool)
    (key_of : ℕ → List (Data P) → Outcome (ExecuteError F) K)
    (functions : (w : Wrap) → Raws P w.parameters → Outcome F (Raw P w.result)) where
  -- With the inputs resolved.
  unfoldable pub run_node :
      NodeImpl P → ℕ → List (Data P) → S → Outcome (ExecuteError F) (Data P × NodeTransition) × S
  unfolding should_be_cached execute
  run_node impl kind inputs s =
      if should_be_cached impl
      then with_key cache healthcheck (key_of kind inputs) (execute functions impl inputs) s
      else (uncached (execute functions impl inputs), s)

  -- An error of the inputs is passed on as it is, before anything is reported.
  unfoldable pub execute_raw :
      (ExecuteError F → ExecuteError F)
      → NodeImpl P
      → ℕ
      → Outcome (ExecuteError F) (List (Data P))
      → S
      → (Outcome (ExecuteError F) (Data P) × List NodeTransition) × S
  unfolding run_node
  execute_raw node_error impl kind (ok inputs) s =
      let (result, s') = run_node impl kind inputs s in (reported node_error result, s')
  execute_raw node_error impl kind (err e) s = ((err e, []), s)
  execute_raw node_error impl kind panic s = ((panic, []), s)
  execute_raw node_error impl kind out_of_fuel s = ((out_of_fuel, []), s)
