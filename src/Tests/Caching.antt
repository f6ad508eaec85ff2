-- ===== src/Tests/Caching.antt =====
-- A node that is cached in a map from keys to data, and inputs of which some fail.
use serpentine.Prelude.{
  ℕ, ◌≡◌, refl, List, [], ◌∷◌, some, true, false, ◌⊎◌, inl, inr, Bool, String, if◌then◌else◌, ◌==◌,
  nat_eq, nat_beq_iff,
}
use serpentine.Prelude.Text.{Text, codes}
use serpentine.Prelude.Map.{Map, lookup, insert}
use serpentine.Prelude.Outcome.{Outcome, ok, err}
use serpentine.Engine.DataModel.{Data, CacheableData, is_cacheable, cacheable, from_cacheable}
use serpentine.Engine.Nodes.{
  RawType, Raw, Raws, Wrap, NodeImpl, wrap, ExecuteError, should_be_cached, raw_kind, from_data,
  into_data, execute,
}
use serpentine.Engine.Nodes.Cached.{Cache, started, cached, ran, execute_raw}
use serpentine.Engine.Nodes.Answers.{IsCache, History, fresh, call, Answer, execute_raw-Answer}
use serpentine.Engine.Nodes.Inputs.{resolve_inputs, errors_or, resolve_inputs-errors_or}

abbrev in_map : Cache ℕ (Map ℕ CacheableData)
in_map = record { read_key = λ s key. lookup s key; write_key = λ s key c. insert s key c }

in_map-IsCache : IsCache in_map
in_map-IsCache s key key' c d h = split (key == key') (λ e. (nat_beq_iff key key').0 e) h
  where
    split :
        (b : Bool)
        → (b ≡ true → key ≡ key')
        → (if b then some c else lookup s key') ≡ some d
        → (key ≡ key') × (c ≡ d) ⊎ (lookup s key' ≡ some d)
    split true same e = inl (same refl, cc)
    split false same e = inr e

abbrev pub answer_as : (r : RawType) → Outcome Text (Raw Unit r)
answer_as RawType.string = ok (codes "done")
answer_as _ = err (codes "no")

abbrev pub answers : (w : Wrap) → Raws Unit w.parameters → Outcome Text (Raw Unit w.result)
answers w vs = answer_as w.result

abbrev to_string : NodeImpl Unit
to_string = wrap (record {
  parameters = RawType.string ∷ [];
  result = RawType.string;
  passthrough_return = false;
  cache = true;
})

abbrev key_of : ℕ → List (Data Unit) → Outcome (ExecuteError Text) ℕ
key_of kind inputs = ok kind

abbrev inputs : List (Data Unit)
inputs = Data.string (codes "a") ∷ []

-- In the second call the function would give something else.
abbrev later_as : (r : RawType) → Outcome Text (Raw Unit r)
later_as RawType.string = ok (codes "other")
later_as _ = err (codes "no")

abbrev later : (w : Wrap) → Raws Unit w.parameters → Outcome Text (Raw Unit w.result)
later w vs = later_as w.result

abbrev kept : Map ℕ CacheableData
kept = (3, CacheableData.string (codes "done")) ∷ []

abbrev values : List (ℕ × Data Unit)
values = (3, Data.string (codes "done")) ∷ []

one_call : History in_map key_of kept values
unfolding execute_raw execute should_be_cached into_data is_cacheable raw_kind from_data cacheable
one_call =
    call {s = []} {values = []} answers (λ c. true) (λ e. e) to_string 3 inputs
      (fresh [] (λ key. refl))

-- An entry that is healthy is returned; one that is not is left, and the node runs.
hit_or_run :
    (execute_raw in_map (λ c. true) key_of later (λ e. e) to_string 3 (ok inputs) kept
      ≡ ((ok (Data.string (codes "done")), started ∷ cached ∷ []), kept))
    × (execute_raw in_map (λ c. false) key_of later (λ e. e) to_string 3 (ok inputs) kept ≡ (
      (ok (Data.string (codes "other")), started ∷ ran ∷ []),
      (3, CacheableData.string (codes "other")) ∷ kept,
    ))
unfolding execute_raw execute should_be_cached into_data is_cacheable raw_kind from_cacheable
    from_data cacheable
hit_or_run = (refl, refl)

execute_raw-Answer_example :
    Answer in_map key_of later
      (λ c. false)
      (λ e. e)
      to_string
      3
      inputs
      values
      kept
      (execute_raw in_map (λ c. false) key_of later (λ e. e) to_string 3 (ok inputs) kept)
execute_raw-Answer_example =
    execute_raw-Answer in_map key_of in_map-IsCache one_call later (λ c. false) (λ e. e) to_string 3
      inputs

resolve_inputs-errors_or_example :
    resolve_inputs {E = String} {D = ℕ} (inr 1 ∷ inl "a" ∷ inr 2 ∷ inl "b" ∷ [])
    ≡ errors_or ("a" ∷ "b" ∷ []) (1 ∷ 2 ∷ [])
resolve_inputs-errors_or_example = resolve_inputs-errors_or (inr 1 ∷ inl "a" ∷ inr 2 ∷ inl "b" ∷ [])
