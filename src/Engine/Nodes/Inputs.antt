-- ===== src/Engine/Nodes/Inputs.antt =====
-- nodes.rs: how `All` resolves its inputs, all of which have run, each to a value or an error.
use serpentine.Prelude.{
  ◌≡◌, refl, ◌∙◌, ap, List, [], ◌∷◌, ◌++◌, append_assoc, append-nil, ◌⊎◌, inl, inr,
}

module _ {ℓ κ} {E : Type ℓ} {D : Type κ} where
  -- The function that `resolve_inputs` folds with: the errors so far, or the values so far.
  abbrev pub collected : List E ⊎ List D → E ⊎ D → List E ⊎ List D
  collected (inr results) (inr result) = inr (results ++ result ∷ [])
  collected (inr _) (inl error) = inl (error ∷ [])
  collected (inl errors) (inl error) = inl (errors ++ error ∷ [])
  collected (inl errors) (inr _) = inl errors

  unfoldable pub collect : List E ⊎ List D → List (E ⊎ D) → List E ⊎ List D
  collect accumulator [] = accumulator
  collect accumulator (result ∷ results) = collect (collected accumulator result) results

  unfoldable pub resolve_inputs : List (E ⊎ D) → List E ⊎ List D
  unfolding collect
  resolve_inputs results = collect (inr []) results

  abbrev pub errors_of : List (E ⊎ D) → List E
  errors_of [] = []
  errors_of (inl error ∷ rs) = error ∷ errors_of rs
  errors_of (inr value ∷ rs) = errors_of rs

  abbrev pub values_of : List (E ⊎ D) → List D
  values_of [] = []
  values_of (inl error ∷ rs) = values_of rs
  values_of (inr value ∷ rs) = value ∷ values_of rs

  -- The errors if there are any, or else the values.
  abbrev pub errors_or : List E → List D → List E ⊎ List D
  errors_or [] values = inr values
  errors_or (error ∷ errors) values = inl (error ∷ errors)

  collect-inl :
      (errors : List E) (rs : List (E ⊎ D)) → collect (inl errors) rs ≡ inl (errors ++ errors_of rs)
  unfolding collect
  collect-inl errors [] = rw append-nil refl
  collect-inl errors (inl error ∷ rs) =
      collect-inl (errors ++ error ∷ []) rs
      ∙ ap inl (append_assoc errors (error ∷ []) (errors_of rs))
  collect-inl errors (inr value ∷ rs) = collect-inl errors rs

  collect-inr :
      (values : List D) (rs : List (E ⊎ D))
      → collect (inr values) rs ≡ errors_or (errors_of rs) (values ++ values_of rs)
  unfolding collect
  collect-inr values [] = rw append-nil refl
  collect-inr values (inl error ∷ rs) = collect-inl (error ∷ []) rs
  collect-inr values (inr value ∷ rs) =
      collect-inr (values ++ value ∷ []) rs
      ∙ ap (errors_or (errors_of rs)) (append_assoc values (value ∷ []) (values_of rs))

  -- Where some inputs failed, an `All` node fails with the errors of all of them, in their order;
  -- otherwise it gets the values of all of them, in their order.
  pub resolve_inputs-errors_or :
      (rs : List (E ⊎ D)) → resolve_inputs rs ≡ errors_or (errors_of rs) (values_of rs)
  unfolding resolve_inputs
  resolve_inputs-errors_or rs = collect-inr [] rs
