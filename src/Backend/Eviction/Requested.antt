-- ===== src/Backend/Eviction/Requested.antt =====
-- The error that a snapshot contains the requested model.
use i_doris.Prelude.{false, ◌≡◌, inl, inr, List, [], ◌∷◌, any, Bool-cases}
use i_doris.Prelude.Equality.{Text, codes}
use i_doris.Prelude.Float.{F64, add, sub, lt}
use i_doris.Prelude.Results.{Result, ok, err, ◌>>=◌}
use i_doris.Backend.Eviction.{
  ModelEntry, Snapshot, ModelReq, PlanEvictionError, insufficient_capacity, invalid_capacity,
  snapshot_contains_requested_model, capacity_epsilon_gb, validate_capacity, validate_models,
  candidates, sum_gb, choose, give_up, conclude, occupied_gb, available_gb, fits, make_room,
  is_requested, check_input, plan_eviction, zero_gb, is_capacity,
}

-- The result does not blame the snapshot.
abbrev IsBlameless {ℓ} : {A : Type ℓ} → Result PlanEvictionError A → Type 0
IsBlameless (ok a) = Unit
IsBlameless (err (insufficient_capacity model s b e)) = Unit
IsBlameless (err (invalid_capacity field value)) = Unit
IsBlameless (err (snapshot_contains_requested_model model)) = ⊥

chain-IsBlameless {ℓ κ} :
    {A : Type ℓ} {B : Type κ} (m : Result PlanEvictionError A) (f : A → Result PlanEvictionError B)
    → IsBlameless m
    → ((a : A) → IsBlameless (f a))
    → IsBlameless (m >>= f)
chain-IsBlameless (ok a) f h k = k a
chain-IsBlameless (err (insufficient_capacity model s b e)) f h k = tt
chain-IsBlameless (err (invalid_capacity field value)) f h k = tt
chain-IsBlameless (err (snapshot_contains_requested_model model)) f h k = h

validate_capacity-IsBlameless :
    (field : Text) (value : F64) → IsBlameless (validate_capacity field value)
unfolding validate_capacity
validate_capacity-IsBlameless field value = elim (Bool-cases (is_capacity value)) [
  | inl e ↦ rw e tt
  | inr e ↦ rw e tt
]

validate_models-IsBlameless : (models : List ModelEntry) → IsBlameless (validate_models models)
unfolding validate_models
validate_models-IsBlameless [] = tt
validate_models-IsBlameless (m ∷ models) =
    chain-IsBlameless (validate_capacity (codes "model.memory_gb") m.memory_gb) _
      (validate_capacity-IsBlameless _ m.memory_gb) (λ u. validate_models-IsBlameless models)

module _ (state : Snapshot) (need : ModelReq) where
  check_input-IsBlameless :
      any (is_requested need) state.models ≡ false → IsBlameless (check_input state need)
  unfolding check_input
  check_input-IsBlameless absent =
      chain-IsBlameless _ _ (validate_capacity-IsBlameless _ state.budget_gb) (λ u.
        chain-IsBlameless _ _ (validate_capacity-IsBlameless _ need.memory_gb) (λ v.
          chain-IsBlameless _ _ (validate_models-IsBlameless state.models)
            (λ w. rw absent (validate_capacity-IsBlameless _ (occupied_gb state)))))

  give_up-IsBlameless : (shortfall : F64) → IsBlameless (give_up state need shortfall)
  give_up-IsBlameless shortfall =
      chain-IsBlameless _ _ (validate_capacity-IsBlameless _ (sum_gb (candidates state))) (λ u. tt)

  conclude-IsBlameless :
      (shortfall : F64) (x : F64 × List ModelEntry) → IsBlameless (conclude state need shortfall x)
  unfolding conclude
  conclude-IsBlameless shortfall (freed, chosen) =
      chain-IsBlameless _ _ (validate_capacity-IsBlameless _ freed) (λ u.
        elim (Bool-cases (lt (add freed capacity_epsilon_gb) shortfall)) [
          | inl e ↦ rw e (give_up-IsBlameless shortfall)
          | inr e ↦ rw e tt
        ])

  make_room-IsBlameless : IsBlameless (make_room state need)
  unfolding make_room
  make_room-IsBlameless =
      let shortfall = sub need.memory_gb (available_gb state) in
      chain-IsBlameless _ _ (validate_capacity-IsBlameless _ shortfall)
        (λ u. conclude-IsBlameless shortfall (choose shortfall zero_gb (candidates state)))

  plan_eviction-IsBlameless :
      any (is_requested need) state.models ≡ false → IsBlameless (plan_eviction state need)
  unfolding plan_eviction
  plan_eviction-IsBlameless absent = chain-IsBlameless _ _ (check_input-IsBlameless absent) (λ u.
      elim (Bool-cases (fits state need)) [ inl e ↦ rw e tt | inr e ↦ rw e make_room-IsBlameless ])

  -- A snapshot without the requested model is not blamed for containing it.
  pub plan_eviction-excludes :
      (model : Text)
      → any (is_requested need) state.models ≡ false
      → plan_eviction state need ≡ err (snapshot_contains_requested_model model)
      → ⊥
  plan_eviction-excludes model absent h = rw h at (plan_eviction-IsBlameless absent)
