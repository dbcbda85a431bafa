-- ===== src/Backend/Supervisor/Settlement.antt =====
-- crates/idoris-backend/src/supervisor.rs: `Env::refresh_aggregate_except`, `settle_runtime_capacity`,
-- and what the message loop does when an operation is done, `OpDone`. A waiter is a number; a violation,
-- which poisons the supervisor, is `none` in place of the new slots.
use i_doris.Prelude.{
  ℕ, Bool, true, false, not, ◌&&◌, ◌||◌, Option, none, some, List, [], ◌∷◌, any, filter, ltb, leb,
  if◌then◌else◌,
}
use i_doris.Prelude.Equality.{Text, text_eq}
use i_doris.Prelude.Float.{F64, add, sub, lt, le}
use i_doris.Prelude.Results.{Result, ok, err}
use i_doris.Backend.Error.{BackendError, invariant_violation}
use i_doris.Backend.Eviction.{ModelState, stopped, error, zero_gb, capacity_epsilon_gb}
use i_doris.Backend.Capacity.{update_charge, adopt_observed, resize}
use i_doris.Backend.Supervisor.Adapter.{BackendStatus, contains, VictimResult}
use i_doris.Backend.Supervisor.Slots.{ModelSlot, Models, slot_of, insert_slot, occupies, sum_slots}
use i_doris.Backend.Supervisor.Accounting.{
  StartupCapacityTracking, Env, effective_reserved_gb, exact_charge, is_covered,
}

-- A slot that is stopped is no longer inherited. `none` is the violation for an id without a slot.
unfoldable pub set_state_or_poison : Text → ModelState → Models → Option Models
unfolding insert_slot
set_state_or_poison id state models = elim (slot_of id models) [
  | none ↦ none
  | some slot ↦ some (
      insert_slot id
        (record slot { state = state; is_inherited = slot.is_inherited && not (is_stopped state) })
        models)
]
  where
    is_stopped : ModelState → Bool
    is_stopped stopped = true
    is_stopped _ = false

abbrev victim_state : Result BackendError (Unit {0}) → ModelState
victim_state (ok done) = stopped
victim_state (err e) = error

unfoldable pub settle_victims : List VictimResult → Models → Option Models
settle_victims [] models = some models
settle_victims ((victim, result) ∷ rest) models =
    elim (set_state_or_poison victim (victim_state result) models) [
      | none ↦ none
      | some later ↦ settle_victims rest later
    ]

abbrev credit_of : Option ModelSlot → Option F64
credit_of none = none
credit_of (some slot) = if is_covered slot then some slot.memory_gb else none

-- `insert` on a key, held or not.
insert_credit : Text → F64 → List (Text × F64) → List (Text × F64)
insert_credit id gb [] = (id, gb) ∷ []
insert_credit id gb ((k, held) ∷ rest) =
    let later = insert_credit id gb rest in
    if text_eq k id then (k, gb) ∷ rest else (k, held) ∷ later

covered_by : Option Text → Models → List Text → List (Text × F64)
unfolding insert_credit
covered_by excluded_id models [] = []
covered_by excluded_id models (id ∷ ids) =
    let later = covered_by excluded_id models ids in
    elim (if is_excluded excluded_id then none else credit_of (slot_of id models)) [
      | none ↦ later
      | some gb ↦ insert_credit id gb later
    ]
  where
    is_excluded : Option Text → Bool
    is_excluded none = false
    is_excluded (some excluded) = text_eq excluded id

abbrev with_excluded : Option Text → F64 → List Text → List (Text × F64) → List (Text × F64)
with_excluded none credit_gb loaded covered = covered
with_excluded (some id) credit_gb loaded covered =
    if lt zero_gb credit_gb && contains loaded id
    then insert_credit id credit_gb covered
    else covered

unfoldable pub refresh_aggregate_except : Env → Models → BackendStatus → Option Text → F64 → Env
unfolding covered_by
refresh_aggregate_except env models status excluded_id excluded_credit_gb = record env {
  reserved_gb = status.used_gb;
  aggregate_covered =
      with_excluded excluded_id excluded_credit_gb status.loaded
        (covered_by excluded_id models status.loaded);
}

abbrev pub refresh_aggregate : Env → Models → BackendStatus → Env
refresh_aggregate env models status = refresh_aggregate_except env models status none zero_gb

-- The claim's ledger may change although the call fails.
abbrev keeping : Env → Option StartupCapacityTracking → Env
keeping env tracking = record env { runtime_capacity = tracking }

abbrev over_claim : Bool → Result BackendError (Unit {0})
over_claim true = ok tt
over_claim false = err invariant_violation

abbrev is_unconfirmed : Text × ModelSlot → Bool
is_unconfirmed (id, slot) = slot.is_load_unconfirmed

abbrev accounted_gb : Env → Models → F64
accounted_gb env models =
    add (sum_slots zero_gb (filter occupies models)) (effective_reserved_gb env models)

pub settle_exact :
    Env → StartupCapacityTracking → ℕ → ℕ → Bool → Env × Result BackendError (Unit {0})
settle_exact env tracking current accounted unconfirmed =
    let answer = if ltb current accounted then over_claim unconfirmed else ok tt in
    if ltb current accounted || not unconfirmed
    then (elim (update_charge tracking.ledger tracking.allocation_key (some current) accounted
        (leb accounted current)) [
          | err e ↦ (env, err e)
          | ok ledger ↦ (
            keeping env (some (record tracking { ledger = ledger; exact_claim = some accounted })),
            answer,
          )
        ])
    else (env, answer)

abbrev f64_abs : F64 → F64
f64_abs x = if lt x zero_gb then sub zero_gb x else x

pub settle_estimate :
    Env → StartupCapacityTracking → F64 → Bool → Env × Result BackendError (Unit {0})
settle_estimate env tracking accounted unconfirmed =
    if le (f64_abs (sub accounted tracking.claimed_gb)) capacity_epsilon_gb
    then (env, ok tt)
    else if lt tracking.claimed_gb accounted
    then (elim (adopt_observed tracking.ledger tracking.allocation_key (some tracking.claimed_gb)
        accounted) [
          | err e ↦ (env, err e)
          | ok ledger ↦ (
            keeping env (some (record tracking { ledger = ledger; claimed_gb = accounted })),
            over_claim unconfirmed,
          )
        ])
    else if unconfirmed
    then (env, ok tt)
    else (elim (resize tracking.ledger tracking.allocation_key (some tracking.claimed_gb)
        (some accounted)) [
          | err e ↦ (env, err e)
          | ok ledger ↦ (
            keeping env (some (record tracking { ledger = ledger; claimed_gb = accounted })),
            ok tt,
          )
        ])

abbrev pub settle_claim :
    Env → Models → StartupCapacityTracking → Option ℕ → Env × Result BackendError (Unit {0})
settle_claim env models tracking none =
    settle_estimate env tracking (accounted_gb env models) (any is_unconfirmed models)
settle_claim env models tracking (some current) = elim (exact_charge env models models) [
  | err e ↦ (env, err e)
  | ok accounted ↦ settle_exact env tracking current accounted (any is_unconfirmed models)
]

abbrev settle_tracked :
    Env → Models → Option StartupCapacityTracking → Env × Result BackendError (Unit {0})
settle_tracked env models none = (env, ok tt)
settle_tracked env models (some tracking) = settle_claim env models tracking tracking.exact_claim

unfoldable pub settle_runtime_capacity : Env → Models → Env × Result BackendError (Unit {0})
unfolding sum_slots
settle_runtime_capacity env models = settle_tracked env models env.runtime_capacity
