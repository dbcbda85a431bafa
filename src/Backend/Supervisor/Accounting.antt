-- ===== src/Backend/Supervisor/Accounting.antt =====
-- crates/idoris-backend/src/supervisor.rs: what the supervisor reserves for the engine's residency, and
-- its claim in the ledger of capacity, `Env`.
use i_doris.Prelude.{
  ℕ, ◌-◌, Bool, true, false, not, ◌&&◌, Option, none, some, List, [], ◌∷◌, filter, if◌then◌else◌,
  checked_add_u128, min, max,
}
use i_doris.Prelude.Equality.{Text, text_eq}
use i_doris.Prelude.Float.{F64, add, sub, f64_min, f64_max, f64_eq}
use i_doris.Prelude.Results.{Result, ok, err, ◌>>=◌}
use i_doris.Backend.Error.{BackendError, invariant_violation}
use i_doris.Backend.Eviction.{occupies_budget, zero_gb}
use i_doris.Backend.Capacity.{Ledger, ok_or, claim_charge, resize}
use i_doris.Backend.Capacity.Units.{up, to_capacity_units}
use i_doris.Backend.Supervisor.Slots.{ModelSlot, Models, slot_of, occupies}

pub record StartupCapacityTracking : Type 0 where
  pub ledger : Ledger
  pub allocation_key : Text
  pub claimed_gb : F64
  pub exact_claim : Option ℕ

-- The fields of `Env` that change.
pub record Env : Type 0 where
  pub reserved_gb : F64
  pub aggregate_covered : List (Text × F64)
  pub runtime_capacity : Option StartupCapacityTracking

abbrev pub from_gb : F64 → Result BackendError ℕ
from_gb value = to_capacity_units value up

abbrev pub checked_add : ℕ → ℕ → Result BackendError ℕ
checked_add a b = ok_or (checked_add_u128 a b) invariant_violation

abbrev pub is_covered : ModelSlot → Bool
is_covered slot = occupies_budget slot.state && not slot.is_load_unconfirmed

abbrev covered_gb_of : Option ModelSlot → F64 → F64 → F64
covered_gb_of none credited_gb total = total
covered_gb_of (some slot) credited_gb total =
    if is_covered slot then add total (f64_min slot.memory_gb credited_gb) else total

unfoldable pub covered_from : F64 → Models → List (Text × F64) → F64
covered_from total models [] = total
covered_from total models ((id, credited_gb) ∷ rest) =
    covered_from (covered_gb_of (slot_of id models) credited_gb total) models rest

abbrev is_not_excluded : Option Text → Text × F64 → Bool
is_not_excluded none (id, credit) = true
is_not_excluded (some excluded_id) (id, credit) = not (text_eq excluded_id id)

unfoldable pub effective_reserved_gb_except : Env → Models → Option Text → F64
unfolding covered_from
effective_reserved_gb_except env models excluded_id =
    let covered_slots_gb =
      covered_from zero_gb models (filter (is_not_excluded excluded_id) env.aggregate_covered) in
    f64_max (sub env.reserved_gb covered_slots_gb) zero_gb

abbrev pub effective_reserved_gb : Env → Models → F64
effective_reserved_gb env models = effective_reserved_gb_except env models none

abbrev covered_charge_of : Option ModelSlot → F64 → Result BackendError ℕ
covered_charge_of none credit = ok 0
covered_charge_of (some slot) credit =
    if is_covered slot
    then (from_gb credit >>= λ units. ok (min slot.charged_units units))
    else ok 0

covered_charge_from : ℕ → Models → List (Text × F64) → Result BackendError ℕ
covered_charge_from total models [] = ok total
covered_charge_from total models ((id, credit) ∷ rest) =
    elim (covered_charge_of (slot_of id models) credit >>= λ units. checked_add total units) [
      | err e ↦ err e
      | ok next ↦ covered_charge_from next models rest
    ]

pub exact_reserved_charge : Env → Models → Result BackendError ℕ
unfolding covered_charge_from
exact_reserved_charge env models = do
  covered ← covered_charge_from 0 models env.aggregate_covered
  reserved ← from_gb env.reserved_gb
  ok (reserved - covered)

charge_from : ℕ → Models → Result BackendError ℕ
charge_from total [] = ok total
charge_from total ((id, slot) ∷ rest) = elim (checked_add total slot.charged_units) [
  | err e ↦ err e
  | ok next ↦ charge_from next rest
]

pub exact_charge : Env → Models → Models → Result BackendError ℕ
unfolding charge_from
exact_charge env models slots =
    exact_reserved_charge env models >>= λ reserved. charge_from reserved (filter occupies slots)

-- A claim that was exact at first stays exact.
pub claim_exact :
    StartupCapacityTracking → ℕ → Option ℕ → Bool → Result BackendError StartupCapacityTracking
claim_exact tracking current planned_charge allow_headroom_breach = do
  planned ← ok_or planned_charge invariant_violation
  ledger ←
      claim_charge tracking.ledger tracking.allocation_key current planned allow_headroom_breach
  ok (record tracking { ledger = ledger; exact_claim = some (max current planned) })

pub claim_estimate : StartupCapacityTracking → F64 → Result BackendError StartupCapacityTracking
claim_estimate tracking planned_gb =
    let next_gb = f64_max tracking.claimed_gb planned_gb in
    if f64_eq next_gb tracking.claimed_gb
    then ok tracking
    else (resize tracking.ledger tracking.allocation_key (some tracking.claimed_gb) (some next_gb)
        >>= λ ledger. ok (record tracking { ledger = ledger; claimed_gb = next_gb }))

abbrev pub claim_tracking :
    StartupCapacityTracking
    → F64
    → Option ℕ
    → Bool
    → Option ℕ
    → Result BackendError StartupCapacityTracking
claim_tracking tracking planned_gb planned_charge allow_headroom_breach none =
    claim_estimate tracking planned_gb
claim_tracking tracking planned_gb planned_charge allow_headroom_breach (some current) =
    claim_exact tracking current planned_charge allow_headroom_breach

abbrev claim_in :
    Env → Option StartupCapacityTracking → F64 → Option ℕ → Bool → Result BackendError Env
claim_in env none planned_gb planned_charge allow_headroom_breach = ok env
claim_in env (some tracking) planned_gb planned_charge allow_headroom_breach =
    claim_tracking tracking planned_gb planned_charge allow_headroom_breach tracking.exact_claim
    >>= λ t. ok (record env { runtime_capacity = some t })

unfoldable pub claim_runtime_capacity : Env → F64 → Option ℕ → Bool → Result BackendError Env
claim_runtime_capacity env planned_gb planned_charge allow_headroom_breach =
    claim_in env env.runtime_capacity planned_gb planned_charge allow_headroom_breach

abbrev pub tracks_exactly : Option StartupCapacityTracking → Bool
tracks_exactly none = false
tracks_exactly (some tracking) = has_claim tracking.exact_claim
  where
    has_claim : Option ℕ → Bool
    has_claim none = false
    has_claim (some units) = true
