-- ===== src/Backend/Capacity.antt =====
-- crates/idoris-backend/src/global_capacity.rs: the memory that the runtimes of one process have
-- reserved. The map of allocations is a list that is read and written by key. The mutex is left
-- out: a method holds it to its end, and nothing panics under it, so that it is never poisoned. A
-- method that fails leaves the ledger as it was; one that succeeds returns the new ledger.
pub mod Units
pub mod Totals
pub mod Growth
pub mod Exchanges
pub mod History
mod Examples
use i_doris.Prelude.{
  ℕ, ◌+◌, ◌-◌, Bool, true, false, not, ◌&&◌, ◌||◌, Option, none, some, List, [], ◌∷◌, ltb, leb,
  ◌==◌, max, if◌then◌else◌, is_empty, map, checked_add_u128, saturating_add_u128,
}
use i_doris.Prelude.Equality.{Text, text_eq}
use i_doris.Prelude.Text.{trim_matches, is_whitespace}
use i_doris.Prelude.Int.{pos}
use i_doris.Prelude.Float.{F64, finite, f64_eq}
use i_doris.Prelude.Results.{Result, ok, err, ◌>>=◌}
use i_doris.Backend.Error.{
  BackendError, oom, headroom_confirmation_required, invalid_request, invariant_violation,
}
use i_doris.Backend.Capacity.Units.{
  up, down, capacity_epsilon_units, to_capacity_units, units_to_gb,
}

pub record CapacityAllocation : Type 0 where
  pub requested_gb : F64
  pub charged_units : ℕ

abbrev pub Allocations : Type 0
Allocations = List (Text × CapacityAllocation)

pub record Ledger : Type 0 where
  pub budget_gb : F64
  pub budget_units : ℕ
  pub admission_epsilon_units : ℕ
  pub headroom_units : ℕ
  pub allocations : Allocations

abbrev pub get : Text → Allocations → Option CapacityAllocation
get key [] = none
get key ((k, a) ∷ rest) = if text_eq k key then some a else get key rest

-- `insert` on a key, held or not.
pub insert : Text → CapacityAllocation → Allocations → Allocations
insert key allocation [] = (key, allocation) ∷ []
insert key allocation ((k, a) ∷ rest) =
    let later = insert key allocation rest in
    if text_eq k key then (k, allocation) ∷ rest else (k, a) ∷ later

pub remove : Text → Allocations → Allocations
remove key [] = []
remove key ((k, a) ∷ rest) =
    let later = remove key rest in if text_eq k key then rest else (k, a) ∷ later

-- `try_fold` with `checked_add`.
pub total_from : ℕ → Allocations → Option ℕ
total_from total [] = some total
total_from total ((k, a) ∷ rest) = elim (checked_add_u128 total a.charged_units) [
  | none ↦ none
  | some t ↦ total_from t rest
]

abbrev pub exact_total_units : Allocations → Option ℕ
exact_total_units allocations = total_from 0 allocations

abbrev pub ok_or {ℓ} : {A : Type ℓ} → Option A → BackendError → Result BackendError A
ok_or none e = err e
ok_or (some a) e = ok a

abbrev pub require : Bool → BackendError → Result BackendError (Unit {0})
require true e = ok tt
require false e = err e

unfoldable pub new : F64 → Result BackendError Ledger
new budget_gb = to_capacity_units budget_gb down >>= λ budget_units. ok (record {
  budget_gb = budget_gb;
  budget_units = budget_units;
  admission_epsilon_units = capacity_epsilon_units;
  headroom_units = 0;
  allocations = [];
})

new_bytes_with_headroom : ℕ → ℕ → Ledger
new_bytes_with_headroom budget_bytes headroom_bytes = record {
  budget_gb = units_to_gb budget_bytes;
  budget_units = budget_bytes;
  admission_epsilon_units = 0;
  headroom_units = headroom_bytes;
  allocations = [];
}

new_bytes : ℕ → Ledger
new_bytes budget_bytes = new_bytes_with_headroom budget_bytes 0

abbrev pub full : Ledger → ℕ
full l = saturating_add_u128 l.budget_units l.admission_epsilon_units

abbrev reduced : Ledger → ℕ
reduced l = saturating_add_u128 (l.budget_units - l.headroom_units) l.admission_epsilon_units

pub check_admission : Ledger → Text → ℕ → Bool → Result BackendError (Unit {0})
check_admission l key total_units allow_headroom_breach =
    if ltb (full l) total_units
    then err (oom key)
    else if not allow_headroom_breach && ltb (reduced l) total_units
    then err (headroom_confirmation_required key)
    else ok tt

abbrev pub is_blank : Text → Bool
is_blank key = is_empty (trim_matches is_whitespace key)

abbrev pub is_zero_gb : F64 → Bool
is_zero_gb gb = f64_eq gb (finite (pos 0))

-- A key without an allocation.
pub reserve_new : Ledger → Text → F64 → Bool → ℕ → Result BackendError Ledger
reserve_new l key memory_gb allow_headroom_breach charged_units = do
  reserved ← ok_or (exact_total_units l.allocations) (oom key)
  requested_total_units ← ok_or (checked_add_u128 reserved charged_units) (oom key)
  _ ← require (not (is_zero_gb l.budget_gb && ltb 0 charged_units)) (oom key)
  _ ← check_admission l key requested_total_units allow_headroom_breach
  ok (record l {
    allocations =
        insert key (record { requested_gb = memory_gb; charged_units = charged_units })
          l.allocations;
  })

abbrev pub reserve_entry :
    Ledger → Text → F64 → Bool → ℕ → Option CapacityAllocation → Result BackendError Ledger
reserve_entry l key memory_gb allow_headroom_breach charged_units (some existing) =
    if f64_eq existing.requested_gb memory_gb then ok l else err invariant_violation
reserve_entry l key memory_gb allow_headroom_breach charged_units none =
    reserve_new l key memory_gb allow_headroom_breach charged_units

pub reserve_with_headroom : Ledger → Text → F64 → Bool → Result BackendError Ledger
reserve_with_headroom l key memory_gb allow_headroom_breach = do
  charged_units ← to_capacity_units memory_gb up
  _ ← require (not (is_blank key)) invalid_request
  reserve_entry l key memory_gb allow_headroom_breach charged_units (get key l.allocations)

reserve : Ledger → Text → F64 → Result BackendError Ledger
reserve l key memory_gb = reserve_with_headroom l key memory_gb true

-- Whether there was an allocation, and the new ledger.
unfoldable pub release : Ledger → Text → Bool × Ledger
release l key =
    (is_held (get key l.allocations), record l { allocations = remove key l.allocations })
  where
    is_held : Option CapacityAllocation → Bool
    is_held none = false
    is_held (some a) = true

pub data ExpectedAllocation : Type 0 where
  estimate : Option F64 → ExpectedAllocation
  charge : Option ℕ → ExpectedAllocation

abbrev pub matches : ExpectedAllocation → Option CapacityAllocation → Bool
matches (estimate none) none = true
matches (estimate (some value)) (some a) = f64_eq a.requested_gb value
matches (charge none) none = true
matches (charge (some value)) (some a) = a.charged_units == value
matches _ _ = false

abbrev pub units_of : Option CapacityAllocation → ℕ
units_of none = 0
units_of (some a) = a.charged_units

abbrev pub checked_sub : ℕ → ℕ → Option ℕ
checked_sub a b = if leb b a then some (a - b) else none

-- The plan is judged against the budget without the tolerance.
pub check_planned : Ledger → Text → ℕ → Option ℕ → Bool → Result BackendError (Unit {0})
check_planned l key other_units none allow_headroom_breach = ok tt
check_planned l key other_units (some planned) allow_headroom_breach = do
  total ← ok_or (checked_add_u128 other_units planned) (oom key)
  _ ← require (leb total l.budget_units) (oom key)
  require (allow_headroom_breach || leb total (l.budget_units - l.headroom_units))
      (headroom_confirmation_required key)

pub check_growth : Ledger → Text → Bool → ℕ → ℕ → ℕ → Bool → Result BackendError (Unit {0})
check_growth l key enforce current_units next_units total allow_headroom_breach =
    if enforce && ltb current_units next_units
    then (require (not (is_zero_gb l.budget_gb)) (oom key)
        >>= (λ _. check_admission l key total allow_headroom_breach))
    else ok tt

abbrev pub set : Text → Option CapacityAllocation → Allocations → Allocations
set key none allocations = remove key allocations
set key (some a) allocations = insert key a allocations

pub replace_allocation :
    Ledger
    → Text
    → ExpectedAllocation
    → Option CapacityAllocation
    → Bool
    → Option ℕ
    → Bool
    → Result BackendError Ledger
replace_allocation l key expected next enforce planned allow_headroom_breach = do
  let current = get key l.allocations
  _ ← require (not (is_blank key)) invalid_request
  _ ← require (matches expected current) invariant_violation
  total ← ok_or (exact_total_units l.allocations) invariant_violation
  other_units ← ok_or (checked_sub total (units_of current)) invariant_violation
  requested_total_units ← ok_or (checked_add_u128 other_units (units_of next)) invariant_violation
  _ ← check_planned l key other_units planned allow_headroom_breach
  _ ←
      check_growth l key enforce (units_of current) (units_of next) requested_total_units
        allow_headroom_breach
  ok (record l { allocations = set key next l.allocations })

abbrev pub valid_estimate : Option F64 → Result BackendError (Unit {0})
valid_estimate none = ok tt
valid_estimate (some value) = to_capacity_units value up >>= λ _. ok tt

abbrev pub allocation_for : Option F64 → Result BackendError (Option CapacityAllocation)
allocation_for none = ok none
allocation_for (some value) = to_capacity_units value up >>= λ units.
    ok (some (record { requested_gb = value; charged_units = units }))

pub compare_and_set : Ledger → Text → Option F64 → Option F64 → Bool → Result BackendError Ledger
compare_and_set l key expected_gb next_gb enforce = do
  _ ← valid_estimate expected_gb
  next ← allocation_for next_gb
  replace_allocation l key (estimate expected_gb) next enforce none true

pub resize : Ledger → Text → Option F64 → Option F64 → Result BackendError Ledger
resize l key expected_gb next_gb = compare_and_set l key expected_gb next_gb true

pub adopt_observed : Ledger → Text → Option F64 → F64 → Result BackendError Ledger
adopt_observed l key expected_gb observed_gb =
    compare_and_set l key expected_gb (some observed_gb) false

block_growth_for_unknown_residency : Ledger → Text → Option F64 → Result BackendError (F64 × Ledger)
block_growth_for_unknown_residency l key expected_gb =
    compare_and_set l key expected_gb (some l.budget_gb) false >>= λ l'. ok (l.budget_gb, l')

abbrev pub allocation_of_charge : ℕ → CapacityAllocation
allocation_of_charge units = record { requested_gb = units_to_gb units; charged_units = units }

pub update_charge : Ledger → Text → Option ℕ → ℕ → Bool → Result BackendError Ledger
update_charge l key expected next admit_growth =
    replace_allocation l key (charge expected) (some (allocation_of_charge next)) admit_growth none
      true

pub claim_charge : Ledger → Text → ℕ → ℕ → Bool → Result BackendError Ledger
claim_charge l key current planned allow_headroom_breach =
    replace_allocation l key (charge (some current))
      (some (allocation_of_charge (max current planned))) true (some planned) allow_headroom_breach

pub record CapacitySnapshot : Type 0 where
  pub budget_gb : F64
  pub reserved_gb : F64
  pub allocations : List (Text × F64)

abbrev requested : Text × CapacityAllocation → Text × F64
requested (key, a) = (key, a.requested_gb)

pub snapshot : Ledger → Result BackendError CapacitySnapshot
snapshot l = ok_or (exact_total_units l.allocations) invariant_violation >>= λ reserved_units.
    ok (record {
      budget_gb = l.budget_gb;
      reserved_gb = units_to_gb reserved_units;
      allocations = map requested l.allocations;
    })
