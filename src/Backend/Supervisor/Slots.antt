-- ===== src/Backend/Supervisor/Slots.antt =====
-- crates/idoris-backend/src/supervisor.rs: the models that the supervisor knows. The map of slots is
-- a list that is read and written by key; its order stands for the order of iteration, which is
-- arbitrary.
pub mod Victims
use i_doris.Prelude.{
  ℕ, Bool, true, false, not, ◌&&◌, ◌||◌, Option, none, some, List, [], ◌∷◌, map, filter, any,
  if◌then◌else◌, ◌==◌,
}
use i_doris.Prelude.Equality.{Text, text_eq}
use i_doris.Prelude.Float.{F64, add}
use i_doris.Contracts.{
  LoadMode, resident, on_demand, evict_to_load, Keepalive, pinned, idle_ttl, LoadAdmission, coexist,
  requires_eviction, LoadPolicy,
}
use i_doris.Backend.Error.{
  BackendError, eviction_impossible, invalid_request, model_loading, model_unavailable,
}
use i_doris.Backend.Eviction.{
  ModelState, launching, loading, ready, error, stopping, stopped, ModelEntry, Snapshot,
  PlanEvictionError, insufficient_capacity, invalid_capacity, snapshot_contains_requested_model,
  occupies_budget, zero_gb,
}

pub record ModelSlot : Type 0 where
  pub memory_gb : F64
  pub charged_units : ℕ
  pub state : ModelState
  pub last_used_seq : ℕ
  pub policy : LoadPolicy
  pub inflight : ℕ
  pub is_load_unconfirmed : Bool
  pub is_inherited : Bool

abbrev pub Models : Type 0
Models = List (Text × ModelSlot)

abbrev pub slot_of : Text → Models → Option ModelSlot
slot_of id [] = none
slot_of id ((k, slot) ∷ rest) = if text_eq k id then some slot else slot_of id rest

-- `insert` on a key, held or not.
unfoldable pub insert_slot : Text → ModelSlot → Models → Models
insert_slot id slot [] = (id, slot) ∷ []
insert_slot id slot ((k, held) ∷ rest) =
    let later = insert_slot id slot rest in
    if text_eq k id then (k, slot) ∷ rest else (k, held) ∷ later

-- `none` is the panic for an id without a slot.
unfoldable pub set_state_or_panic : Text → ModelState → Models → Option Models
unfolding insert_slot
set_state_or_panic id state models = elim (slot_of id models) [
  | none ↦ none
  | some slot ↦ some (insert_slot id (record slot { state = state }) models)
]

abbrev mode_eq : LoadMode → LoadMode → Bool
mode_eq resident resident = true
mode_eq on_demand on_demand = true
mode_eq evict_to_load evict_to_load = true
mode_eq _ _ = false

abbrev pub bool_eq : Bool → Bool → Bool
bool_eq true b = b
bool_eq false b = not b

abbrev keepalive_eq : Keepalive → Keepalive → Bool
keepalive_eq (pinned a) (pinned b) = bool_eq a b
keepalive_eq (idle_ttl a) (idle_ttl b) = a == b
keepalive_eq _ _ = false

abbrev admission_eq : LoadAdmission → LoadAdmission → Bool
admission_eq coexist coexist = true
admission_eq requires_eviction requires_eviction = true
admission_eq _ _ = false

abbrev pub policy_eq : LoadPolicy → LoadPolicy → Bool
policy_eq p q =
    mode_eq p.mode q.mode
    && keepalive_eq p.keepalive q.keepalive
    && admission_eq p.admission q.admission

abbrev pub keeps_pinned : Keepalive → Bool
keeps_pinned (pinned b) = b
keeps_pinned (idle_ttl seconds) = false

abbrev pub is_other : Text → Text × ModelSlot → Bool
is_other exclude (id, slot) = not (text_eq id exclude)

abbrev pub entry : Text × ModelSlot → ModelEntry
entry (id, slot) = record {
  id = id;
  memory_gb = slot.memory_gb;
  state = slot.state;
  is_pinned = slot.is_load_unconfirmed || slot.is_inherited || keeps_pinned slot.policy.keepalive;
  last_used_seq = slot.last_used_seq;
  inflight = slot.inflight;
}

unfoldable pub build_snapshot : Models → F64 → Text → Snapshot
build_snapshot models budget_gb exclude = record {
  budget_gb = budget_gb;
  models = map entry (filter (is_other exclude) models);
}

abbrev pub occupies : Text × ModelSlot → Bool
occupies (id, slot) = occupies_budget slot.state

unfoldable pub sum_slots : F64 → Models → F64
sum_slots total [] = total
sum_slots total ((id, slot) ∷ rest) = sum_slots (add total slot.memory_gb) rest

ledger_used_except : Models → Text → F64
unfolding sum_slots
ledger_used_except models exclude =
    sum_slots zero_gb (filter (λ m. is_other exclude m && occupies m) models)

-- `none` is the panic.
abbrev pub map_plan_error : PlanEvictionError → Text → Option BackendError
map_plan_error (insufficient_capacity model shortfall budget evictable) id =
    some (eviction_impossible id)
map_plan_error (invalid_capacity field value) id = some invalid_request
map_plan_error (snapshot_contains_requested_model model) id = none

-- `none` is the panic for a model that is ready.
abbrev not_ready_error : Text → ModelState → Option BackendError
not_ready_error id launching = some (model_loading id)
not_ready_error id loading = some (model_loading id)
not_ready_error id ready = none
not_ready_error id error = some (model_unavailable id)
not_ready_error id stopping = some (model_unavailable id)
not_ready_error id stopped = some (model_unavailable id)
