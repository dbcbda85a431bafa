-- ===== src/Backend/Supervisor/Admission.antt =====
-- crates/idoris-backend/src/supervisor.rs: `handle_load`, which decides on a request to load, and
-- `start_load`, up to the start of the load itself. A waiter is a number; the texts of answers are left
-- out. A panic is `none`.
pub mod Replies
pub mod Claims
pub mod Decisions
pub mod Total
mod Examples
use i_doris.Prelude.{
  ℕ, ◌+◌, ◌-◌, Bool, true, false, not, ◌&&◌, Option, none, some, List, [], ◌∷◌, ◌++◌, any, filter,
  if◌then◌else◌, ◌==◌,
}
use i_doris.Prelude.Equality.{Text, text_eq}
use i_doris.Prelude.Float.{F64, add, sub, lt, f64_eq, f64_max}
use i_doris.Prelude.Results.{Result, ok, err, ◌>>=◌}
use i_doris.Contracts.{LoadPolicy}
use i_doris.Backend.Error.{
  BackendError, invalid_request, busy, model_unavailable, eviction_impossible, internal,
}
use i_doris.Backend.Eviction.{
  ModelState, launching, loading, ready, stopping, EvictionPlan, not_needed, evict,
  PlanEvictionError, occupies_budget, is_capacity, zero_gb, plan_eviction,
}
use i_doris.Backend.Capacity.{require}
use i_doris.Backend.Supervisor.Adapter.{PreviousModel, ReleaseLimits}
use i_doris.Backend.Supervisor.Slots.{
  ModelSlot, Models, slot_of, insert_slot, set_state_or_panic, bool_eq, policy_eq, is_other,
  occupies, build_snapshot, sum_slots, map_plan_error,
}
use i_doris.Backend.Supervisor.Accounting.{
  Env, effective_reserved_gb, exact_reserved_charge, exact_charge, from_gb, checked_add,
  claim_runtime_capacity, tracks_exactly,
}
use i_doris.Backend.Supervisor.Requests.{
  Request, ActiveOp, State, Fence, LoadStart, Answer, join, early_reply, load_op, replied, started,
}

abbrev pub inherits : Option ModelSlot → Bool
inherits none = false
inherits (some slot) = slot.is_inherited

-- An error that is a panic is `none`.
abbrev pub victims_of :
    Text → Result PlanEvictionError EvictionPlan → Result (Option BackendError) (List Text)
victims_of id (ok not_needed) = ok []
victims_of id (ok (evict victims)) = ok victims
victims_of id (err e) = err (map_plan_error e id)

abbrev pub told {ℓ} : {A : Type ℓ} → Result BackendError A → Result (Option BackendError) A
told (ok a) = ok a
told (err e) = err (some e)

abbrev pub stays : Text → List Text → Text × ModelSlot → Bool
stays id victims (k, slot) = is_other id (k, slot) && not (any (text_eq k) victims)

abbrev pub request_charge_gb : Bool → F64 → F64 → F64
request_charge_gb inherited memory_gb reservation =
    if inherited then sub (f64_max memory_gb reservation) reservation else memory_gb

-- The planned charge and the charge of the model itself.
pub charge_plan : State → Request → Bool → List Text → Result BackendError (Option ℕ × ℕ)
charge_plan s q inherited victims =
    if not (tracks_exactly s.env.runtime_capacity) then ok (none, 0) else (do
      target ← from_gb q.memory_gb
      charge ←
          (if inherited
            then (exact_reserved_charge s.env s.models >>= λ reserved. ok (target - reserved))
            else ok target)
      held ← exact_charge s.env s.models (filter (stays q.id victims) s.models)
      planned ← checked_add held charge
      ok (some planned, charge))

abbrev pub begin_fence : Option Fence → Result BackendError Fence
begin_fence none = err internal
begin_fence (some fence) = fence.begin_result >>= λ u. ok fence

-- A claim that fails clears the fence again.
abbrev pub or_clear : Fence → Result BackendError Env → Result BackendError Env
or_clear fence (ok env) = ok env
or_clear fence (err e) = fence.clear_result >>= λ u. err e

pub record Admitted : Type 0 where
  pub victims : List Text
  pub memory_gb : F64
  pub charged_units : ℕ
  pub is_inherited : Bool
  pub env : Env

-- From the reservation to the claim: no state has changed if it fails.
pub plan_load : State → Option Fence → Request → Result (Option BackendError) Admitted
unfolding sum_slots
plan_load s fence q = do
  let inherited = inherits (slot_of q.id s.models)
  let reservation = effective_reserved_gb s.env s.models
  let charge_gb = request_charge_gb inherited q.memory_gb reservation
  _ ← told (require (not (lt s.budget_gb reservation)) (eviction_impossible q.id))
  victims ← victims_of q.id (
      plan_eviction (build_snapshot s.models (sub s.budget_gb reservation) q.id)
        (record { id = q.id; memory_gb = charge_gb }))
  let held = filter (λ m. stays q.id victims m && occupies m) s.models
  let planned_gb = add (add reservation charge_gb) (sum_slots zero_gb held)
  (planned_charge, charge) ← told (charge_plan s q inherited victims)
  f ← told (begin_fence fence)
  env ←
      told (
        or_clear f
          (claim_runtime_capacity s.env planned_gb planned_charge q.allows_headroom_breach))
  ok (record {
    victims = victims;
    memory_gb = if inherited then charge_gb else q.memory_gb;
    charged_units = charge;
    is_inherited = inherited;
    env = env;
  })

-- The victims in order; `none` is the panic for one without a slot.
pub stop_victims : List Text → Models → Option Models
stop_victims [] models = some models
stop_victims (victim ∷ victims) models = elim (set_state_or_panic victim stopping models) [
  | none ↦ none
  | some later ↦ stop_victims victims later
]

abbrev seq_of : Option ModelSlot → ℕ
seq_of none = 0
seq_of (some slot) = slot.last_used_seq

-- A slot that occupies the budget, before it is overwritten.
abbrev previous_of : Option ModelSlot → Option PreviousModel
previous_of none = none
previous_of (some slot) =
    if occupies_budget slot.state
    then some (record {
      state = slot.state;
      policy = slot.policy;
      memory_gb = slot.memory_gb;
      charged_units = slot.charged_units;
      is_inherited = slot.is_inherited;
    })
    else none

abbrev pub new_slot : Request → Admitted → Option ModelSlot → ModelSlot
new_slot q a held = record {
  memory_gb = a.memory_gb;
  charged_units = a.charged_units;
  state = launching;
  last_used_seq = seq_of held;
  policy = q.policy;
  inflight = 0;
  is_load_unconfirmed = false;
  is_inherited = a.is_inherited;
}

abbrev previous_gb : Option PreviousModel → F64
previous_gb none = zero_gb
previous_gb (some previous) = previous.memory_gb

abbrev previous_inherited : Option PreviousModel → Bool
previous_inherited none = false
previous_inherited (some previous) = previous.is_inherited

-- What `start_load` computes, of the models with the new slot loading.
pub start_of : Env → Text → List Text → Option PreviousModel → Models → LoadStart
unfolding sum_slots
start_of env id victims previous models =
    let rest_gb = sum_slots zero_gb (filter (λ m. stays id victims m && occupies m) models) in
    let reserved_gb = effective_reserved_gb env models in
    record {
      victims = victims;
      previous = previous;
      release_limits = record {
        target_absent_gb = add rest_gb reserved_gb;
        after_eviction_gb = add (add rest_gb (previous_gb previous)) reserved_gb;
      };
      is_inherited = previous_inherited previous;
    }

abbrev pub active_load : Request → ActiveOp
active_load q = record {
  id = q.id;
  kind = load_op q.policy q.memory_gb q.allows_headroom_breach (q.reply ∷ []);
}

-- `none` is the panic for a slot that is not there.
abbrev pub installed :
    State → Request → Admitted → Option PreviousModel → Option Models → Option (Answer × State)
installed s q a previous none = none
installed s q a previous (some models) = some (
  started (start_of a.env q.id a.victims previous models),
  record s { models = models; active_op = some (active_load q); env = a.env },
)

-- The models are those with the victims stopping.
abbrev install : State → Request → Admitted → Models → Option (Answer × State)
install s q a models =
    let held = slot_of q.id models in
    installed s q a (previous_of held)
      (set_state_or_panic q.id loading (insert_slot q.id (new_slot q a held) models))

pub admit_load : State → Request → Admitted → Option (Answer × State)
unfolding stop_victims insert_slot set_state_or_panic
admit_load s q a = elim (stop_victims a.victims s.models) [
  | none ↦ none
  | some models ↦ install s q a models
]

abbrev pub answer_plan :
    State → Request → Result (Option BackendError) Admitted → Option (Answer × State)
answer_plan s q (err none) = none
answer_plan s q (err (some e)) = some (replied (err e), s)
answer_plan s q (ok a) = admit_load s q a

abbrev pub answer_early :
    State
    → Option Fence
    → Request
    → Option (Result BackendError (Unit {0}))
    → Option (Answer × State)
answer_early s fence q (some result) = some (replied result, s)
answer_early s fence q none = answer_plan s q (plan_load s fence q)

abbrev pub is_active : Request → Option ActiveOp → Bool
is_active q none = false
is_active q (some active) = text_eq active.id q.id

abbrev pub join_active : State → Request → Option ActiveOp → Option (Answer × State)
join_active s q none = none
join_active s q (some active) = some (join s q active.kind)

unfoldable pub handle_load : State → Option Fence → Request → Option (Answer × State)
handle_load s fence q =
    if not (is_capacity q.memory_gb)
    then some (replied (err invalid_request), s)
    else if is_active q s.active_op
    then join_active s q s.active_op
    else answer_early s fence q (early_reply s q (slot_of q.id s.models))
