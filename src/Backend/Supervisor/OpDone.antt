-- ===== src/Backend/Supervisor/OpDone.antt =====
-- crates/idoris-backend/src/supervisor.rs: what the message loop does when a load is done, `OpDone`. A
-- waiter is a number. A violation poisons the supervisor, which then reads its slots no more: they are
-- left as they were.
pub mod Answers
pub mod Unconfirmed
mod Examples
use i_doris.Prelude.{
  ℕ, ◌+◌, Bool, true, false, Option, none, some, List, [], ◌∷◌, map, max, if◌then◌else◌,
}
use i_doris.Prelude.Equality.{Text}
use i_doris.Prelude.Float.{F64, f64_max}
use i_doris.Prelude.Results.{Result, ok, err}
use i_doris.Backend.Error.{BackendError, invariant_violation}
use i_doris.Backend.Eviction.{ModelState, ready, stopped, error}
use i_doris.Backend.Supervisor.Adapter.{
  BackendStatus, PreviousModel, LoadFailureOutcome, settle, settle_released, restore_previous,
  retain_previous_on_error, retain_unconfirmed_load, LoadOutcome,
}
use i_doris.Backend.Supervisor.Slots.{ModelSlot, Models, slot_of, insert_slot}
use i_doris.Backend.Supervisor.Accounting.{Env}
use i_doris.Backend.Supervisor.Requests.{ActiveKind, load_op, unload_op, ActiveOp, State}
use i_doris.Backend.Supervisor.Settlement.{
  set_state_or_poison, settle_victims, refresh_aggregate, refresh_aggregate_except,
  settle_runtime_capacity,
}

pub record Actor : Type 0 where
  pub state : State
  pub next_seq : ℕ
  pub is_poisoned : Bool

abbrev pub Replies : Type 0
Replies = List (ℕ × Result BackendError (Unit {0}))

abbrev change_slot : Text → (ModelSlot → ModelSlot) → Models → Option Models
change_slot id change models = elim (slot_of id models) [
  | none ↦ none
  | some slot ↦ some (insert_slot id (change slot) models)
]

abbrev restored : PreviousModel → ModelSlot → ModelSlot
restored previous slot = record slot {
  state = previous.state;
  policy = previous.policy;
  memory_gb = previous.memory_gb;
  charged_units = previous.charged_units;
  is_inherited = previous.is_inherited;
}

abbrev retained_on_error : PreviousModel → ModelSlot → ModelSlot
retained_on_error previous slot = record slot {
  state = error;
  policy = previous.policy;
  memory_gb = f64_max slot.memory_gb previous.memory_gb;
  charged_units = max slot.charged_units previous.charged_units;
  is_inherited = previous.is_inherited;
}

abbrev pub retained_unconfirmed : Option PreviousModel → ModelSlot → ModelSlot
retained_unconfirmed none slot = record slot { state = error; is_load_unconfirmed = true }
retained_unconfirmed (some previous) slot = record slot {
  state = error;
  is_load_unconfirmed = true;
  policy = previous.policy;
  memory_gb = f64_max slot.memory_gb previous.memory_gb;
  charged_units = max slot.charged_units previous.charged_units;
}

abbrev pub with_env : Env → Option Models → Option (Models × Env)
with_env env none = none
with_env env (some models) = some (models, env)

abbrev with_status : Env → BackendStatus → Option Models → Option (Models × Env)
with_status env status none = none
with_status env status (some models) = some (models, refresh_aggregate env models status)

pub apply_failure : Text → LoadFailureOutcome → Models → Env → Option (Models × Env)
unfolding insert_slot set_state_or_poison refresh_aggregate_except
apply_failure id (settle state) models env = with_env env (set_state_or_poison id state models)
apply_failure id (settle_released status) models env =
    with_status env status (set_state_or_poison id stopped models)
apply_failure id (restore_previous previous) models env =
    with_env env (change_slot id (restored previous) models)
apply_failure id (retain_previous_on_error previous) models env =
    with_env env (change_slot id (retained_on_error previous) models)
apply_failure id (retain_unconfirmed_load previous) models env =
    with_env env (change_slot id (retained_unconfirmed previous) models)

abbrev loaded_slot : ℕ → ModelSlot → ModelSlot
loaded_slot seq slot = record slot { state = ready; last_used_seq = seq }

abbrev apply_result :
    Text → ℕ → LoadOutcome → Result BackendError (Unit {0}) → Models → Env → Option (Models × Env)
apply_result id seq outcome (ok done) models env =
    with_env env (change_slot id (loaded_slot seq) models)
apply_result id seq outcome (err e) models env = apply_failure id outcome.failure_outcome models env

abbrev pub refreshed : Text → LoadOutcome → Option BackendStatus → Models → Env → Env
refreshed id outcome none models env = env
refreshed id outcome (some status) models env =
    refresh_aggregate_except env models status (some id) outcome.aggregate_target_credit_gb

-- `none` is a violation.
pub apply_outcome : Text → ℕ → LoadOutcome → Models → Env → Option (Models × Env)
unfolding settle_victims insert_slot
apply_outcome id seq outcome models env = elim (settle_victims outcome.victim_results models) [
  | none ↦ none
  | some later ↦
      apply_result id seq outcome outcome.result later
        (refreshed id outcome outcome.aggregate_status later env)
]

abbrev pub seq_after : ℕ → Result BackendError (Unit {0}) → ℕ
seq_after seq (ok done) = seq + 1
seq_after seq (err e) = seq

abbrev waiters_of : ActiveKind → List ℕ
waiters_of (load_op policy memory_gb allows waiters) = waiters
waiters_of (unload_op waiters has_started) = waiters

abbrev pub take_waiters : Option ActiveOp → Option (List ℕ)
take_waiters none = none
take_waiters (some active) = some (waiters_of active.kind)

abbrev pub answer_all : Result BackendError (Unit {0}) → List ℕ → Replies
answer_all result waiters = map (λ w. (w, result)) waiters

abbrev pub poison : Actor → Option (List ℕ) → Actor × Replies
poison a none = (record a { is_poisoned = true }, [])
poison a (some waiters) =
    (record a { is_poisoned = true }, answer_all (err invariant_violation) waiters)

-- The operation is no longer under way, whatever follows.
abbrev pub idle : Actor → Actor
idle a = record a { state = record a.state { active_op = none } }

abbrev pub settled :
    Actor
    → ℕ
    → Result BackendError (Unit {0})
    → Models
    → Env × Result BackendError (Unit {0})
    → List ℕ
    → Actor × Replies
settled a seq result models (env, err e) waiters =
    poison (record a { state = record a.state { env = env } }) (some waiters)
settled a seq result models (env, ok done) waiters = (
  record a { state = record a.state { models = models; env = env }; next_seq = seq },
  answer_all result waiters,
)

abbrev pub conclude_op :
    Actor
    → ℕ
    → Result BackendError (Unit {0})
    → Option (Models × Env)
    → Option (List ℕ)
    → Actor × Replies
conclude_op a seq result none waiters = poison a waiters
conclude_op a seq result (some (models, env)) none = poison a none
conclude_op a seq result (some (models, env)) (some waiters) =
    settled a seq result models (settle_runtime_capacity env models) waiters

pub op_done_load : Actor → Text → LoadOutcome → Actor × Replies
unfolding apply_outcome settle_runtime_capacity
op_done_load a id outcome =
    let waiters = take_waiters a.state.active_op in
    let seq = seq_after a.next_seq outcome.result in
    if a.is_poisoned
    then poison (idle a) waiters
    else conclude_op (idle a) seq outcome.result
        (apply_outcome id seq outcome a.state.models a.state.env) waiters
