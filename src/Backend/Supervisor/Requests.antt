-- ===== src/Backend/Supervisor/Requests.antt =====
-- crates/idoris-backend/src/supervisor.rs: a request to load, the state that decides on it, and the
-- answers that need no plan. A waiter is a number; the texts of answers are left out.
use i_doris.Prelude.{
  ℕ, Bool, true, false, not, ◌&&◌, Option, none, some, List, [], ◌∷◌, ◌++◌, if◌then◌else◌, ◌==◌,
}
use i_doris.Prelude.Equality.{Text}
use i_doris.Prelude.Float.{F64, f64_eq}
use i_doris.Prelude.Results.{Result, ok, err}
use i_doris.Contracts.{LoadPolicy}
use i_doris.Backend.Error.{BackendError, busy, model_unavailable}
use i_doris.Backend.Eviction.{ModelState, ready}
use i_doris.Backend.Supervisor.Adapter.{PreviousModel, ReleaseLimits}
use i_doris.Backend.Supervisor.Slots.{ModelSlot, Models, bool_eq, policy_eq}
use i_doris.Backend.Supervisor.Accounting.{Env}

pub record Request : Type 0 where
  pub id : Text
  pub memory_gb : F64
  pub policy : LoadPolicy
  pub allows_headroom_breach : Bool
  pub reply : ℕ

-- The fields of a load are its policy, its amount, its confirmation and its waiters; those of an unload
-- its waiters and whether it has started.
pub data ActiveKind : Type 0 where
  load_op : LoadPolicy → F64 → Bool → List ℕ → ActiveKind
  unload_op : List ℕ → Bool → ActiveKind

pub record ActiveOp : Type 0 where
  pub id : Text
  pub kind : ActiveKind

pub record State : Type 0 where
  pub budget_gb : F64
  pub models : Models
  pub active_op : Option ActiveOp
  pub env : Env

-- What the fence's calls answer.
pub record Fence : Type 0 where
  pub begin_result : Result BackendError (Unit {0})
  pub clear_result : Result BackendError (Unit {0})

-- What `run_load_flow` is started with.
pub record LoadStart : Type 0 where
  pub victims : List Text
  pub previous : Option PreviousModel
  pub release_limits : ReleaseLimits
  pub is_inherited : Bool

pub data Answer : Type 0 where
  replied : Result BackendError (Unit {0}) → Answer
  joined : Answer
  started : LoadStart → Answer

abbrev busy_with : Text → Result BackendError (Unit {0})
busy_with id = err (busy (some id) none)

abbrev pub joins : Request → LoadPolicy → F64 → Bool
joins q policy memory_gb = policy_eq policy q.policy && f64_eq memory_gb q.memory_gb

-- An operation on the same model is under way.
abbrev pub join : State → Request → ActiveKind → Answer × State
join s q (unload_op waiters has_started) = (replied (busy_with q.id), s)
join s q (load_op policy memory_gb allows waiters) =
    if joins q policy memory_gb && bool_eq allows q.allows_headroom_breach
    then (
      joined,
      record s {
        active_op = some (record {
          id = q.id;
          kind = load_op policy memory_gb allows (waiters ++ (q.reply ∷ []));
        });
      },
    )
    else (replied (busy_with q.id), s)

abbrev pub is_ready_with : ModelSlot → LoadPolicy → Bool
is_ready_with slot policy = is_ready_state slot.state && policy_eq slot.policy policy
  where
    is_ready_state : ModelState → Bool
    is_ready_state ready = true
    is_ready_state _ = false

abbrev pub other_busy : Option ActiveOp → Option (Result BackendError (Unit {0}))
other_busy none = none
other_busy (some active) = some (busy_with active.id)

-- The answers that need no plan, in the source's order.
abbrev pub early_reply :
    State → Request → Option ModelSlot → Option (Result BackendError (Unit {0}))
early_reply s q none = other_busy s.active_op
early_reply s q (some slot) =
    if slot.is_load_unconfirmed
    then some (err (model_unavailable q.id))
    else if is_ready_with slot q.policy
    then some (ok tt)
    else if not (slot.inflight == 0)
    then some (busy_with q.id)
    else other_busy s.active_op
