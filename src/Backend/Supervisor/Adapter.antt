-- ===== src/Backend/Supervisor/Adapter.antt =====
-- crates/idoris-backend/src/supervisor.rs and types.rs: the calls of an adapter and of the load
-- fence that a load makes, and the data that it reports. An adapter is a parameter: what each call
-- answers may depend on all calls before it. The log of calls has the latest call first.
use i_doris.Prelude.{ℕ, Bool, true, false, Option, none, some, List, any}
use i_doris.Prelude.Equality.{Text, text_eq}
use i_doris.Prelude.Float.{F64}
use i_doris.Prelude.Results.{Result, ok, err}
use i_doris.Contracts.{LoadPolicy}
use i_doris.Backend.Error.{BackendError, adapter_timed_out}
use i_doris.Backend.Eviction.{ModelState, occupies_budget}

pub data Pressure : Type 0 where
  ok_pressure soft hard ceiling unknown : Pressure

pub record BackendStatus : Type 0 where
  pub pressure : Pressure
  pub used_gb : F64
  pub model_memory_max_gb : F64
  pub loaded : List Text

pub data Call : Type 0 where
  asks_status clears_fence : Call
  unloads probes : Text → Call
  loads : Text → LoadPolicy → Call

abbrev pub Log : Type 0
Log = List Call

-- No answer within `adapter_call_timeout` is `none`. `clear` is the fence's.
pub record Adapter : Type 0 where
  pub status : Log → Option (Result BackendError BackendStatus)
  pub unload : Log → Text → Option (Result BackendError (Unit {0}))
  pub load : Log → Text → LoadPolicy → Option (Result BackendError (Unit {0}))
  pub probe_ready : Log → Text → Option (Result BackendError Bool)
  pub clear : Log → Result BackendError (Unit {0})

abbrev pub with_adapter_timeout :
    {A : Type 0} → Option (Result BackendError A) → Text → Result BackendError A
with_adapter_timeout (some result) model_id = result
with_adapter_timeout none model_id = err (adapter_timed_out model_id)

abbrev pub is_ok {ℓ} : {A : Type ℓ} → Result BackendError A → Bool
is_ok (ok a) = true
is_ok (err e) = false

abbrev pub contains : List Text → Text → Bool
contains loaded id = any (text_eq id) loaded

pub record SupervisorConfig : Type 0 where
  pub probe_max_attempts : ℕ
  pub release_confirm_max_attempts : ℕ

pub record ReleaseLimits : Type 0 where
  pub target_absent_gb : F64
  pub after_eviction_gb : F64

pub record PreviousModel : Type 0 where
  pub state : ModelState
  pub policy : LoadPolicy
  pub memory_gb : F64
  pub charged_units : ℕ
  pub is_inherited : Bool

pub data LoadFailureOutcome : Type 0 where
  settle : ModelState → LoadFailureOutcome
  settle_released : BackendStatus → LoadFailureOutcome
  restore_previous retain_previous_on_error : PreviousModel → LoadFailureOutcome
  retain_unconfirmed_load : Option PreviousModel → LoadFailureOutcome

pub after_release : ModelState → Option PreviousModel → LoadFailureOutcome
after_release state none = settle state
after_release state (some previous) = elim (occupies_budget state) [
  | true ↦ retain_previous_on_error previous
  | false ↦ settle state
]

abbrev pub VictimResult : Type 0
VictimResult = Text × Result BackendError (Unit {0})

-- `OpOutcome::Load`.
pub record LoadOutcome : Type 0 where
  pub result : Result BackendError (Unit {0})
  pub victim_results : List VictimResult
  pub aggregate_status : Option BackendStatus
  pub aggregate_target_credit_gb : F64
  pub failure_outcome : LoadFailureOutcome
