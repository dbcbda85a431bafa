-- ===== src/Backend/Error.antt =====
-- crates/idoris-backend/src/error.rs: the errors of the backend, without their texts for people.
use i_doris.Prelude.{ℕ, Bool, true, false, Option}
use i_doris.Prelude.Equality.{Text, codes}

-- A text that is put into an error is kept where it names a model.
pub data BackendError : Type 0 where
  model_not_found model_loading model_unavailable : Text → BackendError
  eviction_impossible eviction_failed oom headroom_confirmation_required : Text → BackendError
  probe_timed_out adapter_timed_out adapter_panicked : Text → BackendError
  load_unconfirmed load_postcondition_failed : Text → BackendError
  upstream cancelled invalid_request supervisor_unavailable : BackendError
  busy : Option Text → Option ℕ → BackendError
  invariant_violation lock_poisoned internal : BackendError

abbrev pub reason_code : BackendError → Text
reason_code (model_not_found model) = codes "model_not_found"
reason_code (model_loading model) = codes "model_loading"
reason_code (model_unavailable model) = codes "model_unavailable"
reason_code (eviction_impossible model) = codes "eviction_impossible"
reason_code (eviction_failed model) = codes "eviction_failed"
reason_code (oom model) = codes "oom"
reason_code (headroom_confirmation_required model) = codes "headroom_confirmation_required"
reason_code (probe_timed_out model) = codes "probe_timed_out"
reason_code (adapter_timed_out model) = codes "adapter_timed_out"
reason_code (adapter_panicked model) = codes "adapter_panicked"
reason_code (load_unconfirmed model) = codes "load_unconfirmed"
reason_code (load_postcondition_failed model) = codes "load_postcondition_failed"
reason_code upstream = codes "upstream_error"
reason_code cancelled = codes "cancelled"
reason_code invalid_request = codes "invalid_request"
reason_code supervisor_unavailable = codes "supervisor_unavailable"
reason_code (busy active_id retry_after_ms) = codes "supervisor_busy"
reason_code invariant_violation = codes "state_invariant_violated"
reason_code lock_poisoned = codes "internal_lock_poisoned"
reason_code internal = codes "internal"

abbrev pub is_oom : BackendError → Bool
is_oom (oom model) = true
is_oom _ = false
