-- ===== src/Backend/Supervisor/Release.antt =====
-- crates/idoris-backend/src/supervisor.rs: the confirmation that memory was released, and what a
pub mod Evidence
-- failed load leaves behind.
use i_doris.Prelude.{
  ℕ, zero, suc, Bool, true, false, not, ◌&&◌, ◌||◌, Option, none, some, List, [], ◌∷◌,
  if◌then◌else◌, is_empty, all,
}
use i_doris.Prelude.Equality.{Text, codes}
use i_doris.Prelude.Float.{F64, add, le, lt, is_finite}
use i_doris.Prelude.Results.{Result, ok, err}
use i_doris.Backend.Error.{
  BackendError, internal, load_postcondition_failed, adapter_timed_out, load_unconfirmed,
}
use i_doris.Backend.Eviction.{capacity_epsilon_gb, zero_gb, error, stopped}
use i_doris.Backend.Supervisor.Adapter.{
  BackendStatus, asks_status, unloads, Log, Adapter, with_adapter_timeout, contains, PreviousModel,
  LoadFailureOutcome, settle, settle_released, restore_previous, retain_unconfirmed_load,
  after_release,
}

abbrev pub shows_release : List Text → F64 → BackendStatus → Bool
shows_release targets max_used_gb status =
    is_finite status.used_gb
    && le zero_gb status.used_gb
    && (lt zero_gb status.used_gb || is_empty status.loaded)
    && le status.used_gb (add max_used_gb capacity_epsilon_gb)
    && all (λ id. not (contains status.loaded id)) targets

-- The number is that of the attempts left, `release_confirm_max_attempts` at first.
unfoldable pub confirm_memory_released :
    Adapter → ℕ → List Text → F64 → Log → Result BackendError BackendStatus × Log
confirm_memory_released adapter zero targets max_used_gb log = (err internal, log)
confirm_memory_released adapter (suc attempts) targets max_used_gb log =
    let later = confirm_memory_released adapter attempts targets max_used_gb (asks_status ∷ log) in
    elim (with_adapter_timeout (adapter.status log) (codes "status")) [
      | err e ↦ later
      | ok status ↦
          if shows_release targets max_used_gb status then (ok status, asks_status ∷ log) else later
    ]

abbrev pub ok_status : Result BackendError BackendStatus × Log → Option BackendStatus × Log
ok_status (ok status, log) = (some status, log)
ok_status (err e, log) = (none, log)

unfoldable pub best_effort_release : Adapter → ℕ → Text → F64 → Log → Option BackendStatus × Log
best_effort_release adapter attempts id max_used_gb log =
    elim (with_adapter_timeout (adapter.unload log id) id) [
      | err e ↦ (none, unloads id ∷ log)
      | ok done ↦
          ok_status
            (confirm_memory_released adapter attempts (id ∷ []) max_used_gb (unloads id ∷ log))
    ]

abbrev pub restored_or_stopped : Option PreviousModel → LoadFailureOutcome
restored_or_stopped (some previous) = restore_previous previous
restored_or_stopped none = settle stopped

abbrev pub released_or_error : Option PreviousModel → Option BackendStatus → LoadFailureOutcome
released_or_error previous (some status) = settle_released status
released_or_error previous none = after_release error previous

abbrev pub is_postcondition_failed : BackendError → Bool
is_postcondition_failed (load_postcondition_failed m) = true
is_postcondition_failed _ = false

-- The load may still run.
abbrev pub is_unresolved : BackendError → Bool
is_unresolved (adapter_timed_out m) = true
is_unresolved (load_unconfirmed m) = true
is_unresolved _ = false

unfoldable pub resolve_load_failure :
    Adapter → ℕ → Text → BackendError → Option PreviousModel → F64 → Log → LoadFailureOutcome × Log
resolve_load_failure adapter attempts id e previous release_limit_gb log =
    let cleanup = best_effort_release adapter attempts id release_limit_gb log in
    if is_postcondition_failed e
    then (released_or_error previous cleanup.0, cleanup.1)
    else if is_unresolved e
    then (retain_unconfirmed_load previous, cleanup.1)
    else (restored_or_stopped previous, log)
