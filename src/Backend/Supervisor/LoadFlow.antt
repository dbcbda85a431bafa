-- ===== src/Backend/Supervisor/LoadFlow.antt =====
-- crates/idoris-backend/src/supervisor.rs: `run_load_flow`, the adapter calls of one load.
pub mod Traces
pub mod Errors
pub mod Endings
pub mod Reports
pub mod Victims
pub mod Steps
pub mod Length
use i_doris.Prelude.{
  ℕ, zero, suc, Bool, true, false, not, ◌&&◌, Option, none, some, List, [], ◌∷◌, if◌then◌else◌, map,
  any,
}
use i_doris.Prelude.Equality.{Text, codes}
use i_doris.Prelude.Float.{F64, add, le, lt, is_finite}
use i_doris.Prelude.Results.{Result, ok, err}
use i_doris.Contracts.{LoadPolicy}
use i_doris.Backend.Error.{
  BackendError, is_oom, eviction_failed, model_unavailable, probe_timed_out, adapter_timed_out,
  load_unconfirmed,
}
use i_doris.Backend.Eviction.{capacity_epsilon_gb, zero_gb, error}
use i_doris.Backend.Supervisor.Adapter.{
  BackendStatus, asks_status, clears_fence, unloads, probes, loads, Log, Adapter,
  with_adapter_timeout, is_ok, contains, SupervisorConfig, ReleaseLimits, PreviousModel,
  LoadFailureOutcome, settle, settle_released, retain_unconfirmed_load, after_release, VictimResult,
  LoadOutcome,
}
use i_doris.Backend.Supervisor.Release.{
  confirm_memory_released, best_effort_release, resolve_load_failure, restored_or_stopped,
  released_or_error, is_unresolved,
}

-- The arguments of `run_load_flow` that no step of it changes.
pub record LoadRequest : Type 0 where
  pub adapter : Adapter
  pub config : SupervisorConfig
  pub release_limits : ReleaseLimits
  pub is_inherited : Bool
  pub id : Text
  pub policy : LoadPolicy

-- What the steps so far have found: the local variables of `run_load_flow`.
pub record Found : Type 0 where
  pub victim_results : List VictimResult
  pub aggregate_status : Option BackendStatus
  pub aggregate_target_credit_gb : F64
  pub previous : Option PreviousModel

abbrev pub finish :
    Found → Result BackendError (Unit {0}) → LoadFailureOutcome × Log → LoadOutcome × Log
finish found result (failure_outcome, log) = (
  record {
    result = result;
    victim_results = found.victim_results;
    aggregate_status = found.aggregate_status;
    aggregate_target_credit_gb = found.aggregate_target_credit_gb;
    failure_outcome = failure_outcome;
  },
  log,
)

-- The outcome stands only where the fence could be cleared.
unfoldable pub clear_or_retain :
    LoadRequest → Option PreviousModel → LoadFailureOutcome × Log → LoadFailureOutcome × Log
clear_or_retain r previous (outcome, log) = (
  if is_ok (r.adapter.clear log) then outcome else retain_unconfirmed_load previous,
  clears_fence ∷ log,
)

unfoldable pub unload_victims : Adapter → List Text → Log → List VictimResult × Log
unload_victims adapter [] log = ([], log)
unload_victims adapter (victim ∷ victims) log =
    let later = unload_victims adapter victims (unloads victim ∷ log) in
    ((victim, with_adapter_timeout (adapter.unload log victim) victim) ∷ later.0, later.1)

abbrev pub victim_failed : VictimResult → Bool
victim_failed (victim, result) = not (is_ok result)

abbrev pub fail_victim : Text → VictimResult → VictimResult
fail_victim id (victim, result) = (victim, err (eviction_failed id))

-- The results of the victims, the status that confirms their release, and whether eviction failed.
pub record Evicted : Type 0 where
  pub victim_results : List VictimResult
  pub aggregate_status : Option BackendStatus
  pub has_failed : Bool

abbrev pub confirmed : Text → List VictimResult → Result BackendError BackendStatus → Evicted
confirmed id results (ok status) = record {
  victim_results = results;
  aggregate_status = some status;
  has_failed = any victim_failed results;
}
confirmed id results (err e) = record {
  victim_results = map (fail_victim id) results;
  aggregate_status = none;
  has_failed = true;
}

unfoldable pub evict_victims : LoadRequest → List Text → Log → Evicted × Log
evict_victims r [] log =
    (record { victim_results = []; aggregate_status = none; has_failed = false }, log)
evict_victims r targets log =
    let unloaded = unload_victims r.adapter targets log in
    let release =
      confirm_memory_released r.adapter r.config.release_confirm_max_attempts targets
        r.release_limits.after_eviction_gb unloaded.1 in
    (confirmed r.id unloaded.0 release.0, release.1)

unfoldable pub resolve :
    LoadRequest → BackendError → Option PreviousModel → Log → LoadFailureOutcome × Log
resolve r e previous log =
    resolve_load_failure r.adapter r.config.release_confirm_max_attempts r.id e previous
      r.release_limits.target_absent_gb log

unfoldable pub best_effort : LoadRequest → Log → Option BackendStatus × Log
best_effort r log =
    best_effort_release r.adapter r.config.release_confirm_max_attempts r.id
      r.release_limits.target_absent_gb log

unfoldable pub fail_eviction : LoadRequest → Found → Log → LoadOutcome × Log
fail_eviction r found log =
    finish found (err (eviction_failed r.id))
      (clear_or_retain r found.previous (resolve r (eviction_failed r.id) found.previous log))

abbrev pub shows_identity : LoadRequest → Result BackendError BackendStatus → Bool
shows_identity r (err e) = false
shows_identity r (ok status) =
    is_finite status.used_gb
    && lt zero_gb status.used_gb
    && le status.used_gb (add r.release_limits.after_eviction_gb capacity_epsilon_gb)
    && contains status.loaded r.id

abbrev pub is_ready : Result BackendError Bool → Bool
is_ready (ok true) = true
is_ready _ = false

-- The readiness of an inherited model is asked for only where the status names it.
unfoldable pub verify_inherited : LoadRequest → Log → Bool × Log
verify_inherited r log =
    if shows_identity r
      (with_adapter_timeout (r.adapter.status log) (codes "startup/inherited-status"))
    then (
      is_ready (with_adapter_timeout (r.adapter.probe_ready (asks_status ∷ log) r.id) r.id),
      probes r.id ∷ asks_status ∷ log,
    )
    else (false, asks_status ∷ log)

unfoldable pub fail_unverified : LoadRequest → Found → Log → LoadOutcome × Log
fail_unverified r found log =
    finish found (err (model_unavailable r.id))
      (clear_or_retain r found.previous (restored_or_stopped found.previous, log))

-- A load that may still run keeps its fence.
unfoldable pub fail_load : LoadRequest → Found → BackendError → Log → LoadOutcome × Log
fail_load r found e log =
    let failure = resolve r e found.previous log in
    finish found (err e)
      (if is_unresolved e then failure else clear_or_retain r found.previous failure)

abbrev give_up_probing : LoadRequest → Found → BackendError → Log → LoadOutcome × Log
give_up_probing r found e log =
    finish found (err e) (retain_unconfirmed_load found.previous, (best_effort r log).1)

-- A probe has said that the model is ready.
abbrev pub accept_ready : Found → Result BackendError (Unit {0}) → Log → LoadOutcome × Log
accept_ready found (ok done) log = finish found (ok tt) (settle error, log)
accept_ready found (err e) log = finish found (err e) (retain_unconfirmed_load found.previous, log)

-- The number is that of the probes left, `probe_max_attempts` at first.
unfoldable pub probe : LoadRequest → Found → ℕ → Log → LoadOutcome × Log
probe r found zero log = give_up_probing r found (probe_timed_out r.id) log
probe r found (suc attempts) log =
    let later = probe r found attempts (probes r.id ∷ log) in
    elim (with_adapter_timeout (r.adapter.probe_ready log r.id) r.id) [
      | ok true ↦
          accept_ready found (r.adapter.clear (probes r.id ∷ log))
            (clears_fence ∷ probes r.id ∷ log)
      | ok false ↦ later
      | err e ↦ give_up_probing r found e (probes r.id ∷ log)
    ]

unfoldable pub after_load :
    LoadRequest → Found → Result BackendError (Unit {0}) → Log → LoadOutcome × Log
after_load r found (err e) log = fail_load r found e log
after_load r found (ok done) log = probe r found r.config.probe_max_attempts log

abbrev pub attempt_load : LoadRequest → Log → Result BackendError (Unit {0})
attempt_load r log = with_adapter_timeout (r.adapter.load log r.id r.policy) r.id

-- The release after an OOM could not be confirmed.
unfoldable pub fail_release : LoadRequest → Found → BackendError → Log → LoadOutcome × Log
fail_release r found e log =
    let cleanup = best_effort r log in
    finish found (err e)
      (clear_or_retain r found.previous (released_or_error found.previous cleanup.0, cleanup.1))

-- The one retry, once the release is confirmed by a status.
unfoldable pub retry : LoadRequest → Found → BackendStatus → Log → LoadOutcome × Log
retry r found status log =
    after_load r
      (record found {
        aggregate_status = some status;
        aggregate_target_credit_gb = zero_gb;
        previous = none;
      })
      (attempt_load r log) (loads r.id r.policy ∷ log)

unfoldable pub recover_oom : LoadRequest → Found → BackendError → Log → LoadOutcome × Log
recover_oom r found e log =
    let release =
      confirm_memory_released r.adapter r.config.release_confirm_max_attempts (r.id ∷ [])
        r.release_limits.target_absent_gb log in
    elim release.0 [
      | err unconfirmed ↦ fail_release r found e release.1
      | ok status ↦
          if r.is_inherited
          then finish found (err e)
              (clear_or_retain r found.previous (settle_released status, release.1))
          else retry r found status release.1
    ]

unfoldable pub load_once : LoadRequest → Found → Log → LoadOutcome × Log
load_once r found log =
    let later = loads r.id r.policy ∷ log in
    elim (attempt_load r log) [
      | ok done ↦ after_load r found (ok done) later
      | err e ↦ if is_oom e then recover_oom r found e later else after_load r found (err e) later
    ]

abbrev pub credit : Option PreviousModel → F64
credit none = zero_gb
credit (some previous) = previous.memory_gb

abbrev pub found_after : Evicted → Option PreviousModel → Found
found_after evicted previous = record {
  victim_results = evicted.victim_results;
  aggregate_status = evicted.aggregate_status;
  aggregate_target_credit_gb = credit previous;
  previous = previous;
}

unfoldable pub verify_and_load : LoadRequest → Found → Log → LoadOutcome × Log
verify_and_load r found log =
    if r.is_inherited
    then (let verified = verify_inherited r log in
        if verified.0 then load_once r found verified.1 else fail_unverified r found verified.1)
    else load_once r found log

unfoldable pub run_load_flow :
    LoadRequest → List Text → Option PreviousModel → Log → LoadOutcome × Log
run_load_flow r evict previous log =
    let evicted = evict_victims r evict log in
    let found = found_after evicted.0 previous in
    if evicted.0.has_failed
    then fail_eviction r found evicted.1
    else verify_and_load r found evicted.1
