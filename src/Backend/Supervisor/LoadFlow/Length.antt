-- ===== src/Backend/Supervisor/LoadFlow/Length.antt =====
-- The number of calls that a load makes.
use i_doris.Prelude.{
  ℕ, ◌+◌, ◌*◌, ◌≤◌, Option, none, some, List, [], ◌∷◌, inl, inr, Bool-cases, arith, length,
}
use i_doris.Prelude.Equality.{Text, codes}
use i_doris.Prelude.Results.{Result, ok, err, Result-cases}
use i_doris.Backend.Error.{BackendError, is_oom}
use i_doris.Backend.Eviction.{zero_gb}
use i_doris.Backend.Supervisor.Adapter.{
  loads, Log, with_adapter_timeout, PreviousModel, settle_released,
}
use i_doris.Backend.Supervisor.Release.{
  confirm_memory_released, released_or_error, restored_or_stopped,
}
use i_doris.Backend.Supervisor.LoadFlow.{
  LoadRequest, Found, evict_victims, best_effort, shows_identity, verify_inherited, fail_unverified,
  after_load, attempt_load, fail_release, recover_oom, retry, load_once, found_after,
  verify_and_load, run_load_flow,
}
use i_doris.Backend.Supervisor.LoadFlow.Steps.{
  Within, confirm-Within, best_effort-Within, clear_or_retain-Within, evict_victims-Within,
  fail_eviction-Within, fail_load-Within, probe-Within,
}

abbrev tail_bound : LoadRequest → ℕ
tail_bound r = r.config.probe_max_attempts + 2 + r.config.release_confirm_max_attempts

after_load-Within :
    (r : LoadRequest) (found : Found) (x : Result BackendError (Unit {0})) (log : Log)
    → Within (tail_bound r) log (after_load r found x log).1
unfolding after_load
after_load-Within r found (err e) log = omega (arith, fail_load-Within r found e log)
after_load-Within r found (ok done) log =
    omega (arith, probe-Within r found r.config.probe_max_attempts log)

fail_release-Within :
    (r : LoadRequest) (found : Found) (e : BackendError) (log : Log)
    → Within (2 + r.config.release_confirm_max_attempts) log (fail_release r found e log).1
unfolding fail_release
fail_release-Within r found e log =
    let cleanup = best_effort r log in
    let outcome = released_or_error found.previous cleanup.0 in
    omega (
      arith,
      best_effort-Within r log,
      clear_or_retain-Within r found.previous (outcome, cleanup.1),
    )

recover_oom-Within :
    (r : LoadRequest) (found : Found) (e : BackendError) (log : Log)
    → Within
        (r.config.release_confirm_max_attempts + 1 + tail_bound r)
        log
        (recover_oom r found e log).1
unfolding recover_oom retry
recover_oom-Within r found e log =
    let n = r.config.release_confirm_max_attempts in
    let gb = r.release_limits.target_absent_gb in
    let release = confirm_memory_released r.adapter n (r.id ∷ []) gb log in
    let confirmed = confirm-Within r.adapter n (r.id ∷ []) gb log in
    elim (Result-cases release.0) [
      | inl (f, h) ↦
          rw (h, recover_oom) (omega (arith, confirmed, fail_release-Within r found e release.1))
      | inr (status, h) ↦ elim (Bool-cases r.is_inherited) [
        | inl i ↦
            let cleared =
              clear_or_retain-Within r found.previous (settle_released status, release.1) in
            simp (h, i, recover_oom) (omega (arith, confirmed, cleared))
        | inr i ↦
            let again = record found {
              aggregate_status = some status;
              aggregate_target_credit_gb = zero_gb;
              previous = none;
            } in
            let later = loads r.id r.policy ∷ release.1 in
            let rest = after_load-Within r again (attempt_load r release.1) later in
            simp (h, i, recover_oom) (omega (arith, confirmed, rest))
      ]
    ]

abbrev load_bound : LoadRequest → ℕ
load_bound r = 1 + (r.config.release_confirm_max_attempts + 1 + tail_bound r)

load_once-Within :
    (r : LoadRequest) (found : Found) (log : Log)
    → Within (load_bound r) log (load_once r found log).1
unfolding load_once
load_once-Within r found log =
    let later = loads r.id r.policy ∷ log in
    elim (Result-cases (attempt_load r log)) [
      | inl (e, h) ↦ elim (Bool-cases (is_oom e)) [
        | inl o ↦ rw (h, o, load_once) (omega (arith, recover_oom-Within r found e later))
        | inr o ↦ rw (h, o, load_once) (omega (arith, after_load-Within r found (err e) later))
      ]
      | inr (done, h) ↦ rw (h, load_once) (omega (arith, after_load-Within r found (ok done) later))
    ]

verify_inherited-Within : (r : LoadRequest) (log : Log) → Within 2 log (verify_inherited r log).1
unfolding verify_inherited
verify_inherited-Within r log =
    elim (Bool-cases (
      shows_identity r
        (with_adapter_timeout (r.adapter.status log) (codes "startup/inherited-status")))) [
          | inl h ↦ rw (h, verify_inherited) (omega arith)
          | inr h ↦ rw (h, verify_inherited) (omega arith)
        ]

verify_and_load-Within :
    (r : LoadRequest) (found : Found) (log : Log)
    → Within (2 + load_bound r) log (verify_and_load r found log).1
unfolding verify_and_load fail_unverified
verify_and_load-Within r found log =
    let later = (verify_inherited r log).1 in
    let verified = verify_inherited-Within r log in
    elim (Bool-cases r.is_inherited) [
      | inl i ↦ elim (Bool-cases (verify_inherited r log).0) [
        | inl v ↦
            simp (i, v, verify_and_load) (omega (arith, verified, load_once-Within r found later))
        | inr v ↦
            let cleared =
              clear_or_retain-Within r found.previous (restored_or_stopped found.previous, later) in
            simp (i, v, verify_and_load) (omega (arith, verified, cleared))
      ]
      | inr i ↦ simp (i, verify_and_load) (omega (arith, load_once-Within r found log))
    ]

-- A load ends: it makes at most one call for each victim, three times the calls that may confirm a
-- release, the probes, and six calls more, whatever the adapter answers and however often it does
-- not answer.
pub run_load_flow-length :
    (r : LoadRequest) (evict : List Text) (previous : Option PreviousModel) (log : Log)
    → length (run_load_flow r evict previous log).1
      ≤ length evict
        + 3 * r.config.release_confirm_max_attempts
        + r.config.probe_max_attempts
        + 6
        + length log
unfolding run_load_flow
run_load_flow-length r evict previous log =
    let evicted = evict_victims r evict log in
    let found = found_after evicted.0 previous in
    let first = evict_victims-Within r evict log in
    elim (Bool-cases evicted.0.has_failed) [
      | inl f ↦ rw (f, run_load_flow) (omega (arith, first, fail_eviction-Within r found evicted.1))
      | inr f ↦
          rw (f, run_load_flow) (omega (arith, first, verify_and_load-Within r found evicted.1))
    ]
