-- ===== src/Backend/Supervisor/LoadFlow/Endings.antt =====
-- How a load ends: its result, what it leaves in the ledger, and the fence.
use i_doris.Prelude.{
  ℕ, zero, suc, true, false, Option, none, some, List, [], ◌∷◌, ◌≡◌, refl, ◌⊎◌, inl, inr,
  Bool-cases,
}
use i_doris.Prelude.Equality.{Text}
use i_doris.Prelude.Results.{Result, ok, err, Result-cases}
use i_doris.Backend.Error.{
  BackendError, is_oom, eviction_failed, model_unavailable, probe_timed_out,
}
use i_doris.Backend.Eviction.{zero_gb}
use i_doris.Backend.Supervisor.Adapter.{
  clears_fence, loads, probes, Log, with_adapter_timeout, PreviousModel, LoadFailureOutcome,
  settle_released, retain_unconfirmed_load, LoadOutcome,
}
use i_doris.Backend.Supervisor.Release.{
  confirm_memory_released, resolve_load_failure, is_postcondition_failed, is_unresolved,
  restored_or_stopped, released_or_error,
}
use i_doris.Backend.Supervisor.LoadFlow.{
  LoadRequest, Found, finish, clear_or_retain, evict_victims, resolve, best_effort, fail_eviction,
  verify_inherited, fail_unverified, fail_load, probe, after_load, attempt_load, fail_release,
  retry, recover_oom, load_once, found_after, verify_and_load, run_load_flow,
}
use i_doris.Backend.Supervisor.Release.Evidence.{with_adapter_timeout-ok}
use i_doris.Backend.Supervisor.LoadFlow.Errors.{unresolved-cases, oom_resolved}

-- The three ways in which a load ends.
pub data Ending (r : LoadRequest) (previous : Option PreviousModel) (o : LoadOutcome) (log : Log)
    : Type 0 where
  loaded :
      (before : Log)
      → o.result ≡ ok tt
      → log ≡ clears_fence ∷ probes r.id ∷ before
      → r.adapter.probe_ready before r.id ≡ some (ok true)
      → r.adapter.clear (probes r.id ∷ before) ≡ ok tt
      → Ending r previous o log
  kept :
      (e : BackendError) (p : Option PreviousModel)
      → o.result ≡ err e
      → o.failure_outcome ≡ retain_unconfirmed_load p
      → (p ≡ previous) ⊎ (p ≡ none)
      → Ending r previous o log
  ended :
      (e : BackendError) (before : Log)
      → o.result ≡ err e
      → is_unresolved e ≡ false
      → log ≡ clears_fence ∷ before
      → r.adapter.clear before ≡ ok tt
      → Ending r previous o log

abbrev Ends : LoadRequest → Option PreviousModel → LoadOutcome × Log → Type 0
Ends r previous x = Ending r previous x.0 x.1

forgets :
    (r : LoadRequest) (previous : Option PreviousModel) (o : LoadOutcome) (log : Log)
    → Ending r none o log
    → Ending r previous o log
forgets r previous o log (loaded before a b c d) = loaded before a b c d
forgets r previous o log (kept e p a b (inl c)) = kept e p a b (inr c)
forgets r previous o log (kept e p a b (inr c)) = kept e p a b (inr c)
forgets r previous o log (ended e before a b c d) = ended e before a b c d

clear_or_retain-Ends :
    (r : LoadRequest) (found : Found) (e : BackendError) (x : LoadFailureOutcome × Log)
    → is_unresolved e ≡ false
    → Ends r found.previous (finish found (err e) (clear_or_retain r found.previous x))
unfolding clear_or_retain
clear_or_retain-Ends r found e (outcome, log) u = elim (Result-cases (r.adapter.clear log)) [
  | inl (f, h) ↦ kept e found.previous refl (rw h refl) (inl refl)
  | inr (done, h) ↦ ended e log refl u refl h
]

resolve-retains :
    (r : LoadRequest) (e : BackendError) (previous : Option PreviousModel) (log : Log)
    → is_unresolved e ≡ true
    → is_postcondition_failed e ≡ false
    → (resolve r e previous log).0 ≡ retain_unconfirmed_load previous
unfolding resolve resolve_load_failure
resolve-retains r e previous log u p = rw (p, u, resolve_load_failure) refl

unresolved_no_postcondition :
    (e : BackendError) → is_unresolved e ≡ true → is_postcondition_failed e ≡ false
unresolved_no_postcondition e u = elim (unresolved-cases e) [ inl h ↦ cc (h, u) | inr (o, p) ↦ p ]

fail_load-Ends :
    (r : LoadRequest) (found : Found) (e : BackendError) (log : Log)
    → Ends r found.previous (fail_load r found e log)
unfolding fail_load
fail_load-Ends r found e log = elim (Bool-cases (is_unresolved e)) [
  | inl u ↦
      kept e found.previous refl
        (rw (u, fail_load)
          (resolve-retains r e found.previous log u (unresolved_no_postcondition e u)))
        (inl refl)
  | inr u ↦ rw (u, fail_load) (clear_or_retain-Ends r found e (resolve r e found.previous log) u)
]

probe-Ends :
    (r : LoadRequest) (found : Found) (attempts : ℕ) (log : Log)
    → Ends r found.previous (probe r found attempts log)
unfolding probe
probe-Ends r found zero log = kept (probe_timed_out r.id) found.previous refl refl (inl refl)
probe-Ends r found (suc attempts) log =
    let asked = probes r.id ∷ log in
    elim (Result-cases (with_adapter_timeout (r.adapter.probe_ready log r.id) r.id)) [
      | inl (e, h) ↦ rw (h, probe) (kept e found.previous refl refl (inl refl))
      | inr (true, h) ↦ elim (Result-cases (r.adapter.clear asked)) [
        | inl (e, c) ↦ rw (h, c, probe) (kept e found.previous refl refl (inl refl))
        | inr (tt, c) ↦
            rw (h, c, probe)
              (loaded log refl refl
                (with_adapter_timeout-ok (r.adapter.probe_ready log r.id) r.id h) c)
      ]
      | inr (false, h) ↦ rw (h, probe) (probe-Ends r found attempts asked)
    ]

after_load-Ends :
    (r : LoadRequest) (found : Found) (x : Result BackendError (Unit {0})) (log : Log)
    → Ends r found.previous (after_load r found x log)
unfolding after_load
after_load-Ends r found (err e) log = fail_load-Ends r found e log
after_load-Ends r found (ok done) log = probe-Ends r found r.config.probe_max_attempts log

fail_release-Ends :
    (r : LoadRequest) (found : Found) (e : BackendError) (log : Log)
    → is_unresolved e ≡ false
    → Ends r found.previous (fail_release r found e log)
unfolding fail_release
fail_release-Ends r found e log u =
    let cleanup = best_effort r log in
    clear_or_retain-Ends r found e (released_or_error found.previous cleanup.0, cleanup.1) u

recover_oom-Ends :
    (r : LoadRequest) (found : Found) (e : BackendError) (log : Log)
    → is_unresolved e ≡ false
    → Ends r found.previous (recover_oom r found e log)
unfolding recover_oom retry
recover_oom-Ends r found e log u =
    let n = r.config.release_confirm_max_attempts in
    let gb = r.release_limits.target_absent_gb in
    let release = confirm_memory_released r.adapter n (r.id ∷ []) gb log in
    elim (Result-cases release.0) [
      | inl (f, h) ↦ rw (h, recover_oom) (fail_release-Ends r found e release.1 u)
      | inr (status, h) ↦ elim (Bool-cases r.is_inherited) [
        | inl i ↦
            simp (h, i, recover_oom)
              (clear_or_retain-Ends r found e (settle_released status, release.1) u)
        | inr i ↦
            let again = record found {
              aggregate_status = some status;
              aggregate_target_credit_gb = zero_gb;
              previous = none;
            } in
            let later = loads r.id r.policy ∷ release.1 in
            let x = after_load r again (attempt_load r release.1) later in
            simp (h, i, recover_oom)
              (forgets r found.previous x.0 x.1
                (after_load-Ends r again (attempt_load r release.1) later))
      ]
    ]

load_once-Ends :
    (r : LoadRequest) (found : Found) (log : Log) → Ends r found.previous (load_once r found log)
unfolding load_once
load_once-Ends r found log =
    let later = loads r.id r.policy ∷ log in
    elim (Result-cases (attempt_load r log)) [
      | inl (e, h) ↦ elim (Bool-cases (is_oom e)) [
        | inl o ↦ rw (h, o, load_once) (recover_oom-Ends r found e later (oom_resolved e o))
        | inr o ↦ rw (h, o, load_once) (after_load-Ends r found (err e) later)
      ]
      | inr (done, h) ↦ rw (h, load_once) (after_load-Ends r found (ok done) later)
    ]

verify_and_load-Ends :
    (r : LoadRequest) (found : Found) (log : Log)
    → Ends r found.previous (verify_and_load r found log)
unfolding verify_and_load fail_unverified
verify_and_load-Ends r found log =
    let later = (verify_inherited r log).1 in
    elim (Bool-cases r.is_inherited) [
      | inl i ↦ elim (Bool-cases (verify_inherited r log).0) [
        | inl v ↦ simp (i, v, verify_and_load) (load_once-Ends r found later)
        | inr v ↦
            simp (i, v, verify_and_load)
              (clear_or_retain-Ends r found (model_unavailable r.id)
                (restored_or_stopped found.previous, later) refl)
      ]
      | inr i ↦ simp (i, verify_and_load) (load_once-Ends r found log)
    ]

-- A load ends in one of three ways: it succeeds, its last two calls being a probe that found the
-- model ready and the fence's `clear`, which succeeded; or it fails and keeps the ledger's entry as
-- that of a load that may still run; or it fails with an error other than a load without an answer
-- or without confirmation, and its last call was the fence's `clear`, which succeeded.
pub run_load_flow-Ending :
    (r : LoadRequest) (evict : List Text) (previous : Option PreviousModel) (log : Log)
    → Ending r previous
        (run_load_flow r evict previous log).0
        (run_load_flow r evict previous log).1
unfolding run_load_flow fail_eviction
run_load_flow-Ending r evict previous log =
    let evicted = evict_victims r evict log in
    let found = found_after evicted.0 previous in
    elim (Bool-cases evicted.0.has_failed) [
      | inl f ↦
          rw (f, run_load_flow)
            (clear_or_retain-Ends r found (eviction_failed r.id)
              (resolve r (eviction_failed r.id) previous evicted.1) refl)
      | inr f ↦ rw (f, run_load_flow) (verify_and_load-Ends r found evicted.1)
    ]
