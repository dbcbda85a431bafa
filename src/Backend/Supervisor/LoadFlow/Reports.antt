-- ===== src/Backend/Supervisor/LoadFlow/Reports.antt =====
-- crates/idoris-backend/src/supervisor.rs: after the eviction, no step of a load changes what is
-- reported of the victims.
use i_doris.Prelude.{
  ℕ, zero, suc, true, false, none, some, [], ◌∷◌, ◌≡◌, refl, inl, inr, Bool-cases,
}
use i_doris.Prelude.Results.{Result, ok, err, Result-cases}
use i_doris.Backend.Error.{BackendError, is_oom}
use i_doris.Backend.Eviction.{zero_gb}
use i_doris.Backend.Supervisor.Adapter.{
  clears_fence, loads, probes, Log, with_adapter_timeout, LoadOutcome,
}
use i_doris.Backend.Supervisor.Release.{confirm_memory_released}
use i_doris.Backend.Supervisor.LoadFlow.{
  LoadRequest, Found, verify_inherited, accept_ready, probe, fail_load, after_load, attempt_load,
  recover_oom, retry, load_once, verify_and_load, fail_unverified, fail_release,
}

-- The results of the victims that are reported are those that were found.
abbrev pub Reports : Found → LoadOutcome × Log → Type 0
Reports found x = x.0.victim_results ≡ found.victim_results

accept_ready-Reports :
    (found : Found) (x : Result BackendError (Unit {0})) (log : Log)
    → Reports found (accept_ready found x log)
accept_ready-Reports found (ok done) log = refl
accept_ready-Reports found (err e) log = refl

probe-Reports :
    (r : LoadRequest) (found : Found) (attempts : ℕ) (log : Log)
    → Reports found (probe r found attempts log)
unfolding probe
probe-Reports r found zero log = refl
probe-Reports r found (suc attempts) log =
    let asked = probes r.id ∷ log in
    elim (Result-cases (with_adapter_timeout (r.adapter.probe_ready log r.id) r.id)) [
      | inl (e, h) ↦ rw (h, probe) refl
      | inr (true, h) ↦
          rw (h, probe) (accept_ready-Reports found (r.adapter.clear asked) (clears_fence ∷ asked))
      | inr (false, h) ↦ rw (h, probe) (probe-Reports r found attempts asked)
    ]

after_load-Reports :
    (r : LoadRequest) (found : Found) (x : Result BackendError (Unit {0})) (log : Log)
    → Reports found (after_load r found x log)
unfolding after_load fail_load
after_load-Reports r found (err e) log = refl
after_load-Reports r found (ok done) log = probe-Reports r found r.config.probe_max_attempts log

recover_oom-Reports :
    (r : LoadRequest) (found : Found) (e : BackendError) (log : Log)
    → Reports found (recover_oom r found e log)
unfolding recover_oom retry fail_release
recover_oom-Reports r found e log =
    let n = r.config.release_confirm_max_attempts in
    let gb = r.release_limits.target_absent_gb in
    let release = confirm_memory_released r.adapter n (r.id ∷ []) gb log in
    elim (Result-cases release.0) [
      | inl (f, h) ↦ rw (h, recover_oom) refl
      | inr (status, h) ↦ elim (Bool-cases r.is_inherited) [
        | inl i ↦ simp (h, i, recover_oom) refl
        | inr i ↦
            let again = record found {
              aggregate_status = some status;
              aggregate_target_credit_gb = zero_gb;
              previous = none;
            } in
            simp (h, i, recover_oom)
              (after_load-Reports r again (attempt_load r release.1)
                (loads r.id r.policy ∷ release.1))
      ]
    ]

load_once-Reports :
    (r : LoadRequest) (found : Found) (log : Log) → Reports found (load_once r found log)
unfolding load_once
load_once-Reports r found log =
    let later = loads r.id r.policy ∷ log in
    elim (Result-cases (attempt_load r log)) [
      | inl (e, h) ↦ elim (Bool-cases (is_oom e)) [
        | inl o ↦ rw (h, o, load_once) (recover_oom-Reports r found e later)
        | inr o ↦ rw (h, o, load_once) (after_load-Reports r found (err e) later)
      ]
      | inr (done, h) ↦ rw (h, load_once) (after_load-Reports r found (ok done) later)
    ]

pub verify_and_load-Reports :
    (r : LoadRequest) (found : Found) (log : Log) → Reports found (verify_and_load r found log)
unfolding verify_and_load fail_unverified
verify_and_load-Reports r found log =
    let later = (verify_inherited r log).1 in
    elim (Bool-cases r.is_inherited) [
      | inl i ↦ elim (Bool-cases (verify_inherited r log).0) [
        | inl v ↦ simp (i, v, verify_and_load) (load_once-Reports r found later)
        | inr v ↦ simp (i, v, verify_and_load) refl
      ]
      | inr i ↦ simp (i, verify_and_load) (load_once-Reports r found log)
    ]
