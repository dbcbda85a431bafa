-- ===== src/Backend/Supervisor/Quiet.antt =====
-- The steps of a load that call the adapter and request no load.
use i_doris.Prelude.{
  ℕ, zero, suc, true, false, Option, List, [], ◌∷◌, ◌≡◌, refl, inl, inr, Bool-cases,
}
use i_doris.Prelude.Equality.{Text, codes}
use i_doris.Prelude.Results.{Result, ok, err, Result-cases}
use i_doris.Backend.Error.{BackendError, eviction_failed}
use i_doris.Backend.Supervisor.Adapter.{
  clears_fence, unloads, probes, Log, Adapter, with_adapter_timeout, PreviousModel,
  LoadFailureOutcome,
}
use i_doris.Backend.Supervisor.Release.{is_unresolved, restored_or_stopped, released_or_error}
use i_doris.Backend.Supervisor.LoadFlow.{
  LoadRequest, Found, clear_or_retain, unload_victims, evict_victims, resolve, best_effort,
  fail_eviction, shows_identity, verify_inherited, fail_unverified, fail_load, accept_ready, probe,
  after_load, fail_release,
}
use i_doris.Backend.Supervisor.Release.Evidence.{
  Quiet, Quiet-trans, one, confirm_memory_released-Quiet, best_effort_release-Quiet,
  resolve_load_failure-Quiet, stay, more,
}

pub clear_or_retain-Quiet :
    (r : LoadRequest) (previous : Option PreviousModel) (log : Log) (x : LoadFailureOutcome × Log)
    → Quiet log x.1
    → Quiet log (clear_or_retain r previous x).1
unfolding clear_or_retain
clear_or_retain-Quiet r previous log (outcome, later) q = more refl q

unload_victims-Quiet :
    (a : Adapter) (victims : List Text) (log : Log) → Quiet log (unload_victims a victims log).1
unfolding unload_victims
unload_victims-Quiet a [] log = stay
unload_victims-Quiet a (v ∷ vs) log =
    Quiet-trans (one refl) (unload_victims-Quiet a vs (unloads v ∷ log))

pub evict_victims-Quiet :
    (r : LoadRequest) (targets : List Text) (log : Log) → Quiet log (evict_victims r targets log).1
unfolding evict_victims
evict_victims-Quiet r [] log = stay
evict_victims-Quiet r (v ∷ vs) log = Quiet-trans (unload_victims-Quiet r.adapter (v ∷ vs) log) (
    confirm_memory_released-Quiet r.adapter r.config.release_confirm_max_attempts (v ∷ vs)
      r.release_limits.after_eviction_gb (unload_victims r.adapter (v ∷ vs) log).1)

best_effort-Quiet : (r : LoadRequest) (log : Log) → Quiet log (best_effort r log).1
unfolding best_effort
best_effort-Quiet r log =
    best_effort_release-Quiet r.adapter r.config.release_confirm_max_attempts r.id
      r.release_limits.target_absent_gb log

resolve-Quiet :
    (r : LoadRequest) (e : BackendError) (previous : Option PreviousModel) (log : Log)
    → Quiet log (resolve r e previous log).1
unfolding resolve
resolve-Quiet r e previous log =
    resolve_load_failure-Quiet r.adapter r.config.release_confirm_max_attempts r.id e previous
      r.release_limits.target_absent_gb log

pub fail_eviction-Quiet :
    (r : LoadRequest) (found : Found) (log : Log) → Quiet log (fail_eviction r found log).1
unfolding fail_eviction
fail_eviction-Quiet r found log =
    let e = eviction_failed r.id in
    clear_or_retain-Quiet r found.previous log (resolve r e found.previous log)
      (resolve-Quiet r e found.previous log)

pub verify_inherited-Quiet : (r : LoadRequest) (log : Log) → Quiet log (verify_inherited r log).1
unfolding verify_inherited
verify_inherited-Quiet r log =
    elim (Bool-cases (
      shows_identity r
        (with_adapter_timeout (r.adapter.status log) (codes "startup/inherited-status")))) [
          | inl h ↦ rw (h, verify_inherited) (more refl (one refl))
          | inr h ↦ rw (h, verify_inherited) (one refl)
        ]

pub fail_unverified-Quiet :
    (r : LoadRequest) (found : Found) (log : Log) → Quiet log (fail_unverified r found log).1
unfolding fail_unverified
fail_unverified-Quiet r found log =
    clear_or_retain-Quiet r found.previous log (restored_or_stopped found.previous, log) stay

fail_load-Quiet :
    (r : LoadRequest) (found : Found) (e : BackendError) (log : Log)
    → Quiet log (fail_load r found e log).1
unfolding fail_load
fail_load-Quiet r found e log =
    let failure = resolve-Quiet r e found.previous log in
    elim (Bool-cases (is_unresolved e)) [
      | inl u ↦ rw (u, fail_load) failure
      | inr u ↦
          rw (u, fail_load)
            (clear_or_retain-Quiet r found.previous log (resolve r e found.previous log) failure)
    ]

pub accept_ready-log :
    (found : Found) (x : Result BackendError (Unit {0})) (log : Log)
    → (accept_ready found x log).1 ≡ log
accept_ready-log found (ok done) log = refl
accept_ready-log found (err e) log = refl

probe-Quiet :
    (r : LoadRequest) (found : Found) (attempts : ℕ) (log : Log)
    → Quiet log (probe r found attempts log).1
unfolding probe
probe-Quiet r found zero log = best_effort-Quiet r log
probe-Quiet r found (suc attempts) log =
    let asked = probes r.id ∷ log in
    elim (Result-cases (with_adapter_timeout (r.adapter.probe_ready log r.id) r.id)) [
      | inl (e, h) ↦ rw (h, probe) (Quiet-trans (one refl) (best_effort-Quiet r asked))
      | inr (true, h) ↦
          rw (h, accept_ready-log found (r.adapter.clear asked) (clears_fence ∷ asked), probe)
            (more refl (one refl))
      | inr (false, h) ↦ rw (h, probe) (Quiet-trans (one refl) (probe-Quiet r found attempts asked))
    ]

pub after_load-Quiet :
    (r : LoadRequest) (found : Found) (x : Result BackendError (Unit {0})) (log : Log)
    → Quiet log (after_load r found x log).1
unfolding after_load
after_load-Quiet r found (err e) log = fail_load-Quiet r found e log
after_load-Quiet r found (ok done) log = probe-Quiet r found r.config.probe_max_attempts log

pub fail_release-Quiet :
    (r : LoadRequest) (found : Found) (e : BackendError) (log : Log)
    → Quiet log (fail_release r found e log).1
unfolding fail_release
fail_release-Quiet r found e log =
    let cleanup = best_effort r log in
    clear_or_retain-Quiet r found.previous log
      (released_or_error found.previous cleanup.0, cleanup.1) (best_effort-Quiet r log)
