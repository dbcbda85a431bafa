-- ===== src/Backend/Supervisor/LoadFlow/Steps.antt =====
-- The number of calls of the steps of a load.
use i_doris.Prelude.{
  ℕ, zero, suc, ◌+◌, ◌≤◌, true, false, Option, List, [], ◌∷◌, inl, inr, Bool-cases, arith, length,
}
use i_doris.Prelude.Equality.{Text, codes}
use i_doris.Prelude.Float.{F64}
use i_doris.Prelude.Results.{Result-cases}
use i_doris.Backend.Error.{BackendError, eviction_failed}
use i_doris.Backend.Supervisor.Adapter.{
  Adapter, asks_status, unloads, clears_fence, probes, Log, with_adapter_timeout, PreviousModel,
  LoadFailureOutcome,
}
use i_doris.Backend.Supervisor.Release.{
  shows_release, confirm_memory_released, best_effort_release, resolve_load_failure,
  is_postcondition_failed, is_unresolved,
}
use i_doris.Backend.Supervisor.LoadFlow.{
  LoadRequest, Found, clear_or_retain, unload_victims, evict_victims, resolve, best_effort,
  fail_eviction, fail_load, probe,
}
use i_doris.Backend.Supervisor.Quiet.{accept_ready-log}
use i_doris.Backend.Supervisor.Release.Evidence.{ok_status-log}

-- The later log has at most `n` calls more.
abbrev pub Within : ℕ → Log → Log → Type 0
Within n log later = length later ≤ n + length log

pub confirm-Within :
    (a : Adapter) (attempts : ℕ) (targets : List Text) (gb : F64) (log : Log)
    → Within attempts log (confirm_memory_released a attempts targets gb log).1
unfolding confirm_memory_released
confirm-Within a zero targets gb log = omega arith
confirm-Within a (suc attempts) targets gb log =
    let rest = confirm-Within a attempts targets gb (asks_status ∷ log) in
    elim (Result-cases (with_adapter_timeout (a.status log) (codes "status"))) [
      | inl (e, h) ↦ rw (h, confirm_memory_released) (omega (arith, rest))
      | inr (status, h) ↦ elim (Bool-cases (shows_release targets gb status)) [
        | inl s ↦ rw (h, s, confirm_memory_released) (omega arith)
        | inr s ↦ rw (h, s, confirm_memory_released) (omega (arith, rest))
      ]
    ]

pub best_effort-Within :
    (r : LoadRequest) (log : Log)
    → Within (1 + r.config.release_confirm_max_attempts) log (best_effort r log).1
unfolding best_effort best_effort_release
best_effort-Within r log =
    let gb = r.release_limits.target_absent_gb in
    let n = r.config.release_confirm_max_attempts in
    elim (Result-cases (with_adapter_timeout (r.adapter.unload log r.id) r.id)) [
      | inl (e, h) ↦ rw (h, best_effort_release) (omega arith)
      | inr (done, h) ↦
          let rest = confirm-Within r.adapter n (r.id ∷ []) gb (unloads r.id ∷ log) in
          rw
            (
              h,
              ok_status-log
                  (confirm_memory_released r.adapter n (r.id ∷ []) gb (unloads r.id ∷ log)),
              best_effort_release,
            )
            (omega (arith, rest))
    ]

resolve-Within :
    (r : LoadRequest) (e : BackendError) (previous : Option PreviousModel) (log : Log)
    → Within (1 + r.config.release_confirm_max_attempts) log (resolve r e previous log).1
unfolding resolve resolve_load_failure best_effort
resolve-Within r e previous log =
    let cleanup = best_effort-Within r log in
    elim (Bool-cases (is_postcondition_failed e)) [
      | inl h ↦ rw (h, resolve_load_failure) cleanup
      | inr h ↦ elim (Bool-cases (is_unresolved e)) [
        | inl u ↦ rw (h, u, resolve_load_failure) cleanup
        | inr u ↦ rw (h, u, resolve_load_failure) (omega arith)
      ]
    ]

pub clear_or_retain-Within :
    (r : LoadRequest) (previous : Option PreviousModel) (x : LoadFailureOutcome × Log)
    → Within 1 x.1 (clear_or_retain r previous x).1
unfolding clear_or_retain
clear_or_retain-Within r previous (outcome, log) = omega arith

unload_victims-Within :
    (a : Adapter) (victims : List Text) (log : Log)
    → Within (length victims) log (unload_victims a victims log).1
unfolding unload_victims
unload_victims-Within a [] log = omega arith
unload_victims-Within a (v ∷ vs) log = omega (arith, unload_victims-Within a vs (unloads v ∷ log))

pub evict_victims-Within :
    (r : LoadRequest) (evict : List Text) (log : Log)
    → Within
        (length evict + r.config.release_confirm_max_attempts)
        log
        (evict_victims r evict log).1
unfolding evict_victims
evict_victims-Within r [] log = omega arith
evict_victims-Within r (v ∷ vs) log =
    let later = (unload_victims r.adapter (v ∷ vs) log).1 in
    let unloaded = unload_victims-Within r.adapter (v ∷ vs) log in
    let released =
      confirm-Within r.adapter r.config.release_confirm_max_attempts (v ∷ vs)
        r.release_limits.after_eviction_gb later in
    omega (arith, unloaded, released)

pub fail_eviction-Within :
    (r : LoadRequest) (found : Found) (log : Log)
    → Within (2 + r.config.release_confirm_max_attempts) log (fail_eviction r found log).1
unfolding fail_eviction
fail_eviction-Within r found log =
    let e = eviction_failed r.id in
    let failure = resolve r e found.previous log in
    omega (
      arith,
      clear_or_retain-Within r found.previous failure,
      resolve-Within r e found.previous log,
    )

pub fail_load-Within :
    (r : LoadRequest) (found : Found) (e : BackendError) (log : Log)
    → Within (2 + r.config.release_confirm_max_attempts) log (fail_load r found e log).1
unfolding fail_load
fail_load-Within r found e log =
    let resolved = resolve-Within r e found.previous log in
    let cleared = clear_or_retain-Within r found.previous (resolve r e found.previous log) in
    elim (Bool-cases (is_unresolved e)) [
      | inl u ↦ rw (u, fail_load) (omega (arith, resolved))
      | inr u ↦ rw (u, fail_load) (omega (arith, resolved, cleared))
    ]

pub probe-Within :
    (r : LoadRequest) (found : Found) (attempts : ℕ) (log : Log)
    → Within
        (attempts + 1 + r.config.release_confirm_max_attempts)
        log
        (probe r found attempts log).1
unfolding probe
probe-Within r found zero log = omega (arith, best_effort-Within r log)
probe-Within r found (suc attempts) log =
    let asked = probes r.id ∷ log in
    elim (Result-cases (with_adapter_timeout (r.adapter.probe_ready log r.id) r.id)) [
      | inl (e, h) ↦ rw (h, probe) (omega (arith, best_effort-Within r asked))
      | inr (true, h) ↦
          rw (h, accept_ready-log found (r.adapter.clear asked) (clears_fence ∷ asked), probe)
            (omega arith)
      | inr (false, h) ↦ rw (h, probe) (omega (arith, probe-Within r found attempts asked))
    ]
