-- ===== src/Backend/Supervisor/LoadFlow/Traces.antt =====
-- The calls that a load makes, with its requests of the adapter to load.
use i_doris.Prelude.{true, false, Option, none, some, List, [], ◌∷◌, ◌≡◌, inl, inr, Bool-cases}
use i_doris.Prelude.Equality.{Text}
use i_doris.Prelude.Results.{ok, err, Result-cases}
use i_doris.Backend.Error.{BackendError, is_oom}
use i_doris.Backend.Eviction.{zero_gb}
use i_doris.Backend.Supervisor.Adapter.{BackendStatus, loads, Log, PreviousModel, settle_released}
use i_doris.Backend.Supervisor.Release.{confirm_memory_released}
use i_doris.Backend.Supervisor.LoadFlow.{
  LoadRequest, Found, evict_victims, verify_inherited, attempt_load, retry, recover_oom, load_once,
  found_after, verify_and_load, run_load_flow,
}
use i_doris.Backend.Supervisor.Quiet.{
  clear_or_retain-Quiet, evict_victims-Quiet, fail_eviction-Quiet, verify_inherited-Quiet,
  fail_unverified-Quiet, after_load-Quiet, fail_release-Quiet,
}
use i_doris.Backend.Supervisor.Release.Evidence.{
  Quiet, stay, Quiet-trans, Confirms, confirm_memory_released-Quiet,
  confirm_memory_released-Confirms,
}

abbrev asked : LoadRequest → Log → Log
asked r log = loads r.id r.policy ∷ log

-- No request to load, or one, or a second one after the first ran out of memory and a status showed
-- that the model is gone.
pub data LoadTrace (r : LoadRequest) (log : Log) : Log → Type 0 where
  not_asked : {later : Log} → Quiet log later → LoadTrace r log later
  asked_once :
      {before later : Log} → Quiet log before → Quiet (asked r before) later → LoadTrace r log later
  asked_twice :
      {before between later : Log} (e : BackendError) (status : BackendStatus)
      → Quiet log before
      → attempt_load r before ≡ err e
      → is_oom e ≡ true
      → r.is_inherited ≡ false
      → Quiet (asked r before) between
      → Confirms r.adapter (r.id ∷ []) r.release_limits.target_absent_gb between status
      → Quiet (asked r between) later
      → LoadTrace r log later

LoadTrace-after : (r : LoadRequest) {a b c : Log} → Quiet a b → LoadTrace r b c → LoadTrace r a c
LoadTrace-after r q (not_asked p) = not_asked (Quiet-trans q p)
LoadTrace-after r q (asked_once p s) = asked_once (Quiet-trans q p) s
LoadTrace-after r q (asked_twice e status p h o i s t u) =
    asked_twice e status (Quiet-trans q p) h o i s t u

recover_oom-LoadTrace :
    (r : LoadRequest) (found : Found) (e : BackendError) (log : Log)
    → attempt_load r log ≡ err e
    → is_oom e ≡ true
    → LoadTrace r log (recover_oom r found e (asked r log)).1
unfolding recover_oom retry
recover_oom-LoadTrace r found e log failed oom =
    let n = r.config.release_confirm_max_attempts in
    let gb = r.release_limits.target_absent_gb in
    let release = confirm_memory_released r.adapter n (r.id ∷ []) gb (asked r log) in
    let quiet = confirm_memory_released-Quiet r.adapter n (r.id ∷ []) gb (asked r log) in
    elim (Result-cases release.0) [
      | inl (f, h) ↦
          rw (h, recover_oom)
            (asked_once stay (Quiet-trans quiet (fail_release-Quiet r found e release.1)))
      | inr (status, h) ↦ elim (Bool-cases r.is_inherited) [
        | inl i ↦
            simp (h, i, recover_oom)
              (asked_once stay (
                clear_or_retain-Quiet r found.previous (asked r log)
                  (settle_released status, release.1) quiet))
        | inr i ↦
            let confirms =
              confirm_memory_released-Confirms r.adapter n (r.id ∷ []) gb (asked r log) status h in
            let again = record found {
              aggregate_status = some status;
              aggregate_target_credit_gb = zero_gb;
              previous = none;
            } in
            simp (h, i, recover_oom)
              (asked_twice e status stay failed oom i quiet confirms
                (after_load-Quiet r again (attempt_load r release.1) (asked r release.1)))
      ]
    ]

load_once-LoadTrace :
    (r : LoadRequest) (found : Found) (log : Log) → LoadTrace r log (load_once r found log).1
unfolding load_once
load_once-LoadTrace r found log = elim (Result-cases (attempt_load r log)) [
  | inl (e, h) ↦ elim (Bool-cases (is_oom e)) [
    | inl o ↦ rw (h, o, load_once) (recover_oom-LoadTrace r found e log h o)
    | inr o ↦
        rw (h, o, load_once) (asked_once stay (after_load-Quiet r found (err e) (asked r log)))
  ]
  | inr (done, h) ↦
      rw (h, load_once) (asked_once stay (after_load-Quiet r found (ok done) (asked r log)))
]

verify_and_load-LoadTrace :
    (r : LoadRequest) (found : Found) (log : Log) → LoadTrace r log (verify_and_load r found log).1
unfolding verify_and_load
verify_and_load-LoadTrace r found log =
    let (verified, later) = verify_inherited r log in
    let quiet = verify_inherited-Quiet r log in
    elim (Bool-cases r.is_inherited) [
      | inl i ↦ elim (Bool-cases (verify_inherited r log).0) [
        | inl v ↦
            simp (i, v, verify_and_load)
              (LoadTrace-after r quiet (load_once-LoadTrace r found later))
        | inr v ↦
            simp (i, v, verify_and_load)
              (not_asked (Quiet-trans quiet (fail_unverified-Quiet r found later)))
      ]
      | inr i ↦ simp (i, verify_and_load) (load_once-LoadTrace r found log)
    ]

-- A load asks the adapter to load the model at most twice; it asks a second time only where the first
-- request ran out of memory, the model was not inherited, and the last call before the second request
-- was a status by which the model is gone and the memory it needs is there.
pub run_load_flow-LoadTrace :
    (r : LoadRequest) (evict : List Text) (previous : Option PreviousModel) (log : Log)
    → LoadTrace r log (run_load_flow r evict previous log).1
unfolding run_load_flow
run_load_flow-LoadTrace r evict previous log =
    let evicted = evict_victims r evict log in
    let found = found_after evicted.0 previous in
    let quiet = evict_victims-Quiet r evict log in
    elim (Bool-cases evicted.0.has_failed) [
      | inl f ↦
          rw (f, run_load_flow)
            (not_asked (Quiet-trans quiet (fail_eviction-Quiet r found evicted.1)))
      | inr f ↦
          rw (f, run_load_flow)
            (LoadTrace-after r quiet (verify_and_load-LoadTrace r found evicted.1))
    ]
