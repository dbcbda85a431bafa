-- ===== src/Backend/Supervisor/Release/Evidence.antt =====
-- What the calls that confirm a release show, and that they request no load.
use i_doris.Prelude.{
  ℕ, zero, suc, Bool, true, false, Option, none, some, List, [], ◌∷◌, ◌≡◌, refl, inl, inr,
  Bool-cases,
}
use i_doris.Prelude.Equality.{Text, codes}
use i_doris.Prelude.Float.{F64}
use i_doris.Prelude.Results.{Result, ok, err, Result-cases}
use i_doris.Backend.Error.{BackendError}
use i_doris.Backend.Supervisor.Adapter.{
  Call, BackendStatus, asks_status, unloads, loads, Log, Adapter, with_adapter_timeout,
  PreviousModel,
}
use i_doris.Backend.Supervisor.Release.{
  shows_release, confirm_memory_released, ok_status, best_effort_release, resolve_load_failure,
  is_postcondition_failed, is_unresolved,
}

abbrev is_load : Call → Bool
is_load (loads id policy) = true
is_load _ = false

-- The later log is the earlier one after further calls, none of which requests a load.
pub data Quiet (log : Log) : Log → Type 0 where
  stay : Quiet log log
  more : {later : Log} {c : Call} → is_load c ≡ false → Quiet log later → Quiet log (c ∷ later)

pub Quiet-trans : {a b c : Log} → Quiet a b → Quiet b c → Quiet a c
Quiet-trans q stay = q
Quiet-trans q (more e r) = more e (Quiet-trans q r)

abbrev pub one : {log : Log} {c : Call} → is_load c ≡ false → Quiet log (c ∷ log)
one e = more e stay

-- A status that shows the release was the last answer.
pub record Confirms (adapter : Adapter) (targets : List Text) (max_used_gb : F64) (log : Log)
    (status : BackendStatus) : Type 0 where
  pub before : Log
  pub last : log ≡ asks_status ∷ before
  pub answer : adapter.status before ≡ some (ok status)
  pub shown : shows_release targets max_used_gb status ≡ true

pub with_adapter_timeout-ok :
    {A : Type 0} (answer : Option (Result BackendError A)) (id : Text) {a : A}
    → with_adapter_timeout answer id ≡ ok a
    → answer ≡ some (ok a)
with_adapter_timeout-ok none id h = cc h
with_adapter_timeout-ok (some r) id h = cc h

pub confirm_memory_released-Quiet :
    (a : Adapter) (attempts : ℕ) (targets : List Text) (gb : F64) (log : Log)
    → Quiet log (confirm_memory_released a attempts targets gb log).1
unfolding confirm_memory_released
confirm_memory_released-Quiet a zero targets gb log = stay
confirm_memory_released-Quiet a (suc attempts) targets gb log =
    let later =
      Quiet-trans (one refl)
        (confirm_memory_released-Quiet a attempts targets gb (asks_status ∷ log)) in
    elim (Result-cases (with_adapter_timeout (a.status log) (codes "status"))) [
      | inl (e, h) ↦ rw (h, confirm_memory_released) later
      | inr (status, h) ↦ elim (Bool-cases (shows_release targets gb status)) [
        | inl s ↦ rw (h, s, confirm_memory_released) (one refl)
        | inr s ↦ rw (h, s, confirm_memory_released) later
      ]
    ]

pub confirm_memory_released-Confirms :
    (a : Adapter) (attempts : ℕ) (targets : List Text) (gb : F64) (log : Log)
    (status : BackendStatus)
    → (confirm_memory_released a attempts targets gb log).0 ≡ ok status
    → Confirms a targets gb (confirm_memory_released a attempts targets gb log).1 status
unfolding confirm_memory_released
confirm_memory_released-Confirms a zero targets gb log status h = cc h
confirm_memory_released-Confirms a (suc attempts) targets gb log status h =
    elim (Result-cases (with_adapter_timeout (a.status log) (codes "status"))) [
      | inl (e, f) ↦
          rw (f, confirm_memory_released)
            (confirm_memory_released-Confirms a attempts targets gb (asks_status ∷ log) status
              (rw (f, confirm_memory_released) at h))
      | inr (s, f) ↦ elim (Bool-cases (shows_release targets gb s)) [
        | inl shown ↦
            let same : s ≡ status = cc (rw (f, shown, confirm_memory_released) at h) in
            rw (f, shown, confirm_memory_released)
              (record {
                before = log;
                last = refl;
                answer = rw same at (with_adapter_timeout-ok (a.status log) (codes "status") f);
                shown = rw same at shown;
              })
        | inr hidden ↦
            rw (f, hidden, confirm_memory_released)
              (confirm_memory_released-Confirms a attempts targets gb (asks_status ∷ log) status
                (rw (f, hidden, confirm_memory_released) at h))
      ]
    ]

pub ok_status-log : (r : Result BackendError BackendStatus × Log) → (ok_status r).1 ≡ r.1
ok_status-log (ok status, log) = refl
ok_status-log (err e, log) = refl

pub best_effort_release-Quiet :
    (a : Adapter) (attempts : ℕ) (id : Text) (gb : F64) (log : Log)
    → Quiet log (best_effort_release a attempts id gb log).1
unfolding best_effort_release
best_effort_release-Quiet a attempts id gb log =
    elim (Result-cases (with_adapter_timeout (a.unload log id) id)) [
      | inl (e, h) ↦ rw (h, best_effort_release) (one refl)
      | inr (done, h) ↦
          rw
            (
              h,
              ok_status-log (confirm_memory_released a attempts (id ∷ []) gb (unloads id ∷ log)),
              best_effort_release,
            )
            (Quiet-trans (one refl)
              (confirm_memory_released-Quiet a attempts (id ∷ []) gb (unloads id ∷ log)))
    ]

pub resolve_load_failure-Quiet :
    (a : Adapter) (attempts : ℕ) (id : Text) (e : BackendError) (previous : Option PreviousModel)
    (gb : F64) (log : Log)
    → Quiet log (resolve_load_failure a attempts id e previous gb log).1
unfolding resolve_load_failure
resolve_load_failure-Quiet a attempts id e previous gb log =
    let cleanup = best_effort_release-Quiet a attempts id gb log in
    elim (Bool-cases (is_postcondition_failed e)) [
      | inl h ↦ rw (h, resolve_load_failure) cleanup
      | inr h ↦ elim (Bool-cases (is_unresolved e)) [
        | inl u ↦ rw (h, u, resolve_load_failure) cleanup
        | inr u ↦ rw (h, u, resolve_load_failure) stay
      ]
    ]
