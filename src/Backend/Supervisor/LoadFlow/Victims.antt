-- ===== src/Backend/Supervisor/LoadFlow/Victims.antt =====
-- The victims of a load: what is reported of them, and what their failure means.
use i_doris.Prelude.{
  true, false, Option, List, [], ◌∷◌, ◌≡◌, refl, ap, ◌∙◌, ◌⊎◌, inl, inr, Bool-cases, map, any, all,
}
use i_doris.Prelude.Equality.{Text}
use i_doris.Prelude.Results.{Result, ok, err}
use i_doris.Backend.Error.{BackendError, eviction_failed}
use i_doris.Backend.Supervisor.Adapter.{
  Adapter, BackendStatus, unloads, Log, with_adapter_timeout, PreviousModel, VictimResult,
  LoadOutcome,
}
use i_doris.Backend.Supervisor.Release.{confirm_memory_released}
use i_doris.Backend.Supervisor.LoadFlow.{
  LoadRequest, unload_victims, victim_failed, fail_victim, Evicted, confirmed, evict_victims,
  fail_eviction, found_after, run_load_flow,
}
use i_doris.Backend.Supervisor.LoadFlow.Reports.{verify_and_load-Reports}
use i_doris.Backend.Supervisor.Quiet.{evict_victims-Quiet, fail_eviction-Quiet}
use i_doris.Backend.Supervisor.Release.Evidence.{Quiet, Quiet-trans}

abbrev pub victim_id : VictimResult → Text
victim_id (victim, result) = victim

unload_victims-ids :
    (a : Adapter) (victims : List Text) (log : Log)
    → map victim_id (unload_victims a victims log).0 ≡ victims
unfolding unload_victims
unload_victims-ids a [] log = refl
unload_victims-ids a (v ∷ vs) log =
    ap (λ rest. v ∷ rest) (unload_victims-ids a vs (unloads v ∷ log))

fail_victim-ids :
    (id : Text) (results : List VictimResult)
    → map victim_id (map (fail_victim id) results) ≡ map victim_id results
fail_victim-ids id [] = refl
fail_victim-ids id ((v, x) ∷ rest) = ap (λ later. v ∷ later) (fail_victim-ids id rest)

confirmed-ids :
    (id : Text) (results : List VictimResult) (x : Result BackendError BackendStatus)
    → map victim_id (confirmed id results x).victim_results ≡ map victim_id results
confirmed-ids id results (ok status) = refl
confirmed-ids id results (err e) = fail_victim-ids id results

confirmed-failed :
    (id : Text) (first : VictimResult) (rest : List VictimResult)
    (x : Result BackendError BackendStatus)
    → any victim_failed (confirmed id (first ∷ rest) x).victim_results
      ≡ (confirmed id (first ∷ rest) x).has_failed
confirmed-failed id first rest (ok status) = refl
confirmed-failed id (v, y) rest (err e) = refl

-- The victims in order, and whether one of them failed.
abbrev Describes : List Text → Evicted → Type 0
Describes evict e =
    (map victim_id e.victim_results ≡ evict) × (any victim_failed e.victim_results ≡ e.has_failed)

evict_victims-Describes :
    (r : LoadRequest) (evict : List Text) (log : Log)
    → Describes evict (evict_victims r evict log).0
unfolding evict_victims unload_victims
evict_victims-Describes r [] log = (refl, refl)
evict_victims-Describes r (v ∷ vs) log =
    let unloaded = unload_victims r.adapter (v ∷ vs) log in
    let later = unload_victims r.adapter vs (unloads v ∷ log) in
    let release =
      confirm_memory_released r.adapter r.config.release_confirm_max_attempts (v ∷ vs)
        r.release_limits.after_eviction_gb unloaded.1 in
    (
      confirmed-ids r.id unloaded.0 release.0 ∙ unload_victims-ids r.adapter (v ∷ vs) log,
      confirmed-failed r.id (v, with_adapter_timeout (r.adapter.unload log v) v) later.0 release.0,
    )

abbrev pub FailsClosed : LoadRequest → Log → LoadOutcome × Log → Type 0
FailsClosed r log x =
    (any victim_failed x.0.victim_results ≡ false)
    ⊎ ((x.0.result ≡ err (eviction_failed r.id)) × Quiet log x.1)

abbrev Aborts : LoadRequest → Log → LoadOutcome × Log → Type 0
Aborts r log x = (x.0.result ≡ err (eviction_failed r.id)) × Quiet log x.1

-- What a load makes of the unloads, once it has asked whether their memory is released.
abbrev pub AsReleased :
    LoadRequest
    → Log
    → LoadOutcome × Log
    → List VictimResult
    → Result BackendError BackendStatus
    → Type 0
AsReleased r log x unloaded (ok status) = x.0.victim_results ≡ unloaded
AsReleased r log x unloaded (err e) =
    (all victim_failed x.0.victim_results ≡ true)
    × (x.0.result ≡ err (eviction_failed r.id))
    × Quiet log x.1

-- The question is asked after the unloads, and only where there are victims.
abbrev pub FollowsRelease : LoadRequest → List Text → Log → LoadOutcome × Log → Type 0
FollowsRelease r [] log x = x.0.victim_results ≡ []
FollowsRelease r (v ∷ vs) log x =
    let unloaded = unload_victims r.adapter (v ∷ vs) log in
    let release =
      confirm_memory_released r.adapter r.config.release_confirm_max_attempts (v ∷ vs)
        r.release_limits.after_eviction_gb unloaded.1 in
    AsReleased r log x unloaded.0 release.0

fail_victim-all :
    (id : Text) (results : List VictimResult)
    → all victim_failed (map (fail_victim id) results) ≡ true
fail_victim-all id [] = refl
fail_victim-all id ((v, x) ∷ rest) = fail_victim-all id rest

confirmed-AsReleased :
    (r : LoadRequest) (log : Log) (x : LoadOutcome × Log) (unloaded : List VictimResult)
    (release : Result BackendError BackendStatus)
    → x.0.victim_results ≡ (confirmed r.id unloaded release).victim_results
    → ((confirmed r.id unloaded release).has_failed ≡ true → Aborts r log x)
    → AsReleased r log x unloaded release
confirmed-AsReleased r log x unloaded (ok status) same aborts = same
confirmed-AsReleased r log x unloaded (err e) same aborts =
    let (failed, quiet) = aborts refl in
    (ap (all victim_failed) same ∙ fail_victim-all r.id unloaded, failed, quiet)

evict_victims-FollowsRelease :
    (r : LoadRequest) (evict : List Text) (log : Log) (x : LoadOutcome × Log)
    → x.0.victim_results ≡ (evict_victims r evict log).0.victim_results
    → ((evict_victims r evict log).0.has_failed ≡ true → Aborts r log x)
    → FollowsRelease r evict log x
unfolding evict_victims
evict_victims-FollowsRelease r [] log x same aborts = same
evict_victims-FollowsRelease r (v ∷ vs) log x same aborts =
    confirmed-AsReleased r log x _ _ same aborts

-- However a load ends, it reports one result for each victim it was given, in their order; and
-- where a victim has failed, the load fails as an eviction that failed and never asks the adapter to
-- load. Where the release of the victims' memory is confirmed, the results are those of the unloads;
-- where it is asked for and not confirmed, all are failures, whatever the unloads said, and so the
-- load fails in that way.
pub run_load_flow-victims :
    (r : LoadRequest) (evict : List Text) (previous : Option PreviousModel) (log : Log)
    → (map victim_id (run_load_flow r evict previous log).0.victim_results ≡ evict)
      × FailsClosed r log (run_load_flow r evict previous log)
      × FollowsRelease r evict log (run_load_flow r evict previous log)
unfolding run_load_flow fail_eviction
run_load_flow-victims r evict previous log =
    let evicted = evict_victims r evict log in
    let found = found_after evicted.0 previous in
    let (ids, failed) = evict_victims-Describes r evict log in
    elim (Bool-cases evicted.0.has_failed) [
      | inl f ↦
          let quiet =
            Quiet-trans (evict_victims-Quiet r evict log) (fail_eviction-Quiet r found evicted.1) in
          rw (f, run_load_flow)
            (
              ids,
              inr (refl, quiet),
              evict_victims-FollowsRelease r evict log _ refl (λ _. (refl, quiet)),
            )
      | inr f ↦
          let same = verify_and_load-Reports r found evicted.1 in
          let loads_on = ap (any victim_failed) same ∙ failed ∙ f in
          rw (f, run_load_flow)
            (
              ap (map victim_id) same ∙ ids,
              inl loads_on,
              evict_victims-FollowsRelease r evict log _ same (λ t. cc (t, f)),
            )
    ]
