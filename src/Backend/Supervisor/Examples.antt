-- ===== src/Backend/Supervisor/Examples.antt =====
-- A load of `big` for which `small` must go. The engine answers the first request with an OOM, the
-- second one with success.
use i_doris.Prelude.{
  ℕ, ◌+◌, ◌*◌, ◌^◌, ◌≤◌, ◌≡◌, refl, Bool, true, false, none, some, List, [], ◌∷◌, length, map,
}
use i_doris.Prelude.Equality.{Text, codes}
use i_doris.Prelude.Int.{pos}
use i_doris.Prelude.Float.{F64, finite, add, one_millionth}
use i_doris.Prelude.Results.{Result, ok, err}
use i_doris.Contracts.{LoadPolicy, on_demand, idle_ttl, coexist}
use i_doris.Backend.Error.{BackendError, oom, eviction_failed}
use i_doris.Backend.Supervisor.Adapter.{
  BackendStatus, ok_pressure, clears_fence, probes, unloads, asks_status, loads, Log, Adapter,
  LoadOutcome,
}
use i_doris.Backend.Supervisor.Release.{confirm_memory_released, resolve_load_failure}
use i_doris.Backend.Supervisor.LoadFlow.{
  LoadRequest, clear_or_retain, unload_victims, evict_victims, verify_and_load, load_once,
  recover_oom, retry, after_load, probe, resolve, fail_eviction, run_load_flow,
}
use i_doris.Backend.Supervisor.LoadFlow.Traces.{LoadTrace, run_load_flow-LoadTrace}
use i_doris.Backend.Supervisor.LoadFlow.Endings.{Ending, run_load_flow-Ending}
use i_doris.Backend.Supervisor.LoadFlow.Victims.{
  victim_id, FailsClosed, FollowsRelease, run_load_flow-victims,
}
use i_doris.Backend.Supervisor.LoadFlow.Length.{run_load_flow-length}

abbrev gib : ℕ → F64
gib n = finite (pos (n * 2 ^ 1074))

abbrev on_request : LoadPolicy
on_request = record { mode = on_demand; keepalive = idle_ttl 60; admission = coexist }

abbrev was_asked : Log → Bool
was_asked [] = false
was_asked (loads id policy ∷ log) = true
was_asked (clears_fence ∷ log) = was_asked log
was_asked (asks_status ∷ log) = was_asked log
was_asked (probes id ∷ log) = was_asked log
was_asked (unloads id ∷ log) = was_asked log

abbrev empty_engine : BackendStatus
empty_engine = record {
  pressure = ok_pressure;
  used_gb = finite (pos 0);
  model_memory_max_gb = gib 4;
  loaded = [];
}

abbrev second_time : Bool → Result BackendError (Unit {0})
second_time true = ok tt
second_time false = err (oom (codes "big"))

abbrev engine : Adapter
engine = record {
  status = λ log. some (ok empty_engine);
  unload = λ log id. some (ok tt);
  load = λ log id policy. some (second_time (was_asked log));
  probe_ready = λ log id. some (ok true);
  clear = λ log. ok tt;
}

abbrev request : Adapter → LoadRequest
request adapter = record {
  adapter = adapter;
  config = record { probe_max_attempts = 3; release_confirm_max_attempts = 2 };
  release_limits = record { target_absent_gb = gib 1; after_eviction_gb = gib 1 };
  is_inherited = false;
  id = codes "big";
  policy = on_request;
}

abbrev victims : List Text
victims = codes "small" ∷ []

abbrev the_run : Adapter → LoadOutcome × Log
the_run adapter = run_load_flow (request adapter) victims none []

recovers : (the_run engine).0.result ≡ ok tt
unfolding run_load_flow evict_victims unload_victims confirm_memory_released verify_and_load
    load_once recover_oom retry after_load probe add one_millionth
recovers = refl

-- An engine that answers nothing.
abbrev silent : Adapter
silent = record {
  status = λ log. none;
  unload = λ log id. none;
  load = λ log id policy. none;
  probe_ready = λ log id. none;
  clear = λ log. ok tt;
}

fails : (the_run silent).0.result ≡ err (eviction_failed (codes "big"))
unfolding run_load_flow evict_victims unload_victims confirm_memory_released fail_eviction
    clear_or_retain resolve resolve_load_failure
fails = refl

run_load_flow-LoadTrace_example : LoadTrace (request engine) [] (the_run engine).1
run_load_flow-LoadTrace_example = run_load_flow-LoadTrace (request engine) victims none []

run_load_flow-Ending_example : Ending (request engine) none (the_run engine).0 (the_run engine).1
run_load_flow-Ending_example = run_load_flow-Ending (request engine) victims none []

run_load_flow-victims_example :
    (map victim_id (the_run silent).0.victim_results ≡ victims)
    × FailsClosed (request silent) [] (the_run silent)
    × FollowsRelease (request silent) victims [] (the_run silent)
run_load_flow-victims_example = run_load_flow-victims (request silent) victims none []

run_load_flow-length_example : length (the_run silent).1 ≤ 1 + 3 * 2 + 3 + 6 + 0
run_load_flow-length_example = run_load_flow-length (request silent) victims none []
