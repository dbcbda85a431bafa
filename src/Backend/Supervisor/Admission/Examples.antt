-- ===== src/Backend/Supervisor/Admission/Examples.antt =====
-- A supervisor with four GiB: `small` is ready and holds two, and three are asked for `big`.
use i_doris.Prelude.{ℕ, ◌*◌, ◌^◌, ◌≡◌, refl, false, Option, none, some, [], ◌∷◌}
use i_doris.Prelude.Equality.{codes}
use i_doris.Prelude.Int.{pos}
use i_doris.Prelude.Float.{F64, finite, add, sub, one_millionth}
use i_doris.Prelude.Results.{ok, err}
use i_doris.Contracts.{LoadPolicy, on_demand, idle_ttl, coexist}
use i_doris.Backend.Error.{eviction_impossible}
use i_doris.Backend.Eviction.{
  ready, loading, stopping, validate_capacity, validate_models, sum_from, sum_gb, insert_by_seq,
  sort_by_seq, candidates, choose, conclude, make_room, check_input, plan_eviction, zero_gb,
}
use i_doris.Backend.Supervisor.Slots.{
  ModelSlot, insert_slot, set_state_or_panic, build_snapshot, sum_slots,
}
use i_doris.Backend.Supervisor.Accounting.{
  Env, covered_from, effective_reserved_gb_except, claim_runtime_capacity,
}
use i_doris.Backend.Supervisor.Admission.{
  charge_plan, plan_load, stop_victims, start_of, active_load, admit_load, handle_load,
}
use i_doris.Backend.Supervisor.Requests.{Request, State, Fence, LoadStart, replied, started}
use i_doris.Backend.Supervisor.Admission.Decisions.{Starts, handle_load-Starts}
use i_doris.Backend.Supervisor.Admission.Replies.{Serves, handle_load_replied}
use i_doris.Backend.Supervisor.Admission.Total.{HasAnswer, handle_load_total}

abbrev gib : ℕ → F64
gib n = finite (pos (n * 2 ^ 1074))

abbrev on_request : LoadPolicy
on_request = record { mode = on_demand; keepalive = idle_ttl 60; admission = coexist }

abbrev small : ModelSlot
small = record {
  memory_gb = gib 2;
  charged_units = 0;
  state = ready;
  last_used_seq = 7;
  policy = on_request;
  inflight = 0;
  is_load_unconfirmed = false;
  is_inherited = false;
}

abbrev empty_env : Env
empty_env = record { reserved_gb = zero_gb; aggregate_covered = []; runtime_capacity = none }

abbrev supervisor : State
supervisor = record {
  budget_gb = gib 4;
  models = (codes "small", small) ∷ [];
  active_op = none;
  env = empty_env;
}

abbrev fence : Option Fence
fence = some (record { begin_result = ok tt; clear_result = ok tt })

abbrev request : ℕ → Request
request n = record {
  id = codes "big";
  memory_gb = gib n;
  policy = on_request;
  allows_headroom_breach = false;
  reply = 1;
}

abbrev big : ModelSlot
big = record {
  memory_gb = gib 3;
  charged_units = 0;
  state = loading;
  last_used_seq = 0;
  policy = on_request;
  inflight = 0;
  is_load_unconfirmed = false;
  is_inherited = false;
}

abbrev loading_big : State
loading_big = record {
  budget_gb = gib 4;
  models = (codes "small", record small { state = stopping }) ∷ (codes "big", big) ∷ [];
  active_op = some (active_load (request 3));
  env = empty_env;
}

abbrev start : LoadStart
start = record {
  victims = codes "small" ∷ [];
  previous = none;
  release_limits = record { target_absent_gb = zero_gb; after_eviction_gb = zero_gb };
  is_inherited = false;
}

starts_big : handle_load supervisor fence (request 3) ≡ some (started start, loading_big)
unfolding handle_load plan_load charge_plan effective_reserved_gb_except covered_from
    claim_runtime_capacity build_snapshot plan_eviction check_input validate_capacity
    validate_models sum_from sum_gb insert_by_seq sort_by_seq candidates choose conclude make_room
    sum_slots admit_load stop_victims set_state_or_panic insert_slot start_of add sub one_millionth
starts_big = refl

too_big :
    handle_load supervisor fence (request 5)
    ≡ some (replied (err (eviction_impossible (codes "big"))), supervisor)
unfolding handle_load plan_load charge_plan effective_reserved_gb_except covered_from
    claim_runtime_capacity build_snapshot plan_eviction check_input validate_capacity
    validate_models sum_from sum_gb insert_by_seq sort_by_seq candidates choose conclude make_room
    sum_slots add sub one_millionth
too_big = refl

handle_load-Starts_example : Starts supervisor loading_big (request 3) start
handle_load-Starts_example =
    handle_load-Starts supervisor loading_big fence (request 3) start starts_big

served_small :
    handle_load supervisor fence (record (request 3) { id = codes "small" })
    ≡ some (replied (ok tt), supervisor)
unfolding handle_load
served_small = refl

handle_load_replied_example :
    (supervisor ≡ supervisor)
    × Serves supervisor (record (request 3) { id = codes "small" }) (ok tt)
handle_load_replied_example =
    handle_load_replied supervisor supervisor fence (record (request 3) { id = codes "small" })
      (ok tt) served_small

handle_load_total_example : HasAnswer (handle_load supervisor none (request 5))
handle_load_total_example = handle_load_total supervisor none (request 5)
