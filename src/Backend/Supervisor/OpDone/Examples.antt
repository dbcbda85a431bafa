-- ===== src/Backend/Supervisor/OpDone/Examples.antt =====
-- The load of `big`, with two waiters, has not been answered in time.
use i_doris.Prelude.{◌*◌, ◌^◌, ◌≡◌, refl, true, false, none, some, List, [], ◌∷◌, map}
use i_doris.Prelude.Equality.{Text, codes}
use i_doris.Prelude.Int.{pos}
use i_doris.Prelude.Float.{F64, pos_infinity, finite}
use i_doris.Prelude.Results.{err}
use i_doris.Contracts.{LoadPolicy, on_demand, pinned, coexist}
use i_doris.Backend.Error.{BackendError, adapter_timed_out}
use i_doris.Backend.Eviction.{zero_gb, loading}
use i_doris.Backend.Supervisor.Adapter.{LoadOutcome, retain_unconfirmed_load}
use i_doris.Backend.Supervisor.Slots.{insert_slot}
use i_doris.Backend.Supervisor.Settlement.{settle_victims, settle_runtime_capacity}
use i_doris.Backend.Supervisor.Requests.{Request, load_op}
use i_doris.Backend.Supervisor.OpDone.{Actor, apply_failure, apply_outcome, op_done_load}
use i_doris.Backend.Supervisor.OpDone.Answers.{Answers, op_done_load-Answers}
use i_doris.Backend.Supervisor.OpDone.Unconfirmed.{
  Turn, refusal, handle_all, handle_all-op_done_load,
}

abbrev two_gib : F64
two_gib = finite (pos (2 * 2 ^ 1074))

abbrev kept_loaded : LoadPolicy
kept_loaded = record { mode = on_demand; keepalive = pinned true; admission = coexist }

abbrev the_model : Text
the_model = codes "big"

abbrev actor : Actor
actor = record {
  state = record {
    budget_gb = two_gib;
    models =
        (
          the_model,
          record {
            memory_gb = two_gib;
            charged_units = 0;
            state = loading;
            last_used_seq = 3;
            policy = kept_loaded;
            inflight = 0;
            is_load_unconfirmed = false;
            is_inherited = false;
          },
        )
        ∷ [];
    active_op =
        some (record { id = the_model; kind = load_op kept_loaded two_gib true (1 ∷ 2 ∷ []) });
    env = record { reserved_gb = zero_gb; aggregate_covered = []; runtime_capacity = none };
  };
  next_seq = 4;
  is_poisoned = false;
}

abbrev late : BackendError
late = adapter_timed_out the_model

abbrev outcome : LoadOutcome
outcome = record {
  result = err late;
  victim_results = [];
  aggregate_status = none;
  aggregate_target_credit_gb = zero_gb;
  failure_outcome = retain_unconfirmed_load none;
}

abbrev again : Request
again = record {
  id = the_model;
  memory_gb = two_gib;
  policy = kept_loaded;
  allows_headroom_breach = true;
  reply = 5;
}

sane : (op_done_load actor the_model outcome).0.is_poisoned ≡ false
unfolding op_done_load apply_outcome apply_failure settle_victims settle_runtime_capacity
    insert_slot
sane = refl

op_done_load-Answers_example :
    Answers (err late) (1 ∷ 2 ∷ []) (op_done_load actor the_model outcome)
op_done_load-Answers_example = op_done_load-Answers actor the_model outcome (1 ∷ 2 ∷ []) refl

-- Two requests, the second for an amount that is not one.
abbrev turns : List Turn
turns = (none, again) ∷ (none, record again { memory_gb = pos_infinity }) ∷ []

handle_all-op_done_load_example :
    handle_all (op_done_load actor the_model outcome).0.state turns
    ≡ some (map refusal turns, (op_done_load actor the_model outcome).0.state)
handle_all-op_done_load_example =
    handle_all-op_done_load actor the_model outcome late none turns refl refl refl sane
