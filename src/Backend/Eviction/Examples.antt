-- ===== src/Backend/Eviction/Examples.antt =====
-- Plans for a host of four GiB with three models.
use i_doris.Prelude.{ℕ, ◌*◌, ◌^◌, true, false, ◌≡◌, refl, List, [], ◌∷◌, map}
use i_doris.Prelude.Equality.{codes}
use i_doris.Prelude.Int.{pos}
use i_doris.Prelude.Float.{F64, finite, add, sub, one_millionth}
use i_doris.Prelude.Results.{ok, err}
use i_doris.Backend.Eviction.{
  ready, error, ModelEntry, Snapshot, ModelReq, evict, insufficient_capacity, validate_capacity,
  validate_models, sum_gb, candidates, choose, conclude, make_room, check_input, plan_eviction,
  reaches, model_id, fits,
}
use i_doris.Backend.Eviction.Plans.{IsLruPrefix, shortfall_gb, plan_eviction-IsLruPrefix}
use i_doris.Backend.Eviction.Refusals.{Reports, plan_eviction-Reports}

abbrev gib : ℕ → F64
gib n = finite (pos (n * 2 ^ 1074))

abbrev pinned_model : ModelEntry
pinned_model = record {
  id = codes "pinned";
  memory_gb = gib 1;
  state = ready;
  is_pinned = true;
  last_used_seq = 0;
  inflight = 0;
}

abbrev recent_model : ModelEntry
recent_model = record {
  id = codes "recent";
  memory_gb = gib 2;
  state = ready;
  is_pinned = false;
  last_used_seq = 9;
  inflight = 0;
}

abbrev stuck_model : ModelEntry
stuck_model = record {
  id = codes "stuck";
  memory_gb = gib 1;
  state = error;
  is_pinned = false;
  last_used_seq = 3;
  inflight = 0;
}

abbrev full_host : Snapshot
full_host = record { budget_gb = gib 4; models = pinned_model ∷ recent_model ∷ stuck_model ∷ [] }

abbrev request : ℕ → ModelReq
request n = record { id = codes "new"; memory_gb = gib n }

one_evicted : plan_eviction full_host (request 1) ≡ ok (evict (codes "stuck" ∷ []))
unfolding plan_eviction check_input validate_capacity validate_models sum_gb make_room conclude
    candidates choose add sub one_millionth
one_evicted = refl

too_large :
    plan_eviction full_host (request 4)
    ≡ err (insufficient_capacity (codes "new") (gib 4) (gib 4) (gib 3))
unfolding plan_eviction check_input validate_capacity validate_models sum_gb make_room conclude
    candidates choose add sub one_millionth
too_large = refl

plan_eviction-IsLruPrefix_example :
    (chosen : List ModelEntry) × (codes "stuck" ∷ [] ≡ map model_id chosen)
    × IsLruPrefix full_host (request 1) chosen
    × (reaches (shortfall_gb full_host (request 1)) (sum_gb chosen) ≡ true)
plan_eviction-IsLruPrefix_example = plan_eviction-IsLruPrefix full_host (request 1) one_evicted

plan_eviction-Reports_example :
    (fits full_host (request 4) ≡ false)
    × Reports full_host (request 4) (codes "new") (gib 4) (gib 4) (gib 3)
    × (reaches (shortfall_gb full_host (request 4)) (sum_gb (candidates full_host)) ≡ false)
plan_eviction-Reports_example = plan_eviction-Reports full_host (request 4) too_large
