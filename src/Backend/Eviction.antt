-- ===== src/Backend/Eviction.antt =====
-- crates/idoris-backend/src/eviction.rs: what must be evicted before a model may be loaded.
-- Amounts of memory are `f64`, in GiB.
pub mod Order
pub mod Plans
pub mod Refusals
pub mod Requested
mod Examples
use i_doris.Prelude.{
  ℕ, Bool, true, false, not, ◌&&◌, List, [], ◌∷◌, map, filter, any, leb, ◌==◌, if◌then◌else◌,
}
use i_doris.Prelude.Equality.{Text, codes, text_eq}
use i_doris.Prelude.Int.{pos}
use i_doris.Prelude.Float.{F64, finite, add, sub, le, lt, is_finite, one_millionth}
use i_doris.Prelude.Results.{Result, ok, err, ◌>>=◌}

pub data ModelState : Type 0 where
  launching loading ready error stopping stopped : ModelState

pub record ModelEntry : Type 0 where
  pub id : Text
  pub memory_gb : F64
  pub state : ModelState
  pub is_pinned : Bool
  pub last_used_seq : ℕ
  pub inflight : ℕ

pub record Snapshot : Type 0 where
  pub budget_gb : F64
  pub models : List ModelEntry

pub record ModelReq : Type 0 where
  pub id : Text
  pub memory_gb : F64

pub data EvictionPlan : Type 0 where
  not_needed : EvictionPlan
  evict : List Text → EvictionPlan

-- The fields of `insufficient_capacity` are the model, the shortfall, the budget and what is
-- evictable.
pub data PlanEvictionError : Type 0 where
  insufficient_capacity : Text → F64 → F64 → F64 → PlanEvictionError
  invalid_capacity : Text → F64 → PlanEvictionError
  snapshot_contains_requested_model : Text → PlanEvictionError

abbrev pub reason_code : PlanEvictionError → Text
reason_code (insufficient_capacity model shortfall budget evictable) = codes "eviction_impossible"
reason_code (invalid_capacity field value) = codes "invalid_capacity_value"
reason_code (snapshot_contains_requested_model model) = codes "snapshot_contains_requested_model"

abbrev pub capacity_epsilon_gb : F64
capacity_epsilon_gb = one_millionth

abbrev pub zero_gb : F64
zero_gb = finite (pos 0)

abbrev pub is_capacity : F64 → Bool
is_capacity value = is_finite value && le zero_gb value

unfoldable pub validate_capacity : Text → F64 → Result PlanEvictionError (Unit {0})
validate_capacity field value =
    if is_capacity value then ok tt else err (invalid_capacity field value)

unfoldable pub validate_models : List ModelEntry → Result PlanEvictionError (Unit {0})
unfolding validate_capacity
validate_models [] = ok tt
validate_models (model ∷ models) =
    let rest = validate_models models in
    validate_capacity (codes "model.memory_gb") model.memory_gb >>= λ _. rest

abbrev pub occupies_budget : ModelState → Bool
occupies_budget launching = false
occupies_budget loading = true
occupies_budget ready = true
occupies_budget error = true
occupies_budget stopping = true
occupies_budget stopped = false

abbrev pub is_idle_state : ModelState → Bool
is_idle_state ready = true
is_idle_state error = true
is_idle_state _ = false

abbrev pub is_candidate : ModelEntry → Bool
is_candidate m =
    is_idle_state m.state && not m.is_pinned && lt zero_gb m.memory_gb && m.inflight == 0

-- `iter().sum()` of the memory of some models: from left to right.
unfoldable pub sum_from : F64 → List ModelEntry → F64
sum_from total [] = total
sum_from total (m ∷ ms) = sum_from (add total m.memory_gb) ms

unfoldable pub sum_gb : List ModelEntry → F64
unfolding sum_from
sum_gb models = sum_from zero_gb models

-- `sort_by_key` on `last_used_seq`, which is stable.
unfoldable pub insert_by_seq : ModelEntry → List ModelEntry → List ModelEntry
insert_by_seq m [] = m ∷ []
insert_by_seq m (n ∷ ns) =
    let rest = insert_by_seq m ns in
    if leb m.last_used_seq n.last_used_seq then m ∷ n ∷ ns else n ∷ rest

unfoldable pub sort_by_seq : List ModelEntry → List ModelEntry
unfolding insert_by_seq
sort_by_seq [] = []
sort_by_seq (m ∷ ms) = insert_by_seq m (sort_by_seq ms)

unfoldable pub candidates : Snapshot → List ModelEntry
unfolding sort_by_seq
candidates state = sort_by_seq (filter is_candidate state.models)

abbrev pub reaches : F64 → F64 → Bool
reaches shortfall_gb freed_gb = le shortfall_gb (add freed_gb capacity_epsilon_gb)

-- The loop that chooses: what it has freed at its end, and the models in the order chosen.
unfoldable pub choose : F64 → F64 → List ModelEntry → F64 × List ModelEntry
choose shortfall_gb freed_gb [] = (freed_gb, [])
choose shortfall_gb freed_gb (m ∷ ms) =
    let rest = choose shortfall_gb (add freed_gb m.memory_gb) ms in
    if reaches shortfall_gb freed_gb then (freed_gb, []) else (rest.0, m ∷ rest.1)

abbrev pub model_id : ModelEntry → Text
model_id m = m.id

-- The error where even all candidates do not suffice.
abbrev pub give_up : Snapshot → ModelReq → F64 → Result PlanEvictionError EvictionPlan
give_up state need shortfall_gb =
    let evictable_gb = sum_gb (candidates state) in
    validate_capacity (codes "sum of evictable candidate.memory_gb") evictable_gb >>= λ _.
    err (insufficient_capacity need.id shortfall_gb state.budget_gb evictable_gb)

-- After the loop.
unfoldable pub conclude :
    Snapshot → ModelReq → F64 → F64 × List ModelEntry → Result PlanEvictionError EvictionPlan
conclude state need shortfall_gb (freed_gb, chosen) =
    validate_capacity (codes "cumulative freed_gb") freed_gb >>= λ _.
    if lt (add freed_gb capacity_epsilon_gb) shortfall_gb
    then give_up state need shortfall_gb
    else ok (evict (map model_id chosen))

abbrev pub occupied_gb : Snapshot → F64
occupied_gb state = sum_gb (filter (λ m. occupies_budget m.state) state.models)

abbrev pub available_gb : Snapshot → F64
available_gb state = sub state.budget_gb (occupied_gb state)

abbrev pub fits : Snapshot → ModelReq → Bool
fits state need = le need.memory_gb (add (available_gb state) capacity_epsilon_gb)

-- Where the request does not fit as it is.
unfoldable pub make_room : Snapshot → ModelReq → Result PlanEvictionError EvictionPlan
make_room state need =
    let shortfall_gb = sub need.memory_gb (available_gb state) in
    validate_capacity (codes "shortfall_gb") shortfall_gb >>= λ _.
    conclude state need shortfall_gb (choose shortfall_gb zero_gb (candidates state))

abbrev pub is_requested : ModelReq → ModelEntry → Bool
is_requested need m = text_eq m.id need.id

abbrev pub check_models : Snapshot → ModelReq → Result PlanEvictionError (Unit {0})
check_models state need =
    if any (is_requested need) state.models
    then err (snapshot_contains_requested_model need.id)
    else validate_capacity (codes "sum of occupied model.memory_gb") (occupied_gb state)

-- The checks of the input, in the source's order.
unfoldable pub check_input : Snapshot → ModelReq → Result PlanEvictionError (Unit {0})
check_input state need = do
  _ ← validate_capacity (codes "budget_gb") state.budget_gb
  _ ← validate_capacity (codes "need.memory_gb") need.memory_gb
  _ ← validate_models state.models
  check_models state need

unfoldable pub plan_eviction : Snapshot → ModelReq → Result PlanEvictionError EvictionPlan
plan_eviction state need =
    check_input state need >>= λ _. if fits state need then ok not_needed else make_room state need
