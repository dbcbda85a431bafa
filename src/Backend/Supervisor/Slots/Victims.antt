-- ===== src/Backend/Supervisor/Slots/Victims.antt =====
-- Plans of eviction for the supervisor's own slots.
use i_doris.Prelude.{
  true, false, some, List, [], ◌∷◌, ◌≡◌, ◌≢◌, refl, inl, inr, map, filter, any, Memᴰ, Memᴰ-filter,
  Bool-cases, arith,
}
use i_doris.Prelude.Equality.{Text, text_eq, text_eq_refl}
use i_doris.Prelude.Float.{F64}
use i_doris.Prelude.Results.{ok, err}
use i_doris.Backend.Error.{BackendError, eviction_impossible, invalid_request}
use i_doris.Backend.Eviction.{
  ModelReq, evict, PlanEvictionError, insufficient_capacity, invalid_capacity,
  snapshot_contains_requested_model, is_candidate, is_idle_state, is_requested, model_id,
  plan_eviction,
}
use i_doris.Backend.Eviction.Requested.{plan_eviction-excludes}
use i_doris.Backend.Eviction.Plans.{plan_eviction-IsLruPrefix}
use i_doris.Backend.Supervisor.Slots.{
  ModelSlot, Models, keeps_pinned, is_other, entry, build_snapshot, map_plan_error,
}

-- A slot that may be evicted for the sake of another model.
pub record IsIdle (models : Models) (requested : Text) (id : Text) : Type 0 where
  pub slot : ModelSlot
  pub known : Memᴰ (id, slot) models
  pub another : id ≢ requested
  pub at_rest : is_idle_state slot.state ≡ true
  pub confirmed : slot.is_load_unconfirmed ≡ false
  pub own : slot.is_inherited ≡ false
  pub unpinned : keeps_pinned slot.policy.keepalive ≡ false
  pub unused : slot.inflight ≡ 0

Memᴰ-map :
    {A B : Type 0} (f : A → B) (xs : List A) {b : B}
    → Memᴰ b (map f xs)
    → (a : A) × Memᴰ a xs × (b ≡ f a)
Memᴰ-map f [] m = elim m [ ]
Memᴰ-map f (x ∷ xs) (Memᴰ.head e) = (x, Memᴰ.head refl, e)
Memᴰ-map f (x ∷ xs) (Memᴰ.tail m) = let (a, k, e) = Memᴰ-map f xs m in (a, Memᴰ.tail k, e)

entry-IsIdle :
    (models : Models) (requested : Text) (m : Text × ModelSlot)
    → Memᴰ m (filter (is_other requested) models)
    → is_candidate (entry m) ≡ true
    → IsIdle models requested m.0
entry-IsIdle models requested (id, slot) held h =
    let (known, other) = Memᴰ-filter (is_other requested) models held in
    record {
      slot = slot;
      known = known;
      another = λ e. cc (rw e at other, text_eq_refl requested);
      at_rest = ground arith;
      confirmed = ground arith;
      own = ground arith;
      unpinned = ground arith;
      unused = ground arith;
    }

-- Every victim of a plan for another model is a slot of that supervisor that rests, is confirmed, not
-- inherited, not pinned, and serves no call.
pub plan_eviction-IsIdle :
    (models : Models) (budget_gb : F64) (need : ModelReq) (ids : List Text) (id : Text)
    → plan_eviction (build_snapshot models budget_gb need.id) need ≡ ok (evict ids)
    → Memᴰ id ids
    → IsIdle models need.id id
unfolding build_snapshot
plan_eviction-IsIdle models budget_gb need ids id h victim =
    let state = build_snapshot models budget_gb need.id in
    let (chosen, named, prefix, enough) = plan_eviction-IsLruPrefix state need h in
    let (m, picked, same) = Memᴰ-map model_id chosen (rw named at victim) in
    let (member, candidate) = prefix.evictable m picked in
    let (x, held, made) = Memᴰ-map entry (filter (is_other need.id) models) member in
    rw (same, made) (entry-IsIdle models need.id x held (rw made at candidate))

excluded :
    (models : Models) (need : ModelReq)
    → any (is_requested need) (map entry (filter (is_other need.id) models)) ≡ false
excluded [] need = refl
excluded ((id, slot) ∷ rest) need = elim (Bool-cases (text_eq id need.id)) [
  | inl e ↦ rw e (excluded rest need)
  | inr e ↦ rw (e, e) (excluded rest need)
]

-- Planning on the supervisor's own slots never panics: a plan that fails is told to the caller as an
-- error.
pub map_plan_error_answers :
    (models : Models) (budget_gb : F64) (need : ModelReq) (e : PlanEvictionError)
    → plan_eviction (build_snapshot models budget_gb need.id) need ≡ err e
    → (answer : BackendError) × (map_plan_error e need.id ≡ some answer)
unfolding build_snapshot
map_plan_error_answers models budget_gb need (insufficient_capacity m s b v) h =
    (eviction_impossible need.id, refl)
map_plan_error_answers models budget_gb need (invalid_capacity f v) h = (invalid_request, refl)
map_plan_error_answers models budget_gb need (snapshot_contains_requested_model m) h = absurd (
    plan_eviction-excludes (build_snapshot models budget_gb need.id) need m (excluded models need)
      h)
