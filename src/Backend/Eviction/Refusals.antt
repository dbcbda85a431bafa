-- ===== src/Backend/Eviction/Refusals.antt =====
-- When nothing can be planned: the input is checked first, and a request is refused for want of
-- capacity only where even all candidates together do not suffice.
use i_doris.Prelude.{
  Bool, true, false, ◌≡◌, ◌≢◌, refl, inl, inr, List, [], ◌∷◌, Memᴰ, any, any_intro, Bool-cases,
  arith,
}
use i_doris.Prelude.Equality.{Text, codes, text_eq, text_eq_refl}
use i_doris.Prelude.Float.{F64, add, lt}
use i_doris.Prelude.Results.{Result, ok, err, ◌>>=◌, >>=-eq-ok, >>=-eq-err}
use i_doris.Backend.Eviction.{
  ModelEntry, Snapshot, ModelReq, EvictionPlan, PlanEvictionError, insufficient_capacity,
  capacity_epsilon_gb, zero_gb, is_capacity, validate_capacity, validate_models, sum_gb, candidates,
  reaches, choose, give_up, conclude, occupied_gb, fits, make_room, is_requested, check_models,
  check_input, plan_eviction,
}
use i_doris.Backend.Eviction.Order.{choose-freed, choose_all}
use i_doris.Backend.Eviction.Plans.{shortfall_gb, validate_capacity-ok, le_excludes_reaches}

-- What the numbers of a snapshot and of a request must be.
pub record IsValidInput (state : Snapshot) (need : ModelReq) : Type 0 where
  pub budget : is_capacity state.budget_gb ≡ true
  pub request : is_capacity need.memory_gb ≡ true
  pub models : (m : ModelEntry) → Memᴰ m state.models → is_capacity m.memory_gb ≡ true
  pub foreign : (m : ModelEntry) → Memᴰ m state.models → m.id ≢ need.id
  pub occupied : is_capacity (occupied_gb state) ≡ true

validate_models-ok :
    (models : List ModelEntry)
    → validate_models models ≡ ok tt
    → {m : ModelEntry} → Memᴰ m models
    → is_capacity m.memory_gb ≡ true
unfolding validate_models
validate_models-ok [] h k = elim k [ ]
validate_models-ok (n ∷ models) h k =
    let (u, a, b) = >>=-eq-ok (validate_capacity (codes "model.memory_gb") n.memory_gb) _ h in
    elim k [
      | Memᴰ.head e ↦ rw e (validate_capacity-ok _ n.memory_gb a)
      | Memᴰ.tail q ↦ validate_models-ok models b q
    ]

check_models-ok :
    (state : Snapshot) (need : ModelReq)
    → check_models state need ≡ ok tt
    → (any (is_requested need) state.models ≡ false) × (is_capacity (occupied_gb state) ≡ true)
check_models-ok state need h = elim (Bool-cases (any (is_requested need) state.models)) [
  | inl e ↦ let bad = rw e at h in cc
  | inr e ↦ (e, validate_capacity-ok _ (occupied_gb state) (rw e at h))
]

unrequested :
    (need : ModelReq) (models : List ModelEntry)
    → any (is_requested need) models ≡ false
    → (m : ModelEntry) → Memᴰ m models
    → m.id ≢ need.id
unrequested need models h m k e =
    let same : text_eq m.id need.id ≡ true = rw e (text_eq_refl need.id) in
    let found = any_intro (is_requested need) models k same in cc

check_input-IsValidInput :
    (state : Snapshot) (need : ModelReq) → check_input state need ≡ ok tt → IsValidInput state need
unfolding check_input
check_input-IsValidInput state need h =
    let (u, a, h₁) = >>=-eq-ok (validate_capacity (codes "budget_gb") state.budget_gb) _ h in
    let (v, b, h₂) = >>=-eq-ok (validate_capacity (codes "need.memory_gb") need.memory_gb) _ h₁ in
    let (w, c, h₃) = >>=-eq-ok (validate_models state.models) _ h₂ in
    let (d, e) = check_models-ok state need h₃ in
    record {
      budget = validate_capacity-ok _ state.budget_gb a;
      request = validate_capacity-ok _ need.memory_gb b;
      models = λ m k. validate_models-ok state.models c k;
      foreign = unrequested need state.models d;
      occupied = e;
    }

-- A plan is made only for numbers that are finite and not negative, the sum of what the loaded
-- models occupy among them, and for a snapshot without the requested model.
pub plan_eviction-IsValidInput :
    (state : Snapshot) (need : ModelReq) {plan : EvictionPlan}
    → plan_eviction state need ≡ ok plan
    → IsValidInput state need
unfolding plan_eviction
plan_eviction-IsValidInput state need h =
    let (u, a, b) = >>=-eq-ok (check_input state need) _ h in check_input-IsValidInput state need a

-- The error for want of capacity.
abbrev pub is_refused {ℓ} : {A : Type ℓ} → Result PlanEvictionError A → Bool
is_refused (err (insufficient_capacity model s b e)) = true
is_refused _ = false

validate_capacity-is_refused :
    (field : Text) (value : F64) → is_refused (validate_capacity field value) ≡ false
unfolding validate_capacity
validate_capacity-is_refused field value = ground arith

-- A chain is refused by none of its steps.
unrefused {ℓ κ} :
    {A : Type ℓ} {B : Type κ} (m : Result PlanEvictionError A) (f : A → Result PlanEvictionError B)
    → is_refused m ≡ false
    → ((a : A) → is_refused (f a) ≡ false)
    → is_refused (m >>= f) ≡ false
unrefused (ok a) f h k = k a
unrefused (err (insufficient_capacity m s b e)) f h k = cc
unrefused (err _) f h k = refl

validate_models-is_refused :
    (models : List ModelEntry) → is_refused (validate_models models) ≡ false
unfolding validate_models
validate_models-is_refused [] = refl
validate_models-is_refused (m ∷ models) =
    unrefused (validate_capacity (codes "model.memory_gb") m.memory_gb) _
      (validate_capacity-is_refused _ m.memory_gb) (λ u. validate_models-is_refused models)

check_models-is_refused :
    (state : Snapshot) (need : ModelReq) → is_refused (check_models state need) ≡ false
check_models-is_refused state need = elim (Bool-cases (any (is_requested need) state.models)) [
  | inl e ↦ rw e refl
  | inr e ↦ rw e (validate_capacity-is_refused _ (occupied_gb state))
]

check_input-is_refused :
    (state : Snapshot) (need : ModelReq) → is_refused (check_input state need) ≡ false
unfolding check_input
check_input-is_refused state need =
    unrefused _ _ (validate_capacity-is_refused _ state.budget_gb) (λ u.
      unrefused _ _ (validate_capacity-is_refused _ need.memory_gb) (λ v.
        unrefused _ _ (validate_models-is_refused state.models)
          (λ w. check_models-is_refused state need)))

-- What a refusal reports.
abbrev pub Reports : Snapshot → ModelReq → Text → F64 → F64 → F64 → Type 0
Reports state need model s budget evictable =
    (model ≡ need.id)
    × (s ≡ shortfall_gb state need)
    × (budget ≡ state.budget_gb)
    × (evictable ≡ sum_gb (candidates state))

not_refused :
    {r : Result PlanEvictionError EvictionPlan} {m : Text} {s b e : F64}
    → is_refused r ≡ false
    → r ≢ err (insufficient_capacity m s b e)
not_refused h k = let bad = rw k at h in cc

unit_not_refused :
    {r : Result PlanEvictionError (Unit {0})} {m : Text} {s b e : F64}
    → is_refused r ≡ false
    → r ≢ err (insufficient_capacity m s b e)
unit_not_refused h k = let bad = rw k at h in cc

same_report :
    {m m₁ : Text} {s s₁ b b₁ e e₁ : F64}
    → ◌≡◌ {A = Result PlanEvictionError EvictionPlan}
        (err (insufficient_capacity m s b e))
        (err (insufficient_capacity m₁ s₁ b₁ e₁))
    → (m₁ ≡ m) × (s₁ ≡ s) × (b₁ ≡ b) × (e₁ ≡ e)
same_report h = ((cc), (cc), (cc), (cc))

all_chosen :
    (state : Snapshot) (need : ModelReq)
    → lt
        (add (choose (shortfall_gb state need) zero_gb (candidates state)).0 capacity_epsilon_gb)
        (shortfall_gb state need)
      ≡ true
    → reaches (shortfall_gb state need) (sum_gb (candidates state)) ≡ false
unfolding sum_gb
all_chosen state need h =
    let short = shortfall_gb state need in
    let r = choose short zero_gb (candidates state) in
    let unreached = le_excludes_reaches r.0 short h in
    let whole = choose_all short zero_gb (candidates state) unreached in
    let freed = choose-freed short zero_gb (candidates state) in rw whole at (rw freed at unreached)

module _ (state : Snapshot) (need : ModelReq) {model : Text} {s b e : F64} where
  give_up-Reports :
      give_up state need (shortfall_gb state need) ≡ err (insufficient_capacity model s b e)
      → Reports state need model s b e
  give_up-Reports h =
      elim (>>=-eq-err
        (validate_capacity (codes "sum of evictable candidate.memory_gb")
          (sum_gb (candidates state)))
        _ h) [
          | inl k ↦
              absurd
                (unit_not_refused (validate_capacity-is_refused _ (sum_gb (candidates state))) k)
          | inr (u, a, k) ↦ same_report k
        ]

  conclude-Reports :
      (freed : F64) (chosen : List ModelEntry)
      → conclude state need (shortfall_gb state need) (freed, chosen)
        ≡ err (insufficient_capacity model s b e)
      → Reports state need model s b e
        × (lt (add freed capacity_epsilon_gb) (shortfall_gb state need) ≡ true)
  unfolding conclude
  conclude-Reports freed chosen h =
      elim (>>=-eq-err (validate_capacity (codes "cumulative freed_gb") freed) _ h) [
        | inl k ↦ absurd (unit_not_refused (validate_capacity-is_refused _ freed) k)
        | inr (u, a, k) ↦
            elim (Bool-cases (lt (add freed capacity_epsilon_gb) (shortfall_gb state need))) [
              | inl q ↦ (give_up-Reports (rw q at k), q)
              | inr q ↦ absurd (not_refused refl (rw q at k))
            ]
      ]

  make_room-Reports :
      make_room state need ≡ err (insufficient_capacity model s b e)
      → Reports state need model s b e
        × (reaches (shortfall_gb state need) (sum_gb (candidates state)) ≡ false)
  unfolding make_room
  make_room-Reports h =
      elim (>>=-eq-err (validate_capacity (codes "shortfall_gb") (shortfall_gb state need)) _ h) [
        | inl k ↦
            absurd (unit_not_refused (validate_capacity-is_refused _ (shortfall_gb state need)) k)
        | inr (u, a, k) ↦
            let r = choose (shortfall_gb state need) zero_gb (candidates state) in
            let (reports, short) = conclude-Reports r.0 r.1 k in
            (reports, all_chosen state need short)
      ]

  -- A request is refused for want of capacity only where it does not fit into what is free, and
  -- where evicting every candidate would still fall short of it by more than the tolerance; the
  -- error reports the request, its shortfall, the budget, and what all candidates occupy.
  pub plan_eviction-Reports :
      plan_eviction state need ≡ err (insufficient_capacity model s b e)
      → (fits state need ≡ false)
        × Reports state need model s b e
        × (reaches (shortfall_gb state need) (sum_gb (candidates state)) ≡ false)
  unfolding plan_eviction
  plan_eviction-Reports h = elim (>>=-eq-err (check_input state need) _ h) [
    | inl k ↦ absurd (unit_not_refused (check_input-is_refused state need) k)
    | inr (u, a, k) ↦ elim (Bool-cases (fits state need)) [
      | inl q ↦ absurd (not_refused refl (rw q at k))
      | inr q ↦ let (reports, short) = make_room-Reports (rw q at k) in (q, reports, short)
    ]
  ]
