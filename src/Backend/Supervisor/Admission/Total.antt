-- ===== src/Backend/Supervisor/Admission/Total.antt =====
-- No request to load makes the supervisor panic.
use i_doris.Prelude.{
  true, not, Option, none, some, List, [], ◌∷◌, ◌≡◌, refl, inl, inr, Memᴰ, Bool-cases,
}
use i_doris.Prelude.Equality.{Text, text_eq, text_eq_refl}
use i_doris.Prelude.Float.{F64, sub, lt}
use i_doris.Prelude.Results.{Result, ok, err, ◌>>=◌, >>=-eq-err}
use i_doris.Backend.Error.{BackendError, eviction_impossible}
use i_doris.Backend.Eviction.{
  ModelState, loading, stopping, ModelReq, EvictionPlan, not_needed, evict, PlanEvictionError,
  is_capacity, plan_eviction,
}
use i_doris.Backend.Capacity.{require}
use i_doris.Backend.Supervisor.Slots.{
  ModelSlot, Models, slot_of, insert_slot, set_state_or_panic, build_snapshot,
}
use i_doris.Backend.Supervisor.Slots.Victims.{map_plan_error_answers}
use i_doris.Backend.Supervisor.Accounting.{effective_reserved_gb}
use i_doris.Backend.Supervisor.Admission.{
  inherits, victims_of, told, request_charge_gb, charge_plan, begin_fence, or_clear, Admitted,
  plan_load, stop_victims, new_slot, admit_load, answer_plan, answer_early, is_active, join_active,
  handle_load,
}
use i_doris.Backend.Supervisor.Requests.{Request, ActiveOp, State, Fence, Answer, early_reply}
use i_doris.Backend.Supervisor.Admission.Decisions.{IsPlanned, plan_load-IsPlanned}

abbrev IsKnown : Text → Models → Type 0
IsKnown id models = (slot : ModelSlot) × (slot_of id models ≡ some slot)

Memᴰ-IsKnown :
    (id : Text) (slot : ModelSlot) (models : Models) → Memᴰ (id, slot) models → IsKnown id models
Memᴰ-IsKnown id slot [] m = elim m [ ]
Memᴰ-IsKnown id slot ((k, held) ∷ rest) (Memᴰ.head e) =
    let same : k ≡ id = cc e in (held, rw (same, text_eq_refl id) refl)
Memᴰ-IsKnown id slot ((k, held) ∷ rest) (Memᴰ.tail m) =
    let (later, found) = Memᴰ-IsKnown id slot rest m in
    elim (Bool-cases (text_eq k id)) [ inl e ↦ (held, rw e refl) | inr e ↦ (later, rw e found) ]

insert_slot-IsKnown :
    (id : Text) (slot : ModelSlot) (models : Models) → IsKnown id (insert_slot id slot models)
unfolding insert_slot
insert_slot-IsKnown id slot [] = (slot, rw (text_eq_refl id) refl)
insert_slot-IsKnown id slot ((k, held) ∷ rest) =
    let (later, found) = insert_slot-IsKnown id slot rest in
    elim (Bool-cases (text_eq k id)) [
      | inl e ↦ (slot, rw (e, insert_slot, e) refl)
      | inr e ↦ (later, rw (e, insert_slot, e) found)
    ]

insert_slot-keeps :
    (id : Text) (slot : ModelSlot) (models : Models) (j : Text)
    → IsKnown j models
    → IsKnown j (insert_slot id slot models)
unfolding insert_slot
insert_slot-keeps id slot [] j (s, h) = cc h
insert_slot-keeps id slot ((k, held) ∷ rest) j (s, h) = elim (Bool-cases (text_eq k j)) [
  | inl f ↦ elim (Bool-cases (text_eq k id)) [
    | inl e ↦ (slot, rw (e, insert_slot, f) refl)
    | inr e ↦ (held, rw (e, insert_slot, f) refl)
  ]
  | inr f ↦
      let (later, found) = insert_slot-keeps id slot rest j (s, rw f at h) in
      elim (Bool-cases (text_eq k id)) [
        | inl e ↦ (s, rw (e, insert_slot, f) (rw f at h))
        | inr e ↦ (later, rw (e, insert_slot, f) found)
      ]
]

-- A known slot's state can be set, and what was known stays known.
set_state_or_panic-IsKnown :
    (id : Text) (state : ModelState) (models : Models)
    → IsKnown id models
    → (later : Models) × (set_state_or_panic id state models ≡ some later)
      × ((j : Text) → IsKnown j models → IsKnown j later)
unfolding set_state_or_panic
set_state_or_panic-IsKnown id state models (slot, h) =
    let changed = record slot { state = state } in
    (
      insert_slot id changed models,
      rw (h, set_state_or_panic) refl,
      insert_slot-keeps id changed models,
    )

stop_victims_total :
    (victims : List Text) (models : Models)
    → ((id : Text) → Memᴰ id victims → IsKnown id models)
    → (later : Models) × (stop_victims victims models ≡ some later)
unfolding stop_victims
stop_victims_total [] models known = (models, refl)
stop_victims_total (v ∷ vs) models known =
    let (next, h, keeps) =
      set_state_or_panic-IsKnown v stopping models (known v (Memᴰ.head refl)) in
    let (later, k) = stop_victims_total vs next (λ id m. keeps id (known id (Memᴰ.tail m))) in
    (later, rw (h, stop_victims) k)

abbrev pub HasAnswer : Option (Answer × State) → Type 0
HasAnswer o = (answer : Answer × State) × (o ≡ some answer)

admit_load-HasAnswer :
    (s : State) (q : Request) (a : Admitted) → IsPlanned s q a → HasAnswer (admit_load s q a)
unfolding admit_load
admit_load-HasAnswer s q a p =
    let (models, h) =
      stop_victims_total a.victims s.models
        (λ id m. let i = p.idle_victims id m in Memᴰ-IsKnown id i.slot s.models i.known) in
    let slot = new_slot q a (slot_of q.id models) in
    let (later, k, keeps) =
      set_state_or_panic-IsKnown q.id loading (insert_slot q.id slot models)
        (insert_slot-IsKnown q.id slot models) in
    rw (h, k, admit_load) (_, refl)

told_never {ℓ} : {A : Type ℓ} (r : Result BackendError A) → ¬ (told r ≡ err none)
told_never (ok a) h = cc h
told_never (err e) h = cc h

told_then_never {ℓ κ} :
    {A : Type ℓ} {B : Type κ} (r : Result BackendError A) (f : A → B)
    → ¬ ((told r >>= (λ a. ok (f a))) ≡ err none)
told_then_never (ok a) f h = cc h
told_then_never (err e) f h = cc h

victims_of_never :
    (models : Models) (gb : F64) (need : ModelReq) (p : Result PlanEvictionError EvictionPlan)
    → plan_eviction (build_snapshot models gb need.id) need ≡ p
    → ¬ (victims_of need.id p ≡ err none)
victims_of_never models gb need (ok not_needed) h k = cc k
victims_of_never models gb need (ok (evict victims)) h k = cc k
victims_of_never models gb need (err e) h k =
    let (answer, told_so) = map_plan_error_answers models gb need e h in cc (told_so, k)

plan_load_never :
    (s : State) (fence : Option Fence) (q : Request) → ¬ (plan_load s fence q ≡ err none)
unfolding plan_load
plan_load_never s fence q h =
    let inherited = inherits (slot_of q.id s.models) in
    let reservation = effective_reserved_gb s.env s.models in
    let need : ModelReq = record {
      id = q.id;
      memory_gb = request_charge_gb inherited q.memory_gb reservation;
    } in
    let gb = sub s.budget_gb reservation in
    let plan = plan_eviction (build_snapshot s.models gb q.id) need in
    let guard = require (not (lt s.budget_gb reservation)) (eviction_impossible q.id) in
    elim (>>=-eq-err (told guard) _ h) [
      | inl x ↦ told_never guard x
      | inr (u, _, h₁) ↦ elim (>>=-eq-err (victims_of q.id plan) _ h₁) [
        | inl x ↦ victims_of_never s.models gb need plan refl x
        | inr (victims, _, h₂) ↦ elim (>>=-eq-err (told (charge_plan s q inherited victims)) _ h₂) [
          | inl x ↦ told_never (charge_plan s q inherited victims) x
          | inr (charged, _, h₃) ↦ elim (>>=-eq-err (told (begin_fence fence)) _ h₃) [
            | inl x ↦ told_never (begin_fence fence) x
            | inr (f, _, h₄) ↦ told_then_never (or_clear f _) _ h₄
          ]
        ]
      ]
    ]

answer_plan-HasAnswer :
    (s : State) (q : Request) (p : Result (Option BackendError) Admitted)
    → ¬ (p ≡ err none)
    → ((a : Admitted) → p ≡ ok a → IsPlanned s q a)
    → HasAnswer (answer_plan s q p)
answer_plan-HasAnswer s q (ok a) t h = admit_load-HasAnswer s q a (h a refl)
answer_plan-HasAnswer s q (err (some e)) t h = (_, refl)
answer_plan-HasAnswer s q (err none) t h = absurd (t refl)

answer_early-HasAnswer :
    (s : State) (fence : Option Fence) (q : Request) (o : Option (Result BackendError (Unit {0})))
    → HasAnswer (answer_early s fence q o)
answer_early-HasAnswer s fence q (some result) = (_, refl)
answer_early-HasAnswer s fence q none =
    answer_plan-HasAnswer s q (plan_load s fence q) (plan_load_never s fence q)
      (plan_load-IsPlanned s fence q)

join_active-HasAnswer :
    (s : State) (q : Request) (op : Option ActiveOp)
    → is_active q op ≡ true
    → HasAnswer (join_active s q op)
join_active-HasAnswer s q none h = cc h
join_active-HasAnswer s q (some active) h = (_, refl)

-- Every request to load is answered, joins the load under way or starts a load: none makes the
-- supervisor panic, since a plan names only slots that it has, and never the requested model.
pub handle_load_total :
    (s : State) (fence : Option Fence) (q : Request) → HasAnswer (handle_load s fence q)
unfolding handle_load
handle_load_total s fence q = elim (Bool-cases (is_capacity q.memory_gb)) [
  | inl c ↦ elim (Bool-cases (is_active q s.active_op)) [
    | inl e ↦ rw (c, e, handle_load) (join_active-HasAnswer s q s.active_op e)
    | inr e ↦
        rw (c, e, handle_load)
          (answer_early-HasAnswer s fence q (early_reply s q (slot_of q.id s.models)))
  ]
  | inr c ↦ rw (c, handle_load) (_, refl)
]
