-- ===== src/Backend/Supervisor/Admission/Decisions.antt =====
-- What the start of a load rests on.
use i_doris.Prelude.{
  false, not, ◌&&◌, Option, none, some, List, [], ◌≡◌, refl, inl, inr, Memᴰ, Bool-cases,
  Option-cases, ◌==◌,
}
use i_doris.Prelude.Equality.{Text}
use i_doris.Prelude.Float.{F64, sub, lt}
use i_doris.Prelude.Results.{Result, ok, err, >>=-eq-ok}
use i_doris.Backend.Error.{BackendError, eviction_impossible}
use i_doris.Backend.Capacity.{require}
use i_doris.Backend.Eviction.{
  ModelReq, EvictionPlan, not_needed, evict, PlanEvictionError, is_capacity, plan_eviction,
}
use i_doris.Backend.Supervisor.Adapter.{PreviousModel}
use i_doris.Backend.Supervisor.Slots.{ModelSlot, Models, slot_of, build_snapshot, bool_eq}
use i_doris.Backend.Supervisor.Slots.Victims.{IsIdle, plan_eviction-IsIdle}
use i_doris.Backend.Supervisor.Accounting.{Env, effective_reserved_gb}
use i_doris.Backend.Supervisor.Admission.{
  inherits, victims_of, told, request_charge_gb, charge_plan, begin_fence, or_clear, Admitted,
  plan_load, stop_victims, active_load, installed, admit_load, answer_plan, answer_early, is_active,
  join_active, handle_load, start_of,
}
use i_doris.Backend.Supervisor.Admission.Claims.{IsClaimed, charge_plan-IsPlannedUnits, told-ok}
use i_doris.Backend.Supervisor.Requests.{
  Request, ActiveKind, load_op, unload_op, ActiveOp, State, Fence, LoadStart, Answer, started,
  joins, join, other_busy, early_reply, is_ready_with,
}

-- What the start of a load rests on and what it has changed.
pub record Starts (s s' : State) (q : Request) (w : LoadStart) : Type 0 where
  pub was_idle : s.active_op ≡ none
  pub now_active : s'.active_op ≡ some (active_load q)
  pub victims_are_idle : (id : Text) → Memᴰ id w.victims → IsIdle s.models q.id id
  pub within_budget : lt s.budget_gb (effective_reserved_gb s.env s.models) ≡ false
  pub claim : IsClaimed s q w.victims s'.env

or_clear-ok :
    (fence : Fence) (r : Result BackendError Env) {env : Env}
    → or_clear fence r ≡ ok env
    → r ≡ ok env
or_clear-ok fence (ok b) h = h
or_clear-ok fence (err e) h = let (u, a, b) = >>=-eq-ok fence.clear_result _ h in cc b

victims_of-ok :
    (id : Text) (p : Result PlanEvictionError EvictionPlan) (victims : List Text) (v : Text)
    → victims_of id p ≡ ok victims
    → Memᴰ v victims
    → p ≡ ok (evict victims)
victims_of-ok id (ok not_needed) victims v h m =
    let nobody : victims ≡ [] = cc h in elim (rw nobody at m) [ ]
victims_of-ok id (ok (evict vs)) victims v h m = cc h
victims_of-ok id (err e) victims v h m = cc h

other_busy-none : (o : Option ActiveOp) → other_busy o ≡ none → o ≡ none
other_busy-none none h = refl
other_busy-none (some a) h = cc h

early_reply-none :
    (s : State) (q : Request) (o : Option ModelSlot) → early_reply s q o ≡ none → s.active_op ≡ none
early_reply-none s q none h = other_busy-none s.active_op h
early_reply-none s q (some slot) h = elim (Bool-cases slot.is_load_unconfirmed) [
  | inl e ↦ cc (rw e at h)
  | inr e ↦ elim (Bool-cases (is_ready_with slot q.policy)) [
    | inl f ↦ cc (rw (e, f) at h)
    | inr f ↦ elim (Bool-cases (slot.inflight == 0)) [
      | inl g ↦ other_busy-none s.active_op (rw (e, f, g) at h)
      | inr g ↦ cc (rw (e, f, g) at h)
    ]
  ]
]

-- What a plan that succeeds rests on.
pub record IsPlanned (s : State) (q : Request) (a : Admitted) : Type 0 where
  pub idle_victims : (id : Text) → Memᴰ id a.victims → IsIdle s.models q.id id
  pub fits_budget : lt s.budget_gb (effective_reserved_gb s.env s.models) ≡ false
  pub claimed : IsClaimed s q a.victims a.env

require-lt : (a b : F64) (e : BackendError) → require (not (lt a b)) e ≡ ok tt → lt a b ≡ false
require-lt a b e h = elim (Bool-cases (lt a b)) [ inl x ↦ cc (rw x at h) | inr x ↦ x ]

pub plan_load-IsPlanned :
    (s : State) (fence : Option Fence) (q : Request) (a : Admitted)
    → plan_load s fence q ≡ ok a
    → IsPlanned s q a
unfolding plan_load
plan_load-IsPlanned s fence q a h =
    let inherited = inherits (slot_of q.id s.models) in
    let reservation = effective_reserved_gb s.env s.models in
    let need : ModelReq = record {
      id = q.id;
      memory_gb = request_charge_gb inherited q.memory_gb reservation;
    } in
    let gb = sub s.budget_gb reservation in
    let plan = plan_eviction (build_snapshot s.models gb q.id) need in
    let guard = require (not (lt s.budget_gb reservation)) (eviction_impossible q.id) in
    let (u, guarded, h₁) = >>=-eq-ok (told guard) _ h in
    let (victims, chosen, h₂) = >>=-eq-ok (victims_of q.id plan) _ h₁ in
    let ((planned_charge, units), charged, h₃) =
      >>=-eq-ok (told (charge_plan s q inherited victims)) _ h₂ in
    let (f, begun, h₄) = >>=-eq-ok (told (begin_fence fence)) _ h₃ in
    let (env, claimed, h₅) = >>=-eq-ok (told (or_clear f _)) _ h₄ in
    let claim = or_clear-ok f _ (told-ok _ claimed) in
    carry h₅ (record {
      idle_victims = λ id m.
          plan_eviction-IsIdle s.models gb need victims id
            (victims_of-ok q.id plan victims id chosen m) m;
      fits_budget =
          require-lt s.budget_gb reservation (eviction_impossible q.id) (told-ok guard guarded);
      claimed = record {
        units = planned_charge;
        planned_units =
            charge_plan-IsPlannedUnits s q inherited victims planned_charge units refl
              (told-ok (charge_plan s q inherited victims) charged);
        admitted = claim;
      };
    })
  where
    carry :
        {a b : Admitted}
        → ◌≡◌ {A = Result (Option BackendError) Admitted} (ok a) (ok b)
        → IsPlanned s q a
        → IsPlanned s q b
    carry {a} {b} e p = let same : a ≡ b = cc e in rw (← same) p

abbrev StartsIn : State → Request → Option (Answer × State) → Type 0
StartsIn s q (some (started w, s')) = Starts s s' q w
StartsIn s q _ = Unit

installed-StartsIn :
    (s : State) (q : Request) (a : Admitted) (previous : Option PreviousModel) (o : Option Models)
    → s.active_op ≡ none
    → IsPlanned s q a
    → StartsIn s q (installed s q a previous o)
unfolding start_of
installed-StartsIn s q a previous none idle p = tt
installed-StartsIn s q a previous (some models) idle p = record {
  was_idle = idle;
  now_active = refl;
  victims_are_idle = p.idle_victims;
  within_budget = p.fits_budget;
  claim = p.claimed;
}

answer_plan-StartsIn :
    (s : State) (q : Request) (p : Result (Option BackendError) Admitted)
    → s.active_op ≡ none
    → ((a : Admitted) → p ≡ ok a → IsPlanned s q a)
    → StartsIn s q (answer_plan s q p)
unfolding admit_load
answer_plan-StartsIn s q (err none) idle h = tt
answer_plan-StartsIn s q (err (some e)) idle h = tt
answer_plan-StartsIn s q (ok a) idle h = elim (Option-cases (stop_victims a.victims s.models)) [
  | inl e ↦ rw (e, admit_load) tt
  | inr (models, e) ↦ rw (e, admit_load) (installed-StartsIn s q a _ _ idle (h a refl))
]

answer_early-StartsIn :
    (s : State) (fence : Option Fence) (q : Request) (o : Option (Result BackendError (Unit {0})))
    → (o ≡ none → s.active_op ≡ none)
    → StartsIn s q (answer_early s fence q o)
answer_early-StartsIn s fence q (some result) idle = tt
answer_early-StartsIn s fence q none idle =
    answer_plan-StartsIn s q (plan_load s fence q) (idle refl) (plan_load-IsPlanned s fence q)

join-StartsIn : (s : State) (q : Request) (kind : ActiveKind) → StartsIn s q (some (join s q kind))
join-StartsIn s q (unload_op waiters has_started) = tt
join-StartsIn s q (load_op policy memory_gb allows waiters) =
    elim (Bool-cases (joins q policy memory_gb && bool_eq allows q.allows_headroom_breach)) [
      | inl e ↦ rw e tt
      | inr e ↦ rw e tt
    ]

join_active-StartsIn :
    (s : State) (q : Request) (op : Option ActiveOp) → StartsIn s q (join_active s q op)
join_active-StartsIn s q none = tt
join_active-StartsIn s q (some active) = join-StartsIn s q active.kind

handle_load-StartsIn :
    (s : State) (fence : Option Fence) (q : Request) → StartsIn s q (handle_load s fence q)
unfolding handle_load
handle_load-StartsIn s fence q =
    let slot = slot_of q.id s.models in
    elim (Bool-cases (is_capacity q.memory_gb)) [
      | inl c ↦ elim (Bool-cases (is_active q s.active_op)) [
        | inl e ↦ rw (c, e, handle_load) (join_active-StartsIn s q s.active_op)
        | inr e ↦
            rw (c, e, handle_load)
              (answer_early-StartsIn s fence q (early_reply s q slot) (early_reply-none s q slot))
      ]
      | inr c ↦ rw (c, handle_load) tt
    ]

-- A load starts only while no other operation is under way, with its model as the operation under way
-- then; what is reserved is within the budget; a claim on the host's memory was admitted, with the
-- headroom rule of the request, for the sum of what is reserved, the charge for the requested model
-- (its amount, or for an inherited model what that exceeds the reservation by) and every other model
-- that occupies memory and is not a victim, and where the claim is tracked in exact units also for the
-- same sum in them, and the state keeps what that claim gave; and every victim is another model's slot
-- that rests, is confirmed and not inherited, is not pinned, and serves no call.
pub handle_load-Starts :
    (s s' : State) (fence : Option Fence) (q : Request) (w : LoadStart)
    → handle_load s fence q ≡ some (started w, s')
    → Starts s s' q w
handle_load-Starts s s' fence q w h = rw h at (handle_load-StartsIn s fence q)
