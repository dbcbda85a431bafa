-- ===== src/Backend/Supervisor/Admission/Replies.antt =====
-- What an answer to a request to load changes.
use i_doris.Prelude.{
  true, false, ◌&&◌, Option, none, some, ◌≡◌, refl, inl, inr, Bool-cases, Option-cases, ◌==◌,
}
use i_doris.Prelude.Results.{Result, ok, err}
use i_doris.Backend.Error.{BackendError}
use i_doris.Backend.Eviction.{is_capacity}
use i_doris.Backend.Supervisor.Adapter.{PreviousModel}
use i_doris.Backend.Supervisor.Slots.{ModelSlot, Models, slot_of, bool_eq}
use i_doris.Backend.Supervisor.Admission.{
  Admitted, plan_load, stop_victims, installed, admit_load, answer_plan, answer_early, is_active,
  join_active, handle_load,
}
use i_doris.Backend.Supervisor.Requests.{
  Request, ActiveKind, load_op, unload_op, ActiveOp, State, Fence, Answer, replied, joins, join,
  other_busy, early_reply, is_ready_with,
}

-- An answer that all is well is given for a model that is ready with the same policy.
abbrev pub Serves : State → Request → Result BackendError (Unit {0}) → Type 0
Serves s q (err e) = Unit
Serves s q (ok done) =
    (slot : ModelSlot) × (slot_of q.id s.models ≡ some slot)
    × (is_ready_with slot q.policy ≡ true)
    × (slot.is_load_unconfirmed ≡ false)

other_busy-err : (op : Option ActiveOp) {u : Unit {0}} → other_busy op ≡ some (ok u) → false ≡ true
other_busy-err none h = cc h
other_busy-err (some a) h = cc h

-- The state after an answer that starts nothing.
abbrev Keeps : State → Request → Option (Answer × State) → Type 0
Keeps s q (some (replied r, s')) = (s' ≡ s) × Serves s q r
Keeps s q _ = Unit

served :
    (s : State) (q : Request) (o : Option ModelSlot) (r : Result BackendError (Unit {0}))
    → slot_of q.id s.models ≡ o
    → early_reply s q o ≡ some r
    → Serves s q r
served s q o (err e) held h = tt
served s q none (ok done) held h = cc (other_busy-err s.active_op h)
served s q (some slot) (ok done) held h = elim (Bool-cases slot.is_load_unconfirmed) [
  | inl e ↦ cc (rw e at h)
  | inr e ↦ elim (Bool-cases (is_ready_with slot q.policy)) [
    | inl f ↦ (slot, held, f, e)
    | inr f ↦ elim (Bool-cases (slot.inflight == 0)) [
      | inl g ↦ cc (other_busy-err s.active_op (rw (e, f, g) at h))
      | inr g ↦ cc (rw (e, f, g) at h)
    ]
  ]
]

join-Keeps : (s : State) (q : Request) (kind : ActiveKind) → Keeps s q (some (join s q kind))
join-Keeps s q (unload_op waiters has_started) = (refl, tt)
join-Keeps s q (load_op policy memory_gb allows waiters) =
    elim (Bool-cases (joins q policy memory_gb && bool_eq allows q.allows_headroom_breach)) [
      | inl e ↦ rw e tt
      | inr e ↦ rw e (refl, tt)
    ]

join_active-Keeps :
    (s : State) (q : Request) (op : Option ActiveOp) → Keeps s q (join_active s q op)
join_active-Keeps s q none = tt
join_active-Keeps s q (some active) = join-Keeps s q active.kind

installed-Keeps :
    (s : State) (q : Request) (a : Admitted) (previous : Option PreviousModel) (o : Option Models)
    → Keeps s q (installed s q a previous o)
installed-Keeps s q a previous none = tt
installed-Keeps s q a previous (some models) = tt

admit_load-Keeps : (s : State) (q : Request) (a : Admitted) → Keeps s q (admit_load s q a)
unfolding admit_load
admit_load-Keeps s q a = elim (Option-cases (stop_victims a.victims s.models)) [
  | inl e ↦ rw (e, admit_load) tt
  | inr (models, e) ↦ rw (e, admit_load) (installed-Keeps s q a _ _)
]

answer_plan-Keeps :
    (s : State) (q : Request) (p : Result (Option BackendError) Admitted)
    → Keeps s q (answer_plan s q p)
answer_plan-Keeps s q (err none) = tt
answer_plan-Keeps s q (err (some e)) = (refl, tt)
answer_plan-Keeps s q (ok a) = admit_load-Keeps s q a

answer_early-Keeps :
    (s : State) (fence : Option Fence) (q : Request) (o : Option (Result BackendError (Unit {0})))
    → ((r : Result BackendError (Unit {0})) → o ≡ some r → Serves s q r)
    → Keeps s q (answer_early s fence q o)
answer_early-Keeps s fence q (some result) h = (refl, h result refl)
answer_early-Keeps s fence q none h = answer_plan-Keeps s q (plan_load s fence q)

handle_load-Keeps :
    (s : State) (fence : Option Fence) (q : Request) → Keeps s q (handle_load s fence q)
unfolding handle_load
handle_load-Keeps s fence q =
    let slot = slot_of q.id s.models in
    elim (Bool-cases (is_capacity q.memory_gb)) [
      | inl c ↦ elim (Bool-cases (is_active q s.active_op)) [
        | inl e ↦ rw (c, e, handle_load) (join_active-Keeps s q s.active_op)
        | inr e ↦
            rw (c, e, handle_load)
              (answer_early-Keeps s fence q (early_reply s q slot)
                (λ r h. served s q slot r refl h))
      ]
      | inr c ↦ rw (c, handle_load) (refl, tt)
    ]

-- A request to load that is answered at once, be it refused or served already, leaves the state of the
-- supervisor as it was: its slots, the operation under way, and its claim on the host's memory. It is
-- told that all is well only where its model is ready with the same policy, by a confirmed load.
pub handle_load_replied :
    (s s' : State) (fence : Option Fence) (q : Request) (r : Result BackendError (Unit {0}))
    → handle_load s fence q ≡ some (replied r, s')
    → (s' ≡ s) × Serves s q r
handle_load_replied s s' fence q r h = rw h at (handle_load-Keeps s fence q)
