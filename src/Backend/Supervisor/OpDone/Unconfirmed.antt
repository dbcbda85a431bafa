-- ===== src/Backend/Supervisor/OpDone/Unconfirmed.antt =====
-- crates/idoris-backend/src/supervisor.rs: what becomes of a load that may still run.
use i_doris.Prelude.{
  ℕ, Bool, true, false, Option, none, some, List, [], ◌∷◌, ◌≡◌, refl, ◌⊎◌, inl, inr, Bool-cases,
  Option-cases, if◌then◌else◌, map, all,
}
use i_doris.Prelude.Equality.{Text, text_eq, text_eq_refl, text_eq→eq}
use i_doris.Prelude.Results.{Result, ok, err}
use i_doris.Backend.Error.{BackendError, model_unavailable, invalid_request}
use i_doris.Backend.Eviction.{is_capacity}
use i_doris.Backend.Supervisor.Adapter.{PreviousModel, retain_unconfirmed_load, LoadOutcome}
use i_doris.Backend.Supervisor.Slots.{ModelSlot, Models, slot_of, insert_slot}
use i_doris.Backend.Supervisor.Accounting.{Env}
use i_doris.Backend.Supervisor.Admission.{handle_load}
use i_doris.Backend.Supervisor.Requests.{Request, State, Fence, Answer, replied}
use i_doris.Backend.Supervisor.Settlement.{settle_victims, settle_runtime_capacity}
use i_doris.Backend.Supervisor.OpDone.{
  Actor, Replies, retained_unconfirmed, with_env, apply_failure, refreshed, apply_outcome,
  seq_after, take_waiters, poison, idle, settled, conclude_op, op_done_load,
}
use i_doris.Backend.Supervisor.OpDone.Answers.{if_intro}

slot_of-insert_slot :
    (id : Text) (slot : ModelSlot) (models : Models)
    → slot_of id (insert_slot id slot models) ≡ some slot
unfolding insert_slot
slot_of-insert_slot id slot [] = rw (text_eq_refl id) refl
slot_of-insert_slot id slot ((k, held) ∷ rest) = elim (Bool-cases (text_eq k id)) [
  | inl e ↦ rw (e, insert_slot, e) refl
  | inr e ↦ rw (e, insert_slot, e) (slot_of-insert_slot id slot rest)
]

abbrev IsHeld : Text → Models → Type 0
IsHeld id models =
    (slot : ModelSlot) × (slot_of id models ≡ some slot) × (slot.is_load_unconfirmed ≡ true)

abbrev Holds : Text → Option (Models × Env) → Type 0
Holds id none = Unit
Holds id (some (models, env)) = IsHeld id models

retained-unconfirmed :
    (previous : Option PreviousModel) (slot : ModelSlot)
    → (retained_unconfirmed previous slot).is_load_unconfirmed ≡ true
retained-unconfirmed none slot = refl
retained-unconfirmed (some previous) slot = refl

apply_failure-Holds :
    (id : Text) (previous : Option PreviousModel) (models : Models) (env : Env)
    → Holds id (apply_failure id (retain_unconfirmed_load previous) models env)
unfolding apply_failure
apply_failure-Holds id previous models env = held (slot_of id models)
  where
    held :
        (o : Option ModelSlot)
        → Holds id (
            with_env env (elim o [
              | none ↦ none
              | some slot ↦ some (insert_slot id (retained_unconfirmed previous slot) models)
            ]))
    held none = tt
    held (some slot) =
        let kept = retained_unconfirmed previous slot in
        (kept, slot_of-insert_slot id kept models, retained-unconfirmed previous slot)

-- A load that may still run is poisoned away or held.
abbrev Blocks : Text → Actor × Replies → Type 0
Blocks id x = (x.0.is_poisoned ≡ true) ⊎ ((x.0.state.active_op ≡ none) × IsHeld id x.0.state.models)

poison-Blocks : (id : Text) (a : Actor) (waiters : Option (List ℕ)) → Blocks id (poison a waiters)
poison-Blocks id a none = inl refl
poison-Blocks id a (some waiters) = inl refl

settled-Blocks :
    (id : Text) (a : Actor) (seq : ℕ) (result : Result BackendError (Unit {0})) (models : Models)
    (x : Env × Result BackendError (Unit {0})) (waiters : List ℕ)
    → a.state.active_op ≡ none
    → IsHeld id models
    → Blocks id (settled a seq result models x waiters)
settled-Blocks id a seq result models (env, err e) waiters h held = inl refl
settled-Blocks id a seq result models (env, ok done) waiters h held = inr (h, held)

conclude_op-Blocks :
    (id : Text) (a : Actor) (seq : ℕ) (result : Result BackendError (Unit {0}))
    (o : Option (Models × Env)) (waiters : Option (List ℕ))
    → a.state.active_op ≡ none
    → Holds id o
    → Blocks id (conclude_op a seq result o waiters)
conclude_op-Blocks id a seq result none waiters h held = poison-Blocks id a waiters
conclude_op-Blocks id a seq result (some (models, env)) none h held = inl refl
conclude_op-Blocks id a seq result (some (models, env)) (some waiters) h held =
    settled-Blocks id a seq result models (settle_runtime_capacity env models) waiters h held

apply_outcome-Holds :
    (id : Text) (seq : ℕ) (outcome : LoadOutcome) (models : Models) (env : Env) (e : BackendError)
    (p : Option PreviousModel)
    → outcome.result ≡ err e
    → outcome.failure_outcome ≡ retain_unconfirmed_load p
    → Holds id (apply_outcome id seq outcome models env)
unfolding apply_outcome
apply_outcome-Holds id seq outcome models env e p failed kept =
    elim (Option-cases (settle_victims outcome.victim_results models)) [
      | inl n ↦ rw (n, apply_outcome) tt
      | inr (later, n) ↦
          simp (n, failed, kept, apply_outcome)
            (apply_failure-Holds id p later
              (refreshed id outcome outcome.aggregate_status later env))
    ]

op_done_load-Blocks :
    (a : Actor) (id : Text) (outcome : LoadOutcome) (e : BackendError) (p : Option PreviousModel)
    → outcome.result ≡ err e
    → outcome.failure_outcome ≡ retain_unconfirmed_load p
    → Blocks id (op_done_load a id outcome)
unfolding op_done_load
op_done_load-Blocks a id outcome e p failed kept =
    let seq = seq_after a.next_seq outcome.result in
    let o = apply_outcome id seq outcome a.state.models a.state.env in
    let held = apply_outcome-Holds id seq outcome a.state.models a.state.env e p failed kept in
    let waiters = take_waiters a.state.active_op in
    if_intro (Blocks id) a.is_poisoned (poison (idle a) waiters)
      (conclude_op (idle a) seq outcome.result o waiters) (poison-Blocks id (idle a) waiters)
      (conclude_op-Blocks id (idle a) seq outcome.result o waiters refl held)

-- A request with the fence it finds, and a run of them, one after the other; `none` is a panic.
abbrev pub Turn : Type 0
Turn = Option Fence × Request

abbrev pub prepend : Answer → Option (List Answer × State) → Option (List Answer × State)
prepend answer none = none
prepend answer (some (answers, s)) = some (answer ∷ answers, s)

abbrev pub handle_all : State → List Turn → Option (List Answer × State)
handle_all s [] = some ([], s)
handle_all s ((fence, q) ∷ rest) = elim (handle_load s fence q) [
  | none ↦ none
  | some (answer, later) ↦ prepend answer (handle_all later rest)
]

-- The answer to a request that nothing comes of.
abbrev pub refusal : Turn → Answer
refusal (fence, q) =
    replied (err (if is_capacity q.memory_gb then model_unavailable q.id else invalid_request))

abbrev pub asks_for : Text → Turn → Bool
asks_for id (fence, q) = text_eq q.id id

refuses :
    (s : State) (id : Text) (fence : Option Fence) (q : Request)
    → s.active_op ≡ none
    → IsHeld id s.models
    → text_eq q.id id ≡ true
    → handle_load s fence q ≡ some (refusal (fence, q), s)
unfolding handle_load
refuses s id fence q free (slot, found, held) e =
    let same = text_eq→eq q.id id e in
    elim (Bool-cases (is_capacity q.memory_gb)) [
      | inl valid ↦ simp (valid, free, same, found, held, handle_load) refl
      | inr wrong ↦ rw (wrong, handle_load) refl
    ]

refuses_all :
    (s : State) (id : Text) (turns : List Turn)
    → s.active_op ≡ none
    → IsHeld id s.models
    → all (asks_for id) turns ≡ true
    → handle_all s turns ≡ some (map refusal turns, s)
refuses_all s id [] free held e = refl
refuses_all s id ((fence, q) ∷ rest) free held e = elim (Bool-cases (text_eq q.id id)) [
  | inl here ↦
      let later = refuses_all s id rest free held (rw here at e) in
      rw (refuses s id fence q free held here, handle_all, later) refl
  | inr other ↦ absurd (cc (rw other at e))
]

-- A load that may still run is not started again by asking for its model: once it is done and its
-- outcome keeps it as unconfirmed, every request of a run of requests to load that model, however
-- long and with whatever amounts and fences, is told that the model is unavailable (or, where its
-- amount of memory is not a valid one, that it is invalid), and the state stays as it is; unless the
-- supervisor is poisoned and answers no request at all.
pub handle_all-op_done_load :
    (a : Actor) (id : Text) (outcome : LoadOutcome) (e : BackendError) (p : Option PreviousModel)
    (turns : List Turn)
    → outcome.result ≡ err e
    → outcome.failure_outcome ≡ retain_unconfirmed_load p
    → all (asks_for id) turns ≡ true
    → (op_done_load a id outcome).0.is_poisoned ≡ false
    → handle_all (op_done_load a id outcome).0.state turns
      ≡ some (map refusal turns, (op_done_load a id outcome).0.state)
handle_all-op_done_load a id outcome e p turns failed kept named sane =
    elim (op_done_load-Blocks a id outcome e p failed kept) [
      | inl poisoned ↦ cc (poisoned, sane)
      | inr (free, held) ↦ refuses_all (op_done_load a id outcome).0.state id turns free held named
    ]
