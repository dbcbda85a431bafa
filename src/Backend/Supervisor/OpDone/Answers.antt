-- ===== src/Backend/Supervisor/OpDone/Answers.antt =====
-- crates/idoris-backend/src/supervisor.rs: what becomes of the waiters of a load.
use i_doris.Prelude.{
  ℕ, Bool, true, false, Option, none, some, List, ◌≡◌, refl, ◌⊎◌, inl, inr, if◌then◌else◌,
}
use i_doris.Prelude.Equality.{Text}
use i_doris.Prelude.Results.{Result, ok, err}
use i_doris.Backend.Error.{BackendError, invariant_violation}
use i_doris.Backend.Supervisor.Adapter.{LoadOutcome}
use i_doris.Backend.Supervisor.Slots.{Models}
use i_doris.Backend.Supervisor.Accounting.{Env}
use i_doris.Backend.Supervisor.Settlement.{settle_runtime_capacity}
use i_doris.Backend.Supervisor.OpDone.{
  Actor, Replies, apply_outcome, seq_after, take_waiters, answer_all, poison, idle, settled,
  conclude_op, op_done_load,
}

pub if_intro :
    {A : Type 0} (P : A → Type 0) (b : Bool) (x y : A) → P x → P y → P (if b then x else y)
if_intro P true x y h k = h
if_intro P false x y h k = k

-- All waiters have one answer: that of the operation, or that the supervisor is poisoned now.
pub record Answers (result : Result BackendError (Unit {0})) (waiters : List ℕ)
    (x : Actor × Replies) : Type 0 where
  pub answer : Result BackendError (Unit {0})
  pub replies : x.1 ≡ answer_all answer waiters
  pub cause : (answer ≡ result) ⊎ ((answer ≡ err invariant_violation) × (x.0.is_poisoned ≡ true))
  pub nothing_active : x.0.state.active_op ≡ none

poison-Answers :
    (a : Actor) (result : Result BackendError (Unit {0})) (waiters : List ℕ)
    → a.state.active_op ≡ none
    → Answers result waiters (poison a (some waiters))
poison-Answers a result waiters h = record {
  answer = err invariant_violation;
  replies = refl;
  cause = inr (refl, refl);
  nothing_active = h;
}

settled-Answers :
    (a : Actor) (seq : ℕ) (result : Result BackendError (Unit {0})) (models : Models)
    (x : Env × Result BackendError (Unit {0})) (waiters : List ℕ)
    → a.state.active_op ≡ none
    → Answers result waiters (settled a seq result models x waiters)
settled-Answers a seq result models (env, err e) waiters h =
    poison-Answers (record a { state = record a.state { env = env } }) result waiters h
settled-Answers a seq result models (env, ok done) waiters h = record {
  answer = result;
  replies = refl;
  cause = inl refl;
  nothing_active = h;
}

conclude_op-Answers :
    (a : Actor) (seq : ℕ) (result : Result BackendError (Unit {0})) (o : Option (Models × Env))
    (waiters : List ℕ)
    → a.state.active_op ≡ none
    → Answers result waiters (conclude_op a seq result o (some waiters))
conclude_op-Answers a seq result none waiters h = poison-Answers a result waiters h
conclude_op-Answers a seq result (some (models, env)) waiters h =
    settled-Answers a seq result models (settle_runtime_capacity env models) waiters h

-- Once a load is done, nothing is under way, and each of its waiters has one answer, in the order in
-- which they came and the same for all: the load's result, or that an invariant is violated, and then
-- the supervisor is poisoned.
pub op_done_load-Answers :
    (a : Actor) (id : Text) (outcome : LoadOutcome) (waiters : List ℕ)
    → take_waiters a.state.active_op ≡ some waiters
    → Answers outcome.result waiters (op_done_load a id outcome)
unfolding op_done_load
op_done_load-Answers a id outcome waiters h =
    let seq = seq_after a.next_seq outcome.result in
    let o = apply_outcome id seq outcome a.state.models a.state.env in
    rw h (
      if_intro (Answers outcome.result waiters) a.is_poisoned (poison (idle a) (some waiters))
        (conclude_op (idle a) seq outcome.result o (some waiters))
        (poison-Answers (idle a) outcome.result waiters refl)
        (conclude_op-Answers (idle a) seq outcome.result o waiters refl))
