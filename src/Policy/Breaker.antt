-- ===== src/Policy/Breaker.antt =====
-- crates/idoris-policy/src/breaker.rs: the circuit breaker of a provider, a connection or a model.
-- A method on `&mut self` returns the new breaker. Milliseconds and generations are `u64`. The
-- identity that `next_issuer` draws from its global counter is passed in and out explicitly.
pub mod Validity
pub mod Window
pub mod Probe
pub mod Book
pub mod RetryAfter
mod Examples
use i_doris.Prelude.{
  ℕ, ◌+◌, ◌-◌, max, Bool, true, false, not, ◌&&◌, ◌||◌, Option, none, some, ltb, ◌==◌,
  if◌then◌else◌, u32, u64_max, saturating_add,
}

pub data CredentialClass : Type 0 where
  o_auth api_key local : CredentialClass

CredentialClass-discrete : Discrete CredentialClass
CredentialClass-discrete = hlevel

abbrev pub failure_threshold : CredentialClass → ℕ
failure_threshold o_auth = 3
failure_threshold api_key = 5
failure_threshold local = 2

abbrev pub recovery_ms : CredentialClass → ℕ
recovery_ms o_auth = 60000
recovery_ms api_key = 30000
recovery_ms local = 15000

-- `closed` holds the count of failures, `opened` the end of the window, `half_open` whether the
-- probe is under way.
pub data State : Type 0 where
  closed : ℕ → State
  opened : ℕ → State
  half_open : Bool → State

pub data Admission : Type 0 where
  allowed probe : Admission
  rejected : ℕ → Admission

abbrev pub admitted : Admission → Bool
admitted allowed = true
admitted probe = true
admitted (rejected retry_after_ms) = false

pub record AdmissionTicket : Type 0 where
  pub issuer : ℕ
  pub generation : ℕ
  pub is_probe : Bool

pub record Admit : Type 0 where
  pub admission : Admission
  pub ticket : Option AdmissionTicket

pub record Breaker : Type 0 where
  pub issuer : ℕ
  pub class : CredentialClass
  pub state : State
  pub generation : ℕ
  pub open_cohort : Option ℕ

-- `fetch_update` with `checked_add`: the identity and the next value of the counter; `none` is the
-- panic of an exhausted counter.
pub next_issuer : ℕ → Option (ℕ × ℕ)
next_issuer next = if next == u64_max then none else some (next, next + 1)

-- `Breaker::new`, and `Clone`, with the identity that they draw.
pub new : CredentialClass → ℕ → Breaker
new class issuer = record {
  issuer = issuer;
  class = class;
  state = closed 0;
  generation = 0;
  open_cohort = none;
}

pub clone : Breaker → ℕ → Breaker
clone b issuer = record b { issuer = issuer }

abbrev state_readiness : State → ℕ → Admission
state_readiness (closed failures) now = allowed
state_readiness (opened until) now = if ltb now until then rejected (until - now) else probe
state_readiness (half_open false) now = probe
state_readiness (half_open true) now = rejected 0

pub readiness : Breaker → ℕ → Admission
readiness b now = state_readiness b.state now

abbrev ticket_of : Breaker → Bool → Option AdmissionTicket
ticket_of b p = some (record { issuer = b.issuer; generation = b.generation; is_probe = p })

admit_refused : Breaker → ℕ → Breaker × Admit
admit_refused b ms = (b, record { admission = rejected ms; ticket = none })

admit_probe : Breaker → Breaker × Admit
admit_probe b =
    (record b { state = half_open true }, record { admission = probe; ticket = ticket_of b true })

admit_state : State → Breaker → ℕ → Breaker × Admit
unfolding admit_refused admit_probe
admit_state (closed failures) b now =
    (b, record { admission = allowed; ticket = ticket_of b false })
admit_state (opened until) b now =
    if ltb now until then admit_refused b (until - now) else admit_probe b
admit_state (half_open false) b now = admit_probe b
admit_state (half_open true) b now = admit_refused b 0

pub admit : Breaker → ℕ → Breaker × Admit
unfolding admit_state
admit b now = admit_state b.state b now

-- The two guards at the head of every report.
abbrev is_current : Breaker → AdmissionTicket → Bool
is_current b t = t.issuer == b.issuer && t.generation == b.generation

abbrev is_half_open : State → Bool
is_half_open (half_open probing) = true
is_half_open _ = false

success_state : State → Bool → Breaker → Breaker
success_state (closed failures) is_probe b = record b { state = closed 0 }
success_state (opened until) is_probe b = b
success_state (half_open probing) true b = record b {
  state = closed 0;
  open_cohort = none;
  generation = saturating_add b.generation 1;
}
success_state (half_open probing) false b = b

pub on_success : Breaker → AdmissionTicket → Breaker
unfolding success_state
on_success b t = if is_current b t then success_state b.state t.is_probe b else b

trip : Breaker → ℕ → ℕ → Breaker
trip b generation now = record b {
  open_cohort = some generation;
  generation = saturating_add b.generation 1;
  state = opened (saturating_add now (recovery_ms b.class));
}

failure_state : State → Breaker → ℕ → ℕ → Breaker
unfolding trip
failure_state (closed failures) b generation now =
    if ltb (u32 (failures + 1)) (failure_threshold b.class)
    then record b { state = closed (u32 (failures + 1)) }
    else trip b generation now
failure_state (opened until) b generation now = b
failure_state (half_open probing) b generation now = trip b generation now

-- `on_failure` and `on_failure_metadata`.
pub on_failure : Breaker → AdmissionTicket → ℕ → Breaker
unfolding failure_state
on_failure b t now =
    if is_current b t && not (is_half_open b.state && not t.is_probe)
    then failure_state b.state b t.generation now
    else b

abbrev extends_cohort : Breaker → ℕ → Bool
extends_cohort b generation = elim b.state [
  | opened until ↦ elim b.open_cohort [ none ↦ false | some g ↦ g == generation ]
  | _ ↦ false
]

abbrev window_end : Breaker → AdmissionTicket → ℕ → ℕ → ℕ
window_end b t now retry_after_ms =
    let asked = saturating_add now retry_after_ms in
    let at_least =
      if t.is_probe then max asked (saturating_add now (recovery_ms b.class)) else asked in
    elim b.state [ opened existing ↦ max existing at_least | _ ↦ at_least ]

retry_after_state : Breaker → AdmissionTicket → ℕ → ℕ → Breaker
retry_after_state b t now retry_after_ms =
    let reopened = record b { state = opened (window_end b t now retry_after_ms) } in
    if t.generation == b.generation
    then record reopened {
      open_cohort = some t.generation;
      generation = saturating_add b.generation 1;
    }
    else reopened

-- `on_retry_after` and `on_retry_after_metadata`.
pub on_retry_after : Breaker → AdmissionTicket → ℕ → ℕ → Breaker
unfolding retry_after_state
on_retry_after b t now retry_after_ms =
    if t.issuer == b.issuer
      && not (is_half_open b.state && not t.is_probe)
      && (t.generation == b.generation || extends_cohort b t.generation)
    then retry_after_state b t now retry_after_ms
    else b

pub on_failure_with_retry_after : Breaker → AdmissionTicket → ℕ → Option ℕ → Breaker
unfolding on_failure on_retry_after
on_failure_with_retry_after b t now none = on_failure b t now
on_failure_with_retry_after b t now (some ms) = on_retry_after (on_failure b t now) t now ms
