-- ===== src/Policy/Breaker/Validity.antt =====
-- What holds of a breaker between two calls, and histories of calls.
use i_doris.Prelude.{
  ℕ, ◌<◌, ◌≤◌, ◌≡◌, Option, none, some, List, [], ◌∷◌, arith, true, false, u64_max, saturating_add,
}
use i_doris.Policy.Breaker.{
  Breaker, State, closed, opened, half_open, CredentialClass, AdmissionTicket, failure_threshold,
  new, clone, admit, on_success, on_failure, on_retry_after, on_failure_with_retry_after,
}

-- The round of the cohort is the one before the current round.
abbrev IsPrevious : Option ℕ → ℕ → Type 0
IsPrevious none generation = ⊥
IsPrevious (some g) generation = saturating_add g 1 ≡ generation

abbrev StateFits : State → Breaker → Type 0
StateFits (closed failures) b = (failures < failure_threshold b.class) × (b.open_cohort ≡ none)
StateFits (opened until) b = (until ≤ u64_max) × IsPrevious b.open_cohort b.generation
StateFits (half_open true) b = IsPrevious b.open_cohort b.generation
StateFits (half_open false) b = ⊥

-- Failures stay below the threshold, a cohort is kept exactly while the breaker is not closed and
-- names the round before, a half-open breaker has its probe under way, and words stay in range.
abbrev pub IsValid : Breaker → Type 0
IsValid b = (b.generation ≤ u64_max) × StateFits b.state b

-- A call on one breaker, with its ticket and its clock.
pub data Event : Type 0 where
  admits : ℕ → Event
  succeeds : AdmissionTicket → Event
  fails : AdmissionTicket → ℕ → Event
  retries : AdmissionTicket → ℕ → ℕ → Event
  fails_with : AdmissionTicket → ℕ → Option ℕ → Event

unfoldable pub step : Breaker → Event → Breaker
step b (admits now) = (admit b now).0
step b (succeeds t) = on_success b t
step b (fails t now) = on_failure b t now
step b (retries t now ms) = on_retry_after b t now ms
step b (fails_with t now ms) = on_failure_with_retry_after b t now ms

unfoldable pub run : Breaker → List Event → Breaker
run b [] = b
run b (e ∷ es) = run (step b e) es

new-IsValid : (class : CredentialClass) (issuer : ℕ) → IsValid (new class issuer)
unfolding new
new-IsValid class issuer = ground arith

clone-IsValid : (b : Breaker) (issuer : ℕ) → IsValid b → IsValid (clone b issuer)
unfolding clone
clone-IsValid b issuer v = ground arith

admit-IsValid : (b : Breaker) (now : ℕ) → IsValid b → IsValid (admit b now).0
unfolding admit
admit-IsValid b now v = ground arith

on_success-IsValid : (b : Breaker) (t : AdmissionTicket) → IsValid b → IsValid (on_success b t)
unfolding on_success
on_success-IsValid b t v = ground arith

on_failure-IsValid :
    (b : Breaker) (t : AdmissionTicket) (now : ℕ) → IsValid b → IsValid (on_failure b t now)
unfolding on_failure
on_failure-IsValid b t now v = ground arith

on_retry_after-IsValid :
    (b : Breaker) (t : AdmissionTicket) (now ms : ℕ)
    → IsValid b
    → IsValid (on_retry_after b t now ms)
unfolding on_retry_after
on_retry_after-IsValid b t now ms v = ground arith

fails_with-IsValid :
    (b : Breaker) (t : AdmissionTicket) (now : ℕ) (ms : Option ℕ)
    → IsValid b
    → IsValid (on_failure_with_retry_after b t now ms)
unfolding on_failure_with_retry_after
fails_with-IsValid b t now none v = on_failure-IsValid b t now v
fails_with-IsValid b t now (some ms) v =
    on_retry_after-IsValid (on_failure b t now) t now ms (on_failure-IsValid b t now v)

step-IsValid : (b : Breaker) (e : Event) → IsValid b → IsValid (step b e)
unfolding step
step-IsValid b (admits now) v = admit-IsValid b now v
step-IsValid b (succeeds t) v = on_success-IsValid b t v
step-IsValid b (fails t now) v = on_failure-IsValid b t now v
step-IsValid b (retries t now ms) v = on_retry_after-IsValid b t now ms v
step-IsValid b (fails_with t now ms) v = fails_with-IsValid b t now ms v

run-IsValid : (b : Breaker) (es : List Event) → IsValid b → IsValid (run b es)
unfolding run
run-IsValid b [] v = v
run-IsValid b (e ∷ es) v = run-IsValid (step b e) es (step-IsValid b e v)

-- After any history of calls on a new breaker, with any tickets and any clock readings, and also
-- on a clone taken at its end, the breaker is valid: a closed breaker has counted fewer failures
-- than its threshold and keeps no cohort, an open or half-open one keeps the round before the
-- current one as its cohort, a half-open one has its probe under way, and the round and the end of
-- a window are in the range of `u64`.
pub history-IsValid :
    (class : CredentialClass) (issuer copy : ℕ) (es : List Event)
    → IsValid (run (new class issuer) es) × IsValid (clone (run (new class issuer) es) copy)
history-IsValid class issuer copy es =
    let v = run-IsValid (new class issuer) es (new-IsValid class issuer) in
    (v, clone-IsValid (run (new class issuer) es) copy v)
