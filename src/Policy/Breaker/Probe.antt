-- ===== src/Policy/Breaker/Probe.antt =====
-- The single probe of a half-open breaker, and the rounds that make tickets stale.
use i_doris.Prelude.{
  ℕ, ◌+◌, ◌≤◌, ◌<◌, ◌≡◌, refl, ◌∙◌, Bool, true, false, ◌&&◌, Option, none, some, List, [], ◌∷◌,
  arith, u64_max,
}
use i_doris.Policy.Breaker.{
  Breaker, half_open, AdmissionTicket, rejected, admit, is_current, on_success, on_failure,
  on_retry_after, on_failure_with_retry_after,
}
use i_doris.Policy.Breaker.Validity.{Event, admits, succeeds, fails, retries, fails_with, step, run}

abbrev ticket_of_event : Event → Option AdmissionTicket
ticket_of_event (admits now) = none
ticket_of_event (succeeds t) = some t
ticket_of_event (fails t now) = some t
ticket_of_event (retries t now ms) = some t
ticket_of_event (fails_with t now ms) = some t

-- The event reports the outcome of the probe that is under way.
abbrev pub reports_probe : Breaker → Event → Bool
reports_probe b e = elim (ticket_of_event e) [
  | none ↦ false
  | some t ↦ is_current b t && t.is_probe
]

abbrev pub NoProbeReport : Breaker → List Event → Type 0
NoProbeReport b [] = Unit {0}
NoProbeReport b (e ∷ es) = (reports_probe b e ≡ false) × NoProbeReport b es

fails_with_ignored :
    (b : Breaker) (t : AdmissionTicket) (now : ℕ) (ms : Option ℕ)
    → b.state ≡ half_open true
    → (is_current b t && t.is_probe) ≡ false
    → on_failure_with_retry_after b t now ms ≡ b
unfolding on_failure_with_retry_after on_failure on_retry_after
fails_with_ignored b t now none s h = ground arith
fails_with_ignored b t now (some ms) s h = ground arith

step_ignored :
    (b : Breaker) (e : Event) → b.state ≡ half_open true → reports_probe b e ≡ false → step b e ≡ b
unfolding step admit on_success on_failure on_retry_after
step_ignored b (admits now) s h = ground arith
step_ignored b (succeeds t) s h = ground arith
step_ignored b (fails t now) s h = ground arith
step_ignored b (retries t now ms) s h = ground arith
step_ignored b (fails_with t now ms) s h = fails_with_ignored b t now ms s h

run_ignored :
    (b : Breaker) (es : List Event) → b.state ≡ half_open true → NoProbeReport b es → run b es ≡ b
unfolding run
run_ignored b [] s h = refl
run_ignored b (e ∷ es) s h = rw (step_ignored b e s h.0, run) (run_ignored b es s h.1)

admit_rejected :
    (b : Breaker) (now : ℕ) → b.state ≡ half_open true → (admit b now).1.admission ≡ rejected 0
unfolding admit
admit_rejected b now s = ground arith

-- Once the probe of a half-open breaker is under way, a history in which its outcome is not
-- reported changes nothing, whatever else is asked and whatever other tickets report: the breaker
-- is as it was and every request is rejected with no time to wait. So no second probe is let
-- through, at any time.
pub single_probe :
    (b : Breaker) (es : List Event) (now : ℕ)
    → b.state ≡ half_open true
    → NoProbeReport b es
    → (run b es ≡ b) × ((admit (run b es) now).1.admission ≡ rejected 0)
single_probe b es now s h = let e = run_ignored b es s h in (e, rw e (admit_rejected b now s))

on_failure-round :
    (b : Breaker) (t : AdmissionTicket) (now : ℕ)
    → b.generation ≤ u64_max
    → (b.generation ≤ (on_failure b t now).generation)
      × ((on_failure b t now).generation ≤ u64_max)
      × ((on_failure b t now).issuer ≡ b.issuer)
unfolding on_failure
on_failure-round b t now h = ground arith

on_retry_after-round :
    (b : Breaker) (t : AdmissionTicket) (now ms : ℕ)
    → b.generation ≤ u64_max
    → (b.generation ≤ (on_retry_after b t now ms).generation)
      × ((on_retry_after b t now ms).generation ≤ u64_max)
      × ((on_retry_after b t now ms).issuer ≡ b.issuer)
unfolding on_retry_after
on_retry_after-round b t now ms h = ground arith

-- What a round does along a call: it never goes back.
abbrev RoundAdvances : Breaker → Breaker → Type 0
RoundAdvances b b' =
    (b.generation ≤ b'.generation) × (b'.generation ≤ u64_max) × (b'.issuer ≡ b.issuer)

step-round : (b : Breaker) (e : Event) → b.generation ≤ u64_max → RoundAdvances b (step b e)
unfolding step admit on_success
step-round b (admits now) h = ground arith
step-round b (succeeds t) h = ground arith
step-round b (fails t now) h = on_failure-round b t now h
step-round b (retries t now ms) h = on_retry_after-round b t now ms h
step-round b (fails_with t now none) h =
    unfold on_failure_with_retry_after in on_failure-round b t now h
step-round b (fails_with t now (some ms)) h =
    let p = on_failure-round b t now h in
    let q = on_retry_after-round (on_failure b t now) t now ms p.1 in
    unfold on_failure_with_retry_after in (omega arith, q.1, q.2 ∙ p.2)

run-round : (b : Breaker) (es : List Event) → b.generation ≤ u64_max → RoundAdvances b (run b es)
unfolding run
run-round b [] h = (omega arith, h, refl)
run-round b (e ∷ es) h =
    let p = step-round b e h in let q = run-round (step b e) es p.1 in (omega arith, q.1, q.2 ∙ p.2)

on_success_round :
    (b : Breaker) (t : AdmissionTicket)
    → b.state ≡ half_open true
    → (is_current b t && t.is_probe) ≡ true
    → b.generation < u64_max
    → (on_success b t).generation ≡ b.generation + 1
unfolding on_success
on_success_round b t s c h = ground arith

not_current_ignored :
    (b : Breaker) (t : AdmissionTicket) (now : ℕ)
    → t.generation < b.generation
    → (on_success b t ≡ b) × (on_failure b t now ≡ b)
unfolding on_success on_failure
not_current_ignored b t now h = ground arith

-- After the probe of a half-open breaker has succeeded, no history makes a ticket of that round or
-- of an earlier one current again: a success or a failure that such a ticket reports later changes
-- nothing, at every point of every history. The counter of rounds is below its last value.
pub recovery_retires_tickets :
    (b : Breaker) (t old : AdmissionTicket) (es : List Event) (now : ℕ)
    → b.state ≡ half_open true
    → (is_current b t && t.is_probe) ≡ true
    → b.generation < u64_max
    → old.generation ≤ b.generation
    → let r = run (on_success b t) es in (on_success r old ≡ r) × (on_failure r old now ≡ r)
recovery_retires_tickets b t old es now s c h o =
    let b' : Breaker = on_success b t in
    let p = on_success_round b t s c h in
    let q = run-round b' es (omega (arith, p)) in
    not_current_ignored (run b' es) old now (omega (arith, p, q.0))
