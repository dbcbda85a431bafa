-- ===== src/Policy/Breaker/Window.antt =====
-- Open windows: how a breaker trips, what it refuses, and how it recovers.
use i_doris.Prelude.{
  ℕ, suc, ◌+◌, ◌-◌, ◌≤◌, ◌<◌, ◌≡◌, ◌≢◌, ◌⊎◌, refl, sym, ap, ◌∙◌, Bool, true, false, none, some,
  List, [], ◌∷◌, arith, length, ltb, if◌then◌else◌, Bool-cases, inl, inr, saturating_add,
}
use i_doris.Policy.Breaker.{
  Breaker, State, Admission, ticket_of, closed, opened, AdmissionTicket, rejected, probe,
  failure_threshold, recovery_ms, admit, admitted, readiness, on_success, on_failure,
  on_retry_after, on_failure_with_retry_after, extends_cohort,
}
use i_doris.Policy.Breaker.Validity.{Event, admits, succeeds, fails, retries, fails_with, step, run}

abbrev pub is_probe_of : Admission → Bool
is_probe_of probe = true
is_probe_of _ = false

-- `readiness` answers what `admit` would. A request that is let through gets the ticket of the
-- breaker's identity and round, marked as a probe exactly when the admission is one; a rejected
-- request gets no ticket and changes nothing.
pub readiness-admit :
    (b : Breaker) (now : ℕ)
    → let (b', a) = admit b now in
      (readiness b now ≡ a.admission)
      × (a.ticket ≡ (if admitted a.admission then ticket_of b' (is_probe_of a.admission) else none))
      × ((admitted a.admission ≡ true) ⊎ (b' ≡ b))
unfolding readiness admit
readiness-admit b now = ground arith

-- Every admission of the history is asked before `until`.
abbrev AskedBefore : ℕ → List Event → Type 0
AskedBefore until [] = Unit {0}
AskedBefore until (admits now ∷ es) = (now < until) × AskedBefore until es
AskedBefore until (e ∷ es) = AskedBefore until es

abbrev OpenUntil : State → ℕ → Type 0
OpenUntil (opened u) until = until ≤ u
OpenUntil _ until = ⊥

on_retry_after-OpenUntil :
    (until : ℕ) (b : Breaker) (t : AdmissionTicket) (now ms : ℕ)
    → OpenUntil b.state until
    → OpenUntil (on_retry_after b t now ms).state until
unfolding on_retry_after
on_retry_after-OpenUntil until b t now ms o = ground arith

on_failure-OpenUntil :
    (until : ℕ) (b : Breaker) (t : AdmissionTicket) (now : ℕ)
    → OpenUntil b.state until
    → OpenUntil (on_failure b t now).state until
unfolding on_failure
on_failure-OpenUntil until b t now o = ground arith

step-OpenUntil :
    (until : ℕ) (b : Breaker) (e : Event)
    → AskedBefore until (e ∷ [])
    → OpenUntil b.state until
    → OpenUntil (step b e).state until
unfolding step admit on_success
step-OpenUntil until b (admits now) a o = ground arith
step-OpenUntil until b (succeeds t) a o = ground arith
step-OpenUntil until b (fails t now) a o = on_failure-OpenUntil until b t now o
step-OpenUntil until b (retries t now ms) a o = on_retry_after-OpenUntil until b t now ms o
step-OpenUntil until b (fails_with t now none) a o =
    unfold on_failure_with_retry_after in on_failure-OpenUntil until b t now o
step-OpenUntil until b (fails_with t now (some ms)) a o =
    unfold on_failure_with_retry_after in
    on_retry_after-OpenUntil until (on_failure b t now) t now ms
      (on_failure-OpenUntil until b t now o)

run-OpenUntil :
    (until : ℕ) (b : Breaker) (es : List Event)
    → AskedBefore until es
    → OpenUntil b.state until
    → OpenUntil (run b es).state until
unfolding run
run-OpenUntil until b [] a o = o
run-OpenUntil until b (admits now ∷ es) a o =
    run-OpenUntil until (step b (admits now)) es a.1
      (step-OpenUntil until b (admits now) (a.0, tt) o)
run-OpenUntil until b (succeeds t ∷ es) a o =
    run-OpenUntil until (step b (succeeds t)) es a (step-OpenUntil until b (succeeds t) tt o)
run-OpenUntil until b (fails t now ∷ es) a o =
    run-OpenUntil until (step b (fails t now)) es a (step-OpenUntil until b (fails t now) tt o)
run-OpenUntil until b (retries t now ms ∷ es) a o =
    run-OpenUntil until (step b (retries t now ms)) es a
      (step-OpenUntil until b (retries t now ms) tt o)
run-OpenUntil until b (fails_with t now ms ∷ es) a o =
    run-OpenUntil until (step b (fails_with t now ms)) es a
      (step-OpenUntil until b (fails_with t now ms) tt o)

opened_rejects :
    (until now : ℕ) (b : Breaker)
    → OpenUntil b.state until
    → now < until
    → (u : ℕ) × (until ≤ u)
      × (b.state ≡ opened u)
      × ((admit b now).1.admission ≡ rejected (u - now))
unfolding admit
opened_rejects until now b o h = ground arith

-- While a breaker is open until `until`, no history of reports, whatever their tickets, and of
-- admissions asked before `until` closes it or shortens the window: it stays open, to an end that
-- is not earlier, and a request at any `now` before `until` is still rejected, with the remaining
-- time to that end.
pub open_window_holds :
    (b : Breaker) (until now : ℕ) (es : List Event)
    → b.state ≡ opened until
    → AskedBefore until es
    → now < until
    → (u : ℕ) × (until ≤ u)
      × ((run b es).state ≡ opened u)
      × ((admit (run b es) now).1.admission ≡ rejected (u - now))
open_window_holds b until now es s a h =
    opened_rejects until now (run b es) (run-OpenUntil until b es a (rw s (omega arith))) h

-- Failures reported one after the other, each with its own ticket and clock reading.
pub fail_all : Breaker → List (AdmissionTicket × ℕ) → Breaker
fail_all b [] = b
fail_all b ((t, now) ∷ ts) = fail_all (on_failure b t now) ts

-- The tickets are of the breaker's current round.
abbrev pub AllCurrent : Breaker → List (AdmissionTicket × ℕ) → Type 0
AllCurrent b [] = Unit {0}
AllCurrent b ((t, now) ∷ ts) =
    (t.issuer ≡ b.issuer) × (t.generation ≡ b.generation) × AllCurrent b ts

abbrev pub last_now : List (AdmissionTicket × ℕ) → ℕ
last_now [] = 0
last_now ((t, now) ∷ []) = now
last_now ((t, now) ∷ x ∷ ts) = last_now (x ∷ ts)

AllCurrent-same :
    (b b' : Breaker) (ts : List (AdmissionTicket × ℕ))
    → b'.issuer ≡ b.issuer
    → b'.generation ≡ b.generation
    → AllCurrent b ts
    → AllCurrent b' ts
AllCurrent-same b b' [] p q c = tt
AllCurrent-same b b' ((t, now) ∷ ts) p q c =
    (c.0 ∙ sym p, c.1 ∙ sym q, AllCurrent-same b b' ts p q c.2)

-- One counted failure below the threshold, and the one that reaches it.
on_failure_counted :
    (b : Breaker) (t : AdmissionTicket) (now f : ℕ)
    → b.state ≡ closed f
    → t.issuer ≡ b.issuer
    → t.generation ≡ b.generation
    → f + 1 < failure_threshold b.class
    → on_failure b t now ≡ record b { state = closed (f + 1) }
unfolding on_failure
on_failure_counted b t now f s p q h = ground arith

on_failure_trips :
    (b : Breaker) (t : AdmissionTicket) (now f : ℕ)
    → b.state ≡ closed f
    → t.issuer ≡ b.issuer
    → t.generation ≡ b.generation
    → f + 1 ≡ failure_threshold b.class
    → (on_failure b t now).state ≡ opened (saturating_add now (recovery_ms b.class))
unfolding on_failure
on_failure_trips b t now f s p q h = ground arith

fail_all_below :
    (b : Breaker) (f : ℕ) (ts : List (AdmissionTicket × ℕ))
    → b.state ≡ closed f
    → AllCurrent b ts
    → f + length ts < failure_threshold b.class
    → fail_all b ts ≡ record b { state = closed (f + length ts) }
unfolding fail_all
fail_all_below b f [] s c h = ground arith
fail_all_below b f ((t, now) ∷ ts) s c h =
    let e = on_failure_counted b t now f s c.0 c.1 (omega arith) in
    let b' : Breaker = record b { state = closed (f + 1) } in
    rw (e, fail_all)
      (fail_all_below b' (f + 1) ts refl (AllCurrent-same b b' ts refl refl c.2) (omega arith)
        ∙ ap (λ n. record b { state = closed n }) (omega arith))

fail_all_reaches :
    (b : Breaker) (f : ℕ) (t : AdmissionTicket) (now : ℕ) (ts : List (AdmissionTicket × ℕ))
    → b.state ≡ closed f
    → AllCurrent b ((t, now) ∷ ts)
    → f + suc (length ts) ≡ failure_threshold b.class
    → (fail_all b ((t, now) ∷ ts)).state
      ≡ opened (saturating_add (last_now ((t, now) ∷ ts)) (recovery_ms b.class))
unfolding fail_all
fail_all_reaches b f t now [] s c h = on_failure_trips b t now f s c.0 c.1 (omega arith)
fail_all_reaches b f t now ((u, later) ∷ ts) s c h =
    let e = on_failure_counted b t now f s c.0 c.1 (omega arith) in
    let b' : Breaker = record b { state = closed (f + 1) } in
    rw (e, fail_all)
      (fail_all_reaches b' (f + 1) u later ts refl
        (AllCurrent-same b b' ((u, later) ∷ ts) refl refl c.2) (omega arith))

threshold_positive : (b : Breaker) → 0 < failure_threshold b.class
threshold_positive b = ground arith

-- A closed breaker with no counted failure stays closed under fewer reported failures of its
-- current round than its class's threshold, and counts them; the failure that reaches the
-- threshold opens it for the class's recovery time from that report, saturating at `u64::MAX`.
pub threshold_opens :
    (b : Breaker) (ts : List (AdmissionTicket × ℕ))
    → b.state ≡ closed 0
    → AllCurrent b ts
    → length ts ≤ failure_threshold b.class
    → (fail_all b ts).state ≡ (
        if ltb (length ts) (failure_threshold b.class)
        then closed (length ts)
        else opened (saturating_add (last_now ts) (recovery_ms b.class)))
unfolding fail_all
threshold_opens b [] s c h = let positive = threshold_positive b in ground arith
threshold_opens b ((t, now) ∷ ts) s c h =
    elim (Bool-cases (ltb (suc (length ts)) (failure_threshold b.class))) [
      | inl e ↦ rw e (
          ap (λ (x : Breaker). x.state) (fail_all_below b 0 ((t, now) ∷ ts) s c (ground arith))
          ∙ ap closed (omega arith))
      | inr e ↦ rw e (fail_all_reaches b 0 t now ts s c (ground arith))
    ]

-- A breaker whose window is over lets one request through as the probe. If the probe succeeds the
-- breaker is closed with no counted failure and no cohort; if it fails the breaker is open again
-- for a full recovery time from that report; in both cases a new round begins.
pub probe_decides :
    (b : Breaker) (until now later : ℕ) (t : AdmissionTicket)
    → b.state ≡ opened until
    → until ≤ now
    → (admit b now).1.ticket ≡ some t
    → let p = (admit b now).0 in
      ((admit b now).1.admission ≡ probe)
      × ((on_success p t).state ≡ closed 0)
      × ((on_success p t).open_cohort ≡ none)
      × ((on_failure p t later).state ≡ opened (saturating_add later (recovery_ms b.class)))
      × ((on_success p t).generation ≡ saturating_add b.generation 1)
      × ((on_failure p t later).generation ≡ saturating_add b.generation 1)
unfolding admit on_success on_failure
probe_decides b until now later t s h e = ground arith

-- A report whose ticket is another breaker's, or of a round that is neither the current one nor
-- the cohort that opened the present window, changes nothing: a late success does not close the
-- breaker early, and a late failure or `Retry-After` does not open it again.
pub stale_reports_ignored :
    (b : Breaker) (t : AdmissionTicket) (now ms : ℕ)
    → (t.issuer ≢ b.issuer)
      ⊎ ((t.generation ≢ b.generation) × (extends_cohort b t.generation ≡ false))
    → (on_success b t ≡ b)
      × (on_failure b t now ≡ b)
      × (on_retry_after b t now ms ≡ b)
      × (on_failure_with_retry_after b t now (some ms) ≡ b)
unfolding on_success on_failure on_retry_after on_failure_with_retry_after
stale_reports_ignored b t now ms stale = ground arith
