-- ===== src/Policy/Breaker/Examples.antt =====
-- Runs of a breaker and of a book at concrete tickets and clock readings.
use i_doris.Prelude.{
  ℕ, ◌-◌, ◌≤◌, ◌≡◌, refl, Bool, true, false, none, some, List, [], ◌∷◌, arith, saturating_add,
}
use i_doris.Prelude.Equality.{nat_eq}
use i_doris.Policy.Breaker.{
  Breaker, o_auth, closed, opened, half_open, AdmissionTicket, probe, rejected, recovery_ms, new,
  clone, admit, on_success, on_failure,
}
use i_doris.Policy.Breaker.Validity.{IsValid, admits, succeeds, fails, run, history-IsValid}
use i_doris.Policy.Breaker.Window.{open_window_holds, probe_decides}
use i_doris.Policy.Breaker.Probe.{single_probe}

abbrev ticket : ℕ → Bool → AdmissionTicket
ticket generation is_probe = record { issuer = 7; generation = generation; is_probe = is_probe }

abbrev foreign : AdmissionTicket
foreign = record { issuer = 8; generation = 0; is_probe = false }

abbrev tripped : Breaker
tripped = record {
  issuer = 7;
  class = o_auth;
  state = opened 60000;
  generation = 1;
  open_cohort = some 0;
}

abbrev probing : Breaker
probing = record tripped { state = half_open true }

history-IsValid_example :
    IsValid (run (new o_auth 7) (fails (ticket 0 false) 0 ∷ []))
    × IsValid (clone (run (new o_auth 7) (fails (ticket 0 false) 0 ∷ [])) 9)
history-IsValid_example = history-IsValid o_auth 7 9 (fails (ticket 0 false) 0 ∷ [])

open_window_holds_example :
    (u : ℕ) × (60000 ≤ u)
    × ((run tripped (succeeds (ticket 0 false) ∷ admits 5 ∷ [])).state ≡ opened u)
    × ((admit (run tripped (succeeds (ticket 0 false) ∷ admits 5 ∷ [])) 100).1.admission
        ≡ rejected (u - 100))
open_window_holds_example =
    open_window_holds tripped 60000 100 (succeeds (ticket 0 false) ∷ admits 5 ∷ []) refl
      (omega arith, tt) (omega arith)

abbrev three_failures : List (AdmissionTicket × ℕ)
three_failures = (ticket 0 false, 1) ∷ (ticket 0 false, 2) ∷ (ticket 0 false, 3) ∷ []

probe_decides_example :
    ((admit tripped 60000).1.admission ≡ probe)
    × ((on_success (admit tripped 60000).0 (ticket 1 true)).state ≡ closed 0)
    × ((on_success (admit tripped 60000).0 (ticket 1 true)).open_cohort ≡ none)
    × ((on_failure (admit tripped 60000).0 (ticket 1 true) 70000).state
        ≡ opened (saturating_add 70000 (recovery_ms tripped.class)))
    × ((on_success (admit tripped 60000).0 (ticket 1 true)).generation
        ≡ saturating_add tripped.generation 1)
    × ((on_failure (admit tripped 60000).0 (ticket 1 true) 70000).generation
        ≡ saturating_add tripped.generation 1)
unfolding admit
probe_decides_example =
    probe_decides tripped 60000 60000 70000 (ticket 1 true) refl (omega arith) refl

single_probe_example :
    (run probing (admits 5 ∷ fails (ticket 0 false) 6 ∷ []) ≡ probing)
    × ((admit (run probing (admits 5 ∷ fails (ticket 0 false) 6 ∷ [])) 99).1.admission ≡ rejected 0)
single_probe_example =
    single_probe probing (admits 5 ∷ fails (ticket 0 false) 6 ∷ []) 99 refl (refl, (refl, tt))
