-- ===== src/Backend/Capacity/Examples.antt =====
-- A ledger of three GB, of which one is headroom and one is reserved for `a`.
use i_doris.Prelude.{
  ℕ, ◌*◌, ◌^◌, ◌≤◌, ◌+◌, true, false, none, some, List, [], ◌∷◌, ◌≡◌, refl, arith,
}
use i_doris.Prelude.Equality.{codes}
use i_doris.Prelude.Text.{trim_matches}
use i_doris.Prelude.Int.{pos}
use i_doris.Prelude.Float.{F64, finite, decode}
use i_doris.Prelude.Results.{ok, err}
use i_doris.Backend.Error.{headroom_confirmation_required}
use i_doris.Backend.Capacity.Units.{capacity_units_per_gb, up, to_capacity_units}
use i_doris.Backend.Capacity.Units.Bounds.{IsNearest, to_capacity_units-IsNearest}
use i_doris.Backend.Capacity.{
  CapacityAllocation, Ledger, total_from, insert, check_admission, reserve_new,
  reserve_with_headroom, release, charge, check_planned, check_growth, replace_allocation,
}
use i_doris.Backend.Capacity.Growth.{charged, Reserves, reserve_with_headroom-Granted}
use i_doris.Backend.Capacity.History.{Event, reserves, releases, run, run-IsWithin, release-reserve}

abbrev one_gb : F64
one_gb = finite (pos (2 ^ 1074))

abbrev allocation : ℕ → CapacityAllocation
allocation units = record { requested_gb = one_gb; charged_units = units }

abbrev ledger : Ledger
ledger = record {
  budget_gb = finite (pos (3 * 2 ^ 1074));
  budget_units = 3000000000;
  admission_epsilon_units = 1000;
  headroom_units = 1000000000;
  allocations = (codes "a", allocation 1000000000) ∷ [];
}

abbrev with_b : Ledger
with_b = record ledger {
  allocations = (codes "a", allocation 1000000000) ∷ (codes "b", allocation 1000000000) ∷ [];
}

abbrev grown : Ledger
grown = record ledger { allocations = (codes "a", allocation 2500000000) ∷ [] }

reserved : reserve_with_headroom ledger (codes "b") one_gb false ≡ ok with_b
unfolding reserve_with_headroom reserve_new to_capacity_units total_from check_admission insert
    trim_matches
reserved = refl

needs_confirmation :
    reserve_with_headroom with_b (codes "c") one_gb false
    ≡ err (headroom_confirmation_required (codes "c"))
unfolding reserve_with_headroom reserve_new to_capacity_units total_from check_admission insert
    trim_matches
needs_confirmation = refl

exchanged :
    replace_allocation ledger
      (codes "a")
      (charge (some 1000000000))
      (some (allocation 2500000000))
      true
      none
      true
    ≡ ok grown
unfolding replace_allocation check_growth check_planned total_from check_admission insert
    trim_matches
exchanged = refl

within_budget : charged ledger ≤ 3000000000 + 1000
within_budget = omega arith

abbrev events : List Event
events = reserves (codes "b") one_gb false ∷ releases (codes "a") ∷ []

reserve_with_headroom-Granted_example : Reserves ledger with_b (codes "b") one_gb false
reserve_with_headroom-Granted_example =
    reserve_with_headroom-Granted ledger with_b (codes "b") one_gb false reserved

release-reserve_example : release with_b (codes "b") ≡ (true, ledger)
release-reserve_example = release-reserve ledger with_b (codes "b") one_gb false refl reserved

run-IsWithin_example : charged (run ledger events) ≤ 3000000000 + 1000
run-IsWithin_example = run-IsWithin ledger events within_budget

half_parts : decode (2 ^ 1073) ≡ (2 ^ 52, 1021)
unfolding decode
half_parts = refl

half_units : to_capacity_units (finite (pos (2 ^ 1073))) up ≡ ok 500000000
unfolding to_capacity_units
half_units = refl

to_capacity_units-IsNearest_example :
    IsNearest up (2 ^ 1074) (2 ^ 1073 * capacity_units_per_gb) 500000000
to_capacity_units-IsNearest_example =
    to_capacity_units-IsNearest up (2 ^ 1073) (2 ^ 52) 1021 500000000 half_parts (omega arith)
      (omega arith) half_units
