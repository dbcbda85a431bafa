-- ===== src/Backend/Capacity/Exchanges.antt =====
-- Exchanges of one allocation.
use i_doris.Prelude.{
  ℕ, ◌+◌, ◌≤◌, ◌≡◌, refl, Bool, true, false, not, Option, some, arith, Bool-cases, inl, inr, ◌⊎◌,
  ltb, checked_add_u128,
}
use i_doris.Prelude.Equality.{Text}
use i_doris.Prelude.Results.{ok, >>=-eq-ok}
use i_doris.Backend.Error.{oom, invariant_violation, invalid_request}
use i_doris.Backend.Capacity.{
  CapacityAllocation, Ledger, get, exact_total_units, ok_or, require, is_blank, is_zero_gb,
  ExpectedAllocation, matches, units_of, checked_sub, check_planned, check_growth, set,
  replace_allocation,
}
use i_doris.Backend.Capacity.Totals.{exact_total_units-sum, sum-set}
use i_doris.Backend.Capacity.Growth.{ok_or-ok, require-ok, ok_ledger, charged, check_admission-ok}

-- An exchange of one allocation that found what it expected.
pub record Exchanged (l l' : Ledger) (key : Text) (expected : ExpectedAllocation)
    (next : Option CapacityAllocation) (enforce : Bool) : Type 0 where
  pub found : matches expected (get key l.allocations) ≡ true
  pub result : l' ≡ record l { allocations = set key next l.allocations }
  pub balance : charged l' + units_of (get key l.allocations) ≡ charged l + units_of next
  pub admitted :
      (enforce ≡ false)
      ⊎ (units_of next ≤ units_of (get key l.allocations))
      ⊎ (charged l' ≤ l.budget_units + l.admission_epsilon_units)

check_growth-ok :
    (l : Ledger) (key : Text) (enforce : Bool) (c n total : ℕ) (allow : Bool)
    → check_growth l key enforce c n total allow ≡ ok tt
    → (enforce ≡ false) ⊎ (n ≤ c) ⊎ (total ≤ l.budget_units + l.admission_epsilon_units)
unfolding check_growth
check_growth-ok l key false c n total allow h = inl refl
check_growth-ok l key true c n total allow h = elim (Bool-cases (ltb c n)) [
  | inl e ↦
      let (u, a, b) = >>=-eq-ok (require (not (is_zero_gb l.budget_gb)) (oom key)) _ (rw e at h) in
      inr (inr (check_admission-ok l key total allow b).0)
  | inr e ↦ inr (inl (ground arith))
]

checked_sum : (x y z : ℕ) → checked_add_u128 x y ≡ some z → z ≡ x + y
checked_sum x y z h = ground arith

checked_difference : (x y z : ℕ) → checked_sub x y ≡ some z → z + y ≡ x
checked_difference x y z h = ground arith

within : {A B : Type 0} {x y z : ℕ} → A ⊎ B ⊎ (x ≤ z) → y ≡ x → A ⊎ B ⊎ (y ≤ z)
within (inl a) e = inl a
within (inr (inl b)) e = inr (inl b)
within (inr (inr c)) e = inr (inr (rw e c))

-- An exchange that succeeds found the expected allocation, changes that one only, moves the total
-- by the difference, and, where growth must be admitted and there is growth, ends within the
-- budget and its tolerance.
pub replace_allocation-Exchanged :
    (l l' : Ledger) (key : Text) (expected : ExpectedAllocation) (next : Option CapacityAllocation)
    (enforce : Bool) (planned : Option ℕ) (allow : Bool)
    → replace_allocation l key expected next enforce planned allow ≡ ok l'
    → Exchanged l l' key expected next enforce
unfolding replace_allocation
replace_allocation-Exchanged l l' key expected next enforce planned allow h =
    let current = get key l.allocations in
    let (u, a, h₁) = >>=-eq-ok (require (not (is_blank key)) invalid_request) _ h in
    let (v, b, h₂) = >>=-eq-ok (require (matches expected current) invariant_violation) _ h₁ in
    let (t, c, h₃) = >>=-eq-ok (ok_or (exact_total_units l.allocations) invariant_violation) _ h₂ in
    let (o, d, h₄) =
      >>=-eq-ok (ok_or (checked_sub t (units_of current)) invariant_violation) _ h₃ in
    let (r, e, h₅) =
      >>=-eq-ok (ok_or (checked_add_u128 o (units_of next)) invariant_violation) _ h₄ in
    let (w, f, h₆) = >>=-eq-ok (check_planned l key o planned allow) _ h₅ in
    let (x, g, h₇) =
      >>=-eq-ok (check_growth l key enforce (units_of current) (units_of next) r allow) _ h₆ in
    let sum = exact_total_units-sum l.allocations t (ok_or-ok _ _ c) in
    let rest = checked_difference t (units_of current) o (ok_or-ok _ _ d) in
    let total = checked_sum o (units_of next) r (ok_or-ok _ _ e) in
    let moved = sum-set key next l.allocations in
    rw (← ok_ledger h₇) (record {
      found = require-ok _ _ b;
      result = refl;
      balance = moved;
      admitted =
          within (check_growth-ok l key enforce (units_of current) (units_of next) r allow g)
            (omega (arith, sum, rest, total, moved));
    })
