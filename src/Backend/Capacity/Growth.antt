-- ===== src/Backend/Capacity/Growth.antt =====
-- What an admission grants, and that admissions never take the ledger beyond its budget.
use i_doris.Prelude.{
  ℕ, ◌+◌, ◌-◌, ◌≤◌, ◌≡◌, ◌≢◌, refl, sym, Bool, true, false, not, ◌&&◌, Option, none, some, arith,
  Bool-cases, inl, inr, ◌⊎◌, ltb, checked_add_u128,
}
use i_doris.Prelude.Equality.{Text}
use i_doris.Prelude.Float.{F64, f64_eq}
use i_doris.Prelude.Results.{Result, ok, >>=-eq-ok}
use i_doris.Backend.Error.{BackendError, oom, invalid_request}
use i_doris.Backend.Capacity.Units.{up, to_capacity_units}
use i_doris.Backend.Capacity.{
  CapacityAllocation, Ledger, get, insert, exact_total_units, ok_or, require, check_admission,
  is_blank, is_zero_gb, reserve_new, reserve_entry, reserve_with_headroom,
}
use i_doris.Backend.Capacity.Totals.{
  sum_units, exact_total_units-sum, sum-insert, get-insert, get-insert_ne,
}

pub ok_or-ok {ℓ} :
    {A : Type ℓ} (o : Option A) (e : BackendError) {a : A} → ok_or o e ≡ ok a → o ≡ some a
ok_or-ok none e h = cc
ok_or-ok (some b) e h = cc

pub require-ok : (b : Bool) (e : BackendError) → require b e ≡ ok tt → b ≡ true
require-ok true e h = refl
require-ok false e h = cc

pub ok_ledger : {l k : Ledger} → ◌≡◌ {A = Result BackendError Ledger} (ok l) (ok k) → l ≡ k
ok_ledger h = cc

-- The sum of what is charged.
abbrev pub charged : Ledger → ℕ
charged l = sum_units l.allocations

pub check_admission-ok :
    (l : Ledger) (key : Text) (total : ℕ) (allow : Bool)
    → check_admission l key total allow ≡ ok tt
    → (total ≤ l.budget_units + l.admission_epsilon_units)
      × ((allow ≡ true) ⊎ (total ≤ l.budget_units - l.headroom_units + l.admission_epsilon_units))
unfolding check_admission
check_admission-ok l key total allow h = ground arith

-- A new allocation: what it charges, and the room that it found.
pub record Granted (l l' : Ledger) (key : Text) (gb : F64) (units : ℕ) (allow : Bool) : Type 0 where
  pub absent : get key l.allocations ≡ none
  pub held : get key l'.allocations ≡ some (record { requested_gb = gb; charged_units = units })
  pub charges : charged l' ≡ charged l + units
  pub fits : charged l' ≤ l.budget_units + l.admission_epsilon_units
  pub spares_headroom :
      (allow ≡ true) ⊎ (charged l' ≤ l.budget_units - l.headroom_units + l.admission_epsilon_units)
  pub result : l' ≡ record l {
    allocations = insert key (record { requested_gb = gb; charged_units = units }) l.allocations;
  }
  pub others : (j : Text) → key ≢ j → get j l'.allocations ≡ get j l.allocations

reserve_new-Granted :
    (l l' : Ledger) (key : Text) (gb : F64) (allow : Bool) (units : ℕ)
    → get key l.allocations ≡ none
    → reserve_new l key gb allow units ≡ ok l'
    → Granted l l' key gb units allow
unfolding reserve_new
reserve_new-Granted l l' key gb allow units absent h =
    let (r, a, h₁) = >>=-eq-ok (ok_or (exact_total_units l.allocations) (oom key)) _ h in
    let (t, b, h₂) = >>=-eq-ok (ok_or (checked_add_u128 r units) (oom key)) _ h₁ in
    let (u, c, h₃) =
      >>=-eq-ok (require (not (is_zero_gb l.budget_gb && ltb 0 units)) (oom key)) _ h₂ in
    let (v, d, h₄) = >>=-eq-ok (check_admission l key t allow) _ h₃ in
    let entry : CapacityAllocation = record { requested_gb = gb; charged_units = units } in
    let sum = exact_total_units-sum l.allocations r (ok_or-ok _ _ a) in
    let total = checked_sum r units t (ok_or-ok _ _ b) in
    let grown = sum-insert key entry l.allocations in
    let same = rw absent at grown in
    let fits = check_admission-ok l key t allow d in
    rw (← ok_ledger h₄) (record {
      absent = absent;
      held = get-insert key entry l.allocations;
      charges = omega (arith, same);
      fits = omega (arith, same, sum, total, fits.0);
      spares_headroom = within fits.1 (omega (arith, same, sum, total));
      result = refl;
      others = λ j n. get-insert_ne key j entry l.allocations n;
    })
  where
    checked_sum : (x y z : ℕ) → checked_add_u128 x y ≡ some z → z ≡ x + y
    checked_sum x y z h = ground arith

    within : {A : Type 0} {x y z : ℕ} → A ⊎ (x ≤ z) → y ≡ x → A ⊎ (y ≤ z)
    within (inl a) e = inl a
    within (inr b) e = inr (rw e b)

abbrev pub Reserves : Ledger → Ledger → Text → F64 → Bool → Type 0
Reserves l l' key gb allow =
    ((existing : CapacityAllocation) × (get key l.allocations ≡ some existing)
      × (f64_eq existing.requested_gb gb ≡ true)
      × (l' ≡ l))
    ⊎ ((units : ℕ) × (to_capacity_units gb up ≡ ok units) × Granted l l' key gb units allow)

-- A reservation that succeeds either finds the same amount already held under its key, and changes
-- nothing, or charges the amount, rounded up, to a key without an allocation: then the total fits
-- into the budget and its tolerance, leaves the headroom free unless the request may use it, and
-- no other allocation changes.
pub reserve_with_headroom-Granted :
    (l l' : Ledger) (key : Text) (gb : F64) (allow : Bool)
    → reserve_with_headroom l key gb allow ≡ ok l'
    → Reserves l l' key gb allow
unfolding reserve_with_headroom
reserve_with_headroom-Granted l l' key gb allow h =
    let (units, a, h₁) = >>=-eq-ok (to_capacity_units gb up) _ h in
    let (u, b, h₂) = >>=-eq-ok (require (not (is_blank key)) invalid_request) _ h₁ in
    by_entry units a (get key l.allocations) refl h₂
  where
    by_entry :
        (units : ℕ)
        → to_capacity_units gb up ≡ ok units
        → (o : Option CapacityAllocation) → get key l.allocations ≡ o
        → reserve_entry l key gb allow units o ≡ ok l'
        → Reserves l l' key gb allow
    by_entry units a none e k = inr (units, a, reserve_new-Granted l l' key gb allow units e k)
    by_entry units a (some existing) e k = elim (Bool-cases (f64_eq existing.requested_gb gb)) [
      | inl same ↦ inl (existing, e, same, sym (ok_ledger (rw same at k)))
      | inr other ↦ cc (rw other at k)
    ]
