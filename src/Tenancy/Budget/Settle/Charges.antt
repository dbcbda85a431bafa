-- ===== src/Tenancy/Budget/Settle/Charges.antt =====
-- crates/idoris-tenancy/src/budget/ledger.rs: what a settlement charges, and that it charges once.
use i_doris.Prelude.{
  ◌≡◌, refl, sym, ◌∙◌, Bool, true, false, some, List, inl, inr, if◌then◌else◌, Bool-cases,
}
use i_doris.Prelude.Equality.{Eq, Text, text_eq_refl, text_equality}
use i_doris.Prelude.Int.{ℤ, pos, ◌+ℤ◌}
use i_doris.Prelude.Results.{ok}
use i_doris.Tenancy.Budget.Amount.{checked_add}
use i_doris.Tenancy.Budget.Amount.Sums.{checked_add_exact, +ℤ_zero}
use i_doris.Tenancy.Budget.Types.{BudgetScope, SettleReceipt}
use i_doris.Tenancy.Budget.Keys.{
  Entry, select, upsert, period_key_eq, period_key_eq_iff, PeriodKey, scope_equality,
  period_equality, select-upsert_same, select-upsert_ne,
}
use i_doris.Tenancy.Budget.Store.{
  Store, Reservation, Answered, find_reservation, has_id, or_zero, period_key, spent_for,
  tenant_spent_for, in_scope_period, in_tenant_period,
}
use i_doris.Tenancy.Budget.Store.Rows.{
  Keeps, Keeps-if, find_reservation-map, find_reservation-Found,
}
use i_doris.Tenancy.Budget.Settle.{Settlement, settle, settled_row, booked}
use i_doris.Tenancy.Budget.Settle.Endings.{
  Charge, refused, overflowed, charged_to, settle-SettleEnd, is_charged,
}

pub settled_row-Keeps : (cost : ℤ) → Keeps (settled_row cost)
settled_row-Keeps cost = record {
  id = λ row. refl;
  scope = λ row. refl;
  period = λ row. refl;
  tenant_period = λ row. refl;
}

-- An answer that says so comes with a charge.
settle-Charge :
    (s : Store) (c : Settlement) → is_charged (settle s c).1 ≡ true → Charge s c (settle s c)
settle-Charge s c h = elim (settle-SettleEnd s c) [
  | refused e z q ↦ absurd (cc)
  | overflowed p q ↦ absurd (cc)
  | charged_to charge ↦ charge
]

-- What a charge does: the row is settled at the cost, and a total grows by the cost where it is
-- that of the row's scope, or of its tenant, in the row's period, and by nothing otherwise.
pub record Charges (s s' : Store) (c : Settlement) (row : Reservation) : Type 0 where
  pub found : find_reservation s c.tenant_id c.reservation_id ≡ ok row
  pub row_settled :
      find_reservation s' c.tenant_id c.reservation_id ≡ ok (settled_row c.actual_cost_minor row)
  pub scope_totals :
      (scope : BudgetScope) (period : Text)
      → spent_for s' scope period
        ≡ spent_for s scope period
          +ℤ (if in_scope_period scope period row then c.actual_cost_minor else pos 0)
  pub tenant_totals :
      (tenant_id period : Text)
      → tenant_spent_for s' tenant_id period
        ≡ tenant_spent_for s tenant_id period
          +ℤ (if in_tenant_period tenant_id period row then c.actual_cost_minor else pos 0)

clash : (b : Bool) → b ≡ true → ¬ (b ≡ false)
clash b h k = cc

-- A total after it is written under one key, as seen under any key.
moved :
    {Account : Type 0} ⦃e : Eq Account⦄ (j k : PeriodKey Account) (sum cost : ℤ)
    (table : List (Entry (PeriodKey Account) ℤ))
    → checked_add (or_zero (select j table)) cost ≡ some sum
    → or_zero (select k (upsert j sum table))
      ≡ or_zero (select k table) +ℤ (if period_key_eq j k then cost else pos 0)
moved j k sum cost table h = elim (Bool-cases (period_key_eq j k)) [
  | inl t ↦
      let same = (period_key_eq_iff j k).0 t in
      rw (t, ← same, select-upsert_same j sum table)
        (checked_add_exact (or_zero (select j table)) cost h).0
  | inr f ↦
      rw
        (
          f,
          select-upsert_ne k j sum table
              (λ q. clash (period_key_eq j k) ((period_key_eq_iff j k).1 (sym q)) f),
        )
        (sym (+ℤ_zero (or_zero (select k table))))
]

pub Charge-Charges :
    (s : Store) (c : Settlement) (answer : Answered SettleReceipt) (e : Charge s c answer)
    → Charges s answer.0 c e.row
unfolding spent_for tenant_spent_for
Charge-Charges s c answer e =
    let row = e.row in
    let own = find_reservation-Found s c.tenant_id c.reservation_id e.found in
    let s' = booked s c row e.scope_total e.tenant_total e.events in
    let kept = Keeps-if (has_id c.reservation_id) (settled_row-Keeps c.actual_cost_minor) in
    rw e.is_end (record {
      found = e.found;
      row_settled =
          find_reservation-map s s' c.tenant_id c.reservation_id kept refl
          ∙ rw (e.found, own.id, text_eq_refl c.reservation_id) refl;
      scope_totals = λ scope period.
          moved (period_key row.scope row.period) (period_key scope period) e.scope_total
            c.actual_cost_minor s.budget_periods e.scope_sum;
      tenant_totals = λ tenant_id period. rw own.tenant (
          moved (period_key c.tenant_id row.tenant_period) (period_key tenant_id period)
            e.tenant_total c.actual_cost_minor s.tenant_periods e.tenant_sum);
    })

-- A settlement that answers with a receipt, or that its cost is more than four times what was
-- reserved, has charged exactly the cost: to the row, to the total of its scope and to that of its
-- tenant, each in the period the reservation was made in, and to no other total.
pub settle-Charges :
    (s : Store) (c : Settlement)
    → is_charged (settle s c).1 ≡ true
    → (row : Reservation) × Charges s (settle s c).0 c row
settle-Charges s c h =
    let charge = settle-Charge s c h in (charge.row, Charge-Charges s c (settle s c) charge)
