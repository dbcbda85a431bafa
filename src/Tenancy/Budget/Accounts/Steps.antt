-- ===== src/Tenancy/Budget/Accounts/Steps.antt =====
-- crates/idoris-tenancy/src/budget/ledger.rs: every operation keeps the totals of spending equal to
-- what the settled reservations have cost.
use i_doris.Prelude.{
  ◌≡◌, refl, sym, ◌∙◌, Bool, true, false, Option, [], ◌∷◌, ◌++◌, map, if◌then◌else◌, any, ap,
}
use i_doris.Prelude.Equality.{Text}
use i_doris.Prelude.Int.{ℤ, pos, ◌+ℤ◌}
use i_doris.Prelude.Results.{ok}
use i_doris.Tenancy.Budget.Types.{
  ReservationStatus, active, settled, released, expired, is_active, SettleReceipt,
}
use i_doris.Tenancy.Budget.Keys.{scope_equality}
use i_doris.Prelude.Equality.{text_equality}
use i_doris.Tenancy.Budget.Store.{
  Store, Reservation, Answered, spent_for, tenant_spent_for, in_scope_period, in_tenant_period,
  has_id, update_rows,
}
use i_doris.Tenancy.Budget.Store.Rows.{
  Keeps, Keeps-if, map-IsDistinct, append-IsDistinct, find_reservation-Found,
}
use i_doris.Tenancy.Budget.Accounts.{
  IsBalanced, cost_of, cost_if_settled, charged-map, charged-append, charged-update_rows,
  in_scope_period-Stable, in_tenant_period-Stable,
}
use i_doris.Tenancy.Budget.Settle.{Settlement, settled_row, lateness}
use i_doris.Tenancy.Budget.Settle.Endings.{Charge}
use i_doris.Tenancy.Budget.Settle.Charges.{Charge-Charges, settled_row-Keeps}

-- Operations that touch neither the reservations nor the totals.
pub same-IsBalanced :
    (s s' : Store)
    → s'.reservations ≡ s.reservations
    → s'.budget_periods ≡ s.budget_periods
    → s'.tenant_periods ≡ s.tenant_periods
    → IsBalanced s
    → IsBalanced s'
unfolding spent_for tenant_spent_for
same-IsBalanced s s' r b t h = record {
  distinct = rw r h.distinct;
  scope_totals = λ scope period. rw (b, r) (h.scope_totals scope period);
  tenant_totals = λ tenant_id period. rw (t, r) (h.tenant_totals tenant_id period);
}

-- Changes of the reservations that move no cost.
pub map-IsBalanced :
    (s : Store) (change : Reservation → Reservation)
    → Keeps change
    → ((row : Reservation) → cost_of (change row) ≡ cost_of row)
    → IsBalanced s
    → IsBalanced (record s { reservations = map change s.reservations })
unfolding spent_for tenant_spent_for
map-IsBalanced s change k same h = record {
  distinct = map-IsDistinct k s.reservations h.distinct;
  scope_totals = λ scope period.
      h.scope_totals scope period
      ∙ sym (
          charged-map (in_scope_period scope period) (in_scope_period-Stable scope period) k same
            s.reservations);
  tenant_totals = λ tenant_id period.
      h.tenant_totals tenant_id period
      ∙ sym (
          charged-map (in_tenant_period tenant_id period) (in_tenant_period-Stable tenant_id period)
            k same s.reservations);
}

pub insert-IsBalanced :
    (s : Store) (row : Reservation)
    → cost_of row ≡ pos 0
    → any (has_id row.id) s.reservations ≡ false
    → IsBalanced s
    → IsBalanced (record s { reservations = s.reservations ++ row ∷ [] })
unfolding spent_for tenant_spent_for
insert-IsBalanced s row z f h = record {
  distinct = append-IsDistinct s.reservations row f h.distinct;
  scope_totals = λ scope period.
      h.scope_totals scope period
      ∙ sym (charged-append (in_scope_period scope period) s.reservations row z);
  tenant_totals = λ tenant_id period.
      h.tenant_totals tenant_id period
      ∙ sym (charged-append (in_tenant_period tenant_id period) s.reservations row z);
}

-- Active reservations that expire have cost nothing, before and after.
expire_cost :
    (b : Bool) (row : Reservation)
    → (b ≡ true → is_active row.status ≡ true)
    → cost_of (if b then record row { status = expired } else row) ≡ cost_of row
expire_cost false row h = refl
expire_cost true row h = none_yet row.status row.actual_cost_minor (h refl)
  where
    none_yet :
        (status : ReservationStatus) (cost : Option ℤ)
        → is_active status ≡ true
        → pos 0 ≡ cost_if_settled status cost
    none_yet active cost e = refl
    none_yet settled cost e = cc
    none_yet released cost e = refl
    none_yet expired cost e = refl

pub expire-IsBalanced :
    (s : Store) (p : Reservation → Bool)
    → ((row : Reservation) → p row ≡ true → is_active row.status ≡ true)
    → IsBalanced s
    → IsBalanced (record s {
      reservations =
          map (λ row. if p row then record row { status = expired } else row) s.reservations;
    })
expire-IsBalanced s p h =
    map-IsBalanced s (λ row. if p row then record row { status = expired } else row)
      (Keeps-if p (record {
        id = λ row. refl;
        scope = λ row. refl;
        period = λ row. refl;
        tenant_period = λ row. refl;
      }))
      (λ row. expire_cost (p row) row (h row))

-- A reservation that can be settled has cost nothing yet.
lateness_cost :
    (id : Text) (row : Reservation) (now : ℤ) (status : ReservationStatus) (cost : Option ℤ)
    {b : Bool}
    → lateness id row now status ≡ ok b
    → cost_if_settled status cost ≡ pos 0
lateness_cost id row now active cost h = refl
lateness_cost id row now expired cost h = refl
lateness_cost id row now released cost h = refl
lateness_cost id row now settled cost h = cc

pub Charge-IsBalanced :
    (s : Store) (c : Settlement) {answer : Answered SettleReceipt}
    → Charge s c answer
    → IsBalanced s
    → IsBalanced answer.0
Charge-IsBalanced s c {answer} e h =
    let row = e.row in
    let own = find_reservation-Found s c.tenant_id c.reservation_id e.found in
    let done = Charge-Charges s c answer e in
    let zero =
      lateness_cost c.reservation_id row c.now_ms row.status row.actual_cost_minor e.timely in
    let keeps = settled_row-Keeps c.actual_cost_minor in
    let rows : answer.0.reservations
        ≡ update_rows row.id (settled_row c.actual_cost_minor) s.reservations =
      rw (e.is_end, own.id) refl in
    record {
      distinct =
          rw rows (map-IsDistinct (Keeps-if (has_id row.id) keeps) s.reservations h.distinct);
      scope_totals = λ scope period.
          let p = in_scope_period scope period in
          let added = λ (t : ℤ). t +ℤ (if p row then c.actual_cost_minor else pos 0) in
          done.scope_totals scope period
          ∙ ap added (h.scope_totals scope period)
          ∙ rw rows (
              sym (
                charged-update_rows p (in_scope_period-Stable scope period) keeps s.reservations row
                  h.distinct own.mem zero));
      tenant_totals = λ tenant_id period.
          let p = in_tenant_period tenant_id period in
          let added = λ (t : ℤ). t +ℤ (if p row then c.actual_cost_minor else pos 0) in
          done.tenant_totals tenant_id period
          ∙ ap added (h.tenant_totals tenant_id period)
          ∙ rw rows (
              sym (
                charged-update_rows p (in_tenant_period-Stable tenant_id period) keeps
                  s.reservations row h.distinct own.mem zero));
    }
