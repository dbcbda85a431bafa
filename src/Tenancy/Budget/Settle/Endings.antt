-- ===== src/Tenancy/Budget/Settle/Endings.antt =====
-- crates/idoris-tenancy/src/budget/ledger.rs: how `settle` ends.
use i_doris.Prelude.{
  ◌≡◌, refl, Bool, true, false, Option, none, some, ◌++◌, List, [], ◌∷◌, inl, inr, Option-cases,
  any, filter, if◌then◌else◌, Bool-cases,
}
use i_doris.Prelude.Int.{ℤ, pos, ltb_ℤ}
use i_doris.Prelude.Equality.{Text}
use i_doris.Prelude.Results.{Result, ok, err, Result-cases}
use i_doris.Tenancy.Budget.Amount.{checked_add}
use i_doris.Tenancy.Budget.Types.{
  ReservationStatus, active, settled, released, expired, BudgetError, overage_too_large,
  amount_overflow, SettleReceipt, invalid_actual_cost, storage, tenant_mismatch,
  reservation_not_found,
}
use i_doris.Tenancy.Budget.Store.{
  Store, Reservation, OverageEvent, AmountOverflow, Answered, transact, reject_if, find_reservation,
  found_or, first, is_own, has_id, is_pending, reject_amount_overflow, no_overflow, spent_for,
  tenant_spent_for,
}
use i_doris.Tenancy.Budget.Settle.{
  Settlement, settle, lateness, booked, receipt, charge, retained, record_overage, overage,
  overage_event, has_event_id, has_reservation_id,
}

-- An error that comes after the charge is committed.
abbrev is_charge_error : BudgetError → Bool
is_charge_error (overage_too_large id reserved actual) = true
is_charge_error _ = false

-- The answers that say that the cost is charged.
abbrev pub is_charged : Result BudgetError SettleReceipt → Bool
is_charged (ok r) = true
is_charged (err e) = is_charge_error e

-- The charge went through: from which row, and to which totals.
pub record Charge (s : Store) (c : Settlement) (answer : Answered SettleReceipt) : Type 0 where
  pub row : Reservation
  pub is_late : Bool
  pub scope_total : ℤ
  pub tenant_total : ℤ
  pub events : List OverageEvent
  pub found : find_reservation s c.tenant_id c.reservation_id ≡ ok row
  pub timely : lateness c.reservation_id row c.now_ms row.status ≡ ok is_late
  pub no_pending : reject_amount_overflow s c.tenant_id (some c.reservation_id) ≡ ok tt
  pub scope_sum :
      checked_add (spent_for s row.scope row.period) c.actual_cost_minor ≡ some scope_total
  pub tenant_sum :
      checked_add (tenant_spent_for s c.tenant_id row.tenant_period) c.actual_cost_minor
      ≡ some tenant_total
  pub logged : record_overage c row s.overage_events ≡ ok events
  pub is_end : answer ≡ (booked s c row scope_total tenant_total events, receipt c row is_late)

abbrev pub with_overflow : Store → Settlement → Store
with_overflow s c = record s { amount_overflows = s.amount_overflows ++ retained c ∷ [] }

-- Refused with the store as it was, retained as an overflow, or charged.
pub data SettleEnd (s : Store) (c : Settlement) (answer : Answered SettleReceipt) : Type 0 where
  refused :
      (e : BudgetError) → is_charge_error e ≡ false → answer ≡ (s, err e) → SettleEnd s c answer
  overflowed :
      reject_amount_overflow s c.tenant_id (some c.reservation_id) ≡ ok tt
      → answer ≡ (with_overflow s c, err (amount_overflow c.reservation_id c.actual_cost_minor))
      → SettleEnd s c answer
  charged_to : Charge s c answer → SettleEnd s c answer

err_eq : {A B : Type 0} {e f : A} → ◌≡◌ {A = Result A B} (err e) (err f) → e ≡ f
err_eq h = cc

reject_if-err :
    (b : Bool) (e : BudgetError) {f : BudgetError}
    → is_charge_error e ≡ false
    → reject_if b e ≡ err f
    → is_charge_error f ≡ false
reject_if-err true e h q = rw (← err_eq q) h
reject_if-err false e h q = cc

found_or-err :
    (o : Option Reservation) (e : BudgetError) {f : BudgetError}
    → is_charge_error e ≡ false
    → found_or o e ≡ err f
    → is_charge_error f ≡ false
found_or-err none e h q = rw (← err_eq q) h
found_or-err (some row) e h q = cc

missing-err :
    (b : Bool) (id : Text)
    → is_charge_error (if b then tenant_mismatch id else reservation_not_found id) ≡ false
missing-err true id = refl
missing-err false id = refl

find_reservation-err :
    (s : Store) (t i : Text) {f : BudgetError}
    → find_reservation s t i ≡ err f
    → is_charge_error f ≡ false
unfolding find_reservation
find_reservation-err s t i h =
    found_or-err (first (filter (is_own t i) s.reservations)) _
      (missing-err (any (has_id i) s.reservations) i) h

no_overflow-err :
    (o : Option AmountOverflow) {f : BudgetError}
    → no_overflow o ≡ err f
    → is_charge_error f ≡ false
no_overflow-err none h = cc
no_overflow-err (some o) h = rw (← err_eq h) refl

reject_amount_overflow-err :
    (s : Store) (t : Text) (i : Option Text) {f : BudgetError}
    → reject_amount_overflow s t i ≡ err f
    → is_charge_error f ≡ false
unfolding reject_amount_overflow
reject_amount_overflow-err s t i h =
    no_overflow-err (first (filter (is_pending t i) s.amount_overflows)) h

lateness-err :
    (id : Text) (row : Reservation) (now : ℤ) (status : ReservationStatus) {f : BudgetError}
    → lateness id row now status ≡ err f
    → is_charge_error f ≡ false
lateness-err id row now active h = cc
lateness-err id row now expired h = cc
lateness-err id row now settled h = rw (← err_eq h) refl
lateness-err id row now released h = rw (← err_eq h) refl

record_overage-err :
    (c : Settlement) (row : Reservation) (events : List OverageEvent) {f : BudgetError}
    → record_overage c row events ≡ err f
    → is_charge_error f ≡ false
unfolding record_overage
record_overage-err c row events h =
    logged (ltb_ℤ (pos 0) (overage c.actual_cost_minor row)) (any (has_event_id c.event_id) events)
      h
  where
    logged :
        (b d : Bool) {f : BudgetError}
        → ◌≡◌ {A = Result BudgetError (List OverageEvent)}
            (if b
              then if d then err storage else ok (events ++ overage_event c row ∷ [])
              else ok events)
            (err f)
        → is_charge_error f ≡ false
    logged true true h = rw (← err_eq h) refl
    logged true false h = cc
    logged false d h = cc

-- A total that cannot take the cost: its record, or nothing where the record is there already.
overflow-End :
    (s : Store) (c : Settlement) (row : Reservation) (is_late : Bool)
    (answer : Answered SettleReceipt)
    → reject_amount_overflow s c.tenant_id (some c.reservation_id) ≡ ok tt
    → answer ≡ transact s (charge s c row is_late none none)
    → SettleEnd s c answer
overflow-End s c row is_late answer p h =
    elim (Bool-cases (any (has_reservation_id c.reservation_id) s.amount_overflows)) [
      | inl e ↦ refused storage refl (rw e at h)
      | inr e ↦ overflowed p (rw e at h)
    ]

charge-End :
    (s : Store) (c : Settlement) (row : Reservation) (is_late : Bool)
    (answer : Answered SettleReceipt)
    → find_reservation s c.tenant_id c.reservation_id ≡ ok row
    → lateness c.reservation_id row c.now_ms row.status ≡ ok is_late
    → reject_amount_overflow s c.tenant_id (some c.reservation_id) ≡ ok tt
    → answer
      ≡ transact s (
          charge s c row is_late
            (checked_add (spent_for s row.scope row.period) c.actual_cost_minor)
            (checked_add (tenant_spent_for s c.tenant_id row.tenant_period) c.actual_cost_minor))
    → SettleEnd s c answer
charge-End s c row is_late answer found timely p h =
    elim (Option-cases (checked_add (spent_for s row.scope row.period) c.actual_cost_minor)) [
      | inl e ↦ overflow-End s c row is_late answer p (rw e at h)
      | inr (a, e) ↦
          elim (Option-cases
            (checked_add (tenant_spent_for s c.tenant_id row.tenant_period) c.actual_cost_minor)) [
              | inl f ↦ overflow-End s c row is_late answer p (rw (e, f) at h)
              | inr (b, f) ↦ elim (Result-cases (record_overage c row s.overage_events)) [
                | inl (r, g) ↦
                    refused r (record_overage-err c row s.overage_events g) (rw (e, f, g) at h)
                | inr (events, g) ↦ charged_to (record {
                  row = row;
                  is_late = is_late;
                  scope_total = a;
                  tenant_total = b;
                  events = events;
                  found = found;
                  timely = timely;
                  no_pending = p;
                  scope_sum = e;
                  tenant_sum = f;
                  logged = g;
                  is_end = rw (e, f, g) at h;
                })
              ]
            ]
    ]

pub settle-SettleEnd : (s : Store) (c : Settlement) → SettleEnd s c (settle s c)
unfolding settle
settle-SettleEnd s c =
    let negative = ltb_ℤ c.actual_cost_minor (pos 0) in
    elim (Result-cases (reject_if negative (invalid_actual_cost c.actual_cost_minor))) [
      | inl (e, h) ↦ refused e (reject_if-err negative _ refl h) (rw h refl)
      | inr (_, h) ↦ elim (Result-cases (find_reservation s c.tenant_id c.reservation_id)) [
        | inl (e, f) ↦
            refused e (find_reservation-err s c.tenant_id c.reservation_id f) (rw (h, f) refl)
        | inr (row, f) ↦ elim (Result-cases (lateness c.reservation_id row c.now_ms row.status)) [
          | inl (e, l) ↦
              refused e (lateness-err c.reservation_id row c.now_ms row.status l)
                (rw (h, f, l) refl)
          | inr (is_late, l) ↦
              elim (Result-cases (reject_amount_overflow s c.tenant_id (some c.reservation_id))) [
                | inl (e, p) ↦
                    refused e (reject_amount_overflow-err s c.tenant_id (some c.reservation_id) p)
                      (rw (h, f, l, p) refl)
                | inr (tt, p) ↦ charge-End s c row is_late _ f l p (rw (h, f, l, p) refl)
              ]
        ]
      ]
    ]
