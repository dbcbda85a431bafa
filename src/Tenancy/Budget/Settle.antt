-- ===== src/Tenancy/Budget/Settle.antt =====
-- crates/idoris-tenancy/src/budget/ledger.rs: `settle` and `replay_settlement`. The reading of the
-- clock and the identity of an overage event are arguments.
pub mod Endings
pub mod Charges
pub mod Once
pub mod Overflow
use i_doris.Prelude.{
  Bool, true, false, ◌&&◌, Option, none, some, List, [], ◌∷◌, ◌++◌, filter, any, if◌then◌else◌,
}
use i_doris.Prelude.Equality.{Text, text_eq}
use i_doris.Prelude.Int.{ℤ, pos, ltb_ℤ, leb_ℤ}
use i_doris.Prelude.Results.{Result, ok, err, ◌>>=◌}
use i_doris.Tenancy.Budget.Amount.{checked_add, checked_sub_i64, at_least_zero, times_four}
use i_doris.Tenancy.Budget.Types.{
  ReservationStatus, active, settled, released, expired, SettleReceipt, BudgetError,
  reservation_not_active, invalid_actual_cost, amount_overflow, overage_too_large, storage,
}
use i_doris.Tenancy.Budget.Keys.{scope_equality, period_equality, upsert}
use i_doris.Prelude.Equality.{text_equality}
use i_doris.Tenancy.Budget.Store.{
  Store, Reservation, OverageEvent, AmountOverflow, Answered, transact, reject_if, spent_for,
  tenant_spent_for, period_key, find_reservation, update_rows, reject_amount_overflow, is_own,
  first,
}

-- Whether the settlement comes late; a settled or released reservation is not to be settled.
abbrev pub lateness : Text → Reservation → ℤ → ReservationStatus → Result BudgetError Bool
lateness id row now_ms active = ok (leb_ℤ row.expires_at_ms now_ms)
lateness id row now_ms expired = ok true
lateness id row now_ms settled = err (reservation_not_active id settled)
lateness id row now_ms released = err (reservation_not_active id released)

abbrev pub overage : ℤ → Reservation → ℤ
overage actual_cost_minor row = at_least_zero (checked_sub_i64 actual_cost_minor row.reserved_minor)

abbrev pub is_too_large : ℤ → Reservation → Bool
is_too_large actual_cost_minor row = ltb_ℤ (times_four row.reserved_minor) actual_cost_minor

abbrev pub settled_row : ℤ → Reservation → Reservation
settled_row actual_cost_minor row = record row {
  status = settled;
  actual_cost_minor = some actual_cost_minor;
}

-- What one call of `settle` is given and has drawn from outside.
pub record Settlement : Type 0 where
  pub tenant_id : Text
  pub reservation_id : Text
  pub actual_cost_minor : ℤ
  pub now_ms : ℤ
  pub event_id : Text

abbrev pub overage_event : Settlement → Reservation → OverageEvent
overage_event c row = record {
  id = c.event_id;
  tenant_id = c.tenant_id;
  reservation_id = c.reservation_id;
  reserved_minor = row.reserved_minor;
  actual_cost_minor = c.actual_cost_minor;
  overage_minor = overage c.actual_cost_minor row;
  created_at_ms = c.now_ms;
}

abbrev pub has_event_id : Text → OverageEvent → Bool
has_event_id id event = text_eq event.id id

unfoldable pub record_overage :
    Settlement → Reservation → List OverageEvent → Result BudgetError (List OverageEvent)
record_overage c row events =
    if ltb_ℤ (pos 0) (overage c.actual_cost_minor row)
    then if any (has_event_id c.event_id) events
      then err storage
      else ok (events ++ overage_event c row ∷ [])
    else ok events

abbrev pub receipt : Settlement → Reservation → Bool → Result BudgetError SettleReceipt
receipt c row late =
    if is_too_large c.actual_cost_minor row
    then err (overage_too_large c.reservation_id row.reserved_minor c.actual_cost_minor)
    else ok (record {
      reserved_minor = row.reserved_minor;
      actual_cost_minor = c.actual_cost_minor;
      refunded_minor = at_least_zero (checked_sub_i64 row.reserved_minor c.actual_cost_minor);
      late = late;
      overage_minor = overage c.actual_cost_minor row;
    })

-- Both totals move with the row.
abbrev pub booked : Store → Settlement → Reservation → ℤ → ℤ → List OverageEvent → Store
booked s c row scope_total tenant_total events = record s {
  budget_periods = upsert (period_key row.scope row.period) scope_total s.budget_periods;
  reservations = update_rows c.reservation_id (settled_row c.actual_cost_minor) s.reservations;
  tenant_periods = upsert (period_key c.tenant_id row.tenant_period) tenant_total s.tenant_periods;
  overage_events = events;
}

abbrev pub has_reservation_id : Text → AmountOverflow → Bool
has_reservation_id id o = text_eq o.reservation_id id

abbrev pub retained : Settlement → AmountOverflow
retained c = record {
  reservation_id = c.reservation_id;
  tenant_id = c.tenant_id;
  actual_cost_minor = c.actual_cost_minor;
  created_at_ms = c.now_ms;
}

-- The charge, or its record where a total cannot take it.
abbrev pub charge :
    Store
    → Settlement
    → Reservation
    → Bool
    → Option ℤ
    → Option ℤ
    → Result BudgetError (Answered SettleReceipt)
charge s c row late (some scope_total) (some tenant_total) = do
  events ← record_overage c row s.overage_events
  ok (booked s c row scope_total tenant_total events, receipt c row late)
charge s c row late _ _ =
    if any (has_reservation_id c.reservation_id) s.amount_overflows
    then err storage
    else ok (
      record s { amount_overflows = s.amount_overflows ++ retained c ∷ [] },
      err (amount_overflow c.reservation_id c.actual_cost_minor),
    )

unfoldable pub settle : Store → Settlement → Answered SettleReceipt
settle s c = transact s (do
  _ ← reject_if (ltb_ℤ c.actual_cost_minor (pos 0)) (invalid_actual_cost c.actual_cost_minor)
  row ← find_reservation s c.tenant_id c.reservation_id
  late ← lateness c.reservation_id row c.now_ms row.status
  _ ← reject_amount_overflow s c.tenant_id (some c.reservation_id)
  charge s c row late (checked_add (spent_for s row.scope row.period) c.actual_cost_minor)
      (checked_add (tenant_spent_for s c.tenant_id row.tenant_period) c.actual_cost_minor))

abbrev pub is_settled : ReservationStatus → Bool
is_settled settled = true
is_settled _ = false

abbrev pub same_amount : ℤ → Option Reservation → Bool
same_amount amount none = false
same_amount amount (some row) = elim row.actual_cost_minor [
  | none ↦ false
  | some stored ↦ leb_ℤ stored amount && leb_ℤ amount stored
]

-- A replay counts as done what has been charged already, at the same amount.
abbrev pub replayed : Settlement → Answered SettleReceipt → Answered (Unit {0})
replayed c (s, ok r) = (s, ok tt)
replayed c (s, err (overage_too_large id reserved actual)) = (s, ok tt)
replayed c (s, err (reservation_not_active id status)) =
    if same_amount c.actual_cost_minor (
      first (
        filter (λ row. is_own c.tenant_id c.reservation_id row && is_settled row.status)
          s.reservations))
    then (s, ok tt)
    else (s, err (reservation_not_active id status))
replayed c (s, err e) = (s, err e)

unfoldable pub replay_settlement : Store → Settlement → Answered (Unit {0})
replay_settlement s c = replayed c (settle s c)
