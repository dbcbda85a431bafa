-- ===== src/Tenancy/Budget/Extend.antt =====
-- crates/idoris-tenancy/src/budget/ledger.rs: `open_with_busy_timeout`'s check of the lifetime,
-- `extend`, `release` and `sweep_expired`. The readings of the clock are arguments.
pub mod Lifetime
pub mod Closed
pub mod Final
pub mod Release
use i_doris.Prelude.{
  ℕ, Bool, true, false, not, ◌&&◌, ◌||◌, none, some, map, filter, length, if◌then◌else◌,
}
use i_doris.Prelude.Equality.{Text}
use i_doris.Prelude.Int.{ℤ, pos, ltb_ℤ, leb_ℤ}
use i_doris.Prelude.Results.{Result, ok, err, ◌>>=◌}
use i_doris.Tenancy.Budget.Amount.{checked_add, checked_mul_four}
use i_doris.Tenancy.Budget.Types.{
  ReservationStatus, active, settled, released, expired, BudgetError, invalid_ttl,
  invalid_timestamp, reservation_not_active, is_active,
}
use i_doris.Tenancy.Budget.Views.{ok_or}
use i_doris.Tenancy.Budget.Admit.{check_reservation_deadline}
use i_doris.Tenancy.Budget.Store.{
  Store, Reservation, Answered, transact, reject_if, find_reservation, update_rows,
  reject_amount_overflow,
}

unfoldable pub check_ttl : ℤ → Result BudgetError (Unit {0})
check_ttl ttl_ms = reject_if (leb_ℤ ttl_ms (pos 0)) (invalid_ttl ttl_ms)

abbrev pub renewed : ℤ → Reservation → Reservation
renewed expires_at_ms row = record row { expires_at_ms = expires_at_ms }

-- What one call of `extend` is given and reads of the clock.
pub record Extension : Type 0 where
  pub tenant_id : Text
  pub reservation_id : Text
  pub additional_ttl_ms : ℤ
  pub now_ms : ℤ
  pub before_commit_ms : ℤ
  pub after_commit_ms : ℤ

abbrev pub extending : ℤ → Store → Extension → Result BudgetError (Answered (Unit {0}))
extending ttl_ms s x = do
  _ ←
      reject_if (leb_ℤ x.additional_ttl_ms (pos 0) || ltb_ℤ ttl_ms x.additional_ttl_ms)
        (invalid_ttl x.additional_ttl_ms)
  row ← find_reservation s x.tenant_id x.reservation_id
  _ ←
      reject_if (not (is_active row.status) || leb_ℤ row.expires_at_ms x.now_ms)
        (reservation_not_active x.reservation_id row.status)
  new_expires_at_ms ← ok_or (checked_add x.now_ms x.additional_ttl_ms) (invalid_timestamp x.now_ms)
  max_lifetime_ms ← ok_or (checked_mul_four ttl_ms) (invalid_ttl x.additional_ttl_ms)
  max_expires_at_ms ←
      ok_or (checked_add row.created_at_ms max_lifetime_ms) (invalid_timestamp x.now_ms)
  _ ← reject_if (ltb_ℤ max_expires_at_ms new_expires_at_ms) (invalid_ttl x.additional_ttl_ms)
  _ ← check_reservation_deadline x.reservation_id new_expires_at_ms x.before_commit_ms
  ok (
    record s {
      reservations = update_rows x.reservation_id (renewed new_expires_at_ms) s.reservations;
    },
    check_reservation_deadline x.reservation_id new_expires_at_ms x.after_commit_ms,
  )

unfoldable pub extend : ℤ → Store → Extension → Answered (Unit {0})
extend ttl_ms s x = transact s (extending ttl_ms s x)

abbrev pub released_row : Reservation → Reservation
released_row row = record row { status = released }

abbrev pub finish :
    Store → Text → Text → ReservationStatus → Result BudgetError (Answered (Unit {0}))
finish s tenant_id reservation_id released = ok (s, ok tt)
finish s tenant_id reservation_id settled = err (reservation_not_active reservation_id settled)
finish s tenant_id reservation_id _ = do
  _ ← reject_amount_overflow s tenant_id (some reservation_id)
  ok (record s { reservations = update_rows reservation_id released_row s.reservations }, ok tt)

unfoldable pub release : Store → Text → Text → Answered (Unit {0})
release s tenant_id reservation_id = transact s (do
  row ← find_reservation s tenant_id reservation_id
  finish s tenant_id reservation_id row.status)

abbrev pub is_lapsed : ℤ → Reservation → Bool
is_lapsed now_ms row = is_active row.status && leb_ℤ row.expires_at_ms now_ms

unfoldable pub sweep_expired : Store → ℤ → Answered ℕ
sweep_expired s now_ms = (
  record s {
    reservations =
        map (λ row. if is_lapsed now_ms row then record row { status = expired } else row)
          s.reservations;
  },
  ok (length (filter (is_lapsed now_ms) s.reservations)),
)
