-- ===== src/Tenancy/Budget/Settle/Once.antt =====
-- crates/idoris-tenancy/src/budget/ledger.rs: a reservation is charged once.
use i_doris.Prelude.{◌≡◌, refl, Bool, true, false, ◌&&◌, some, filter, if◌then◌else◌}
use i_doris.Prelude.Int.{pos, ltb_ℤ, leb_ℤ}
use i_doris.Prelude.Results.{ok, err}
use i_doris.Tenancy.Budget.Types.{settled, reservation_not_active}
use i_doris.Tenancy.Budget.Store.{Store, Reservation, find_reservation, first, is_own}
use i_doris.Tenancy.Budget.Store.Rows.{find_reservation-first, first-filter_also}
use i_doris.Tenancy.Budget.Settle.{Settlement, settle, settled_row, is_settled, replay_settlement}
use i_doris.Tenancy.Budget.Settle.Endings.{is_charged}
use i_doris.Tenancy.Budget.Settle.Charges.{settle-Charges}
use i_doris.Tenancy.Budget.Extend.{release}

-- A settlement of the same reservation, by the same tenant, for an amount that is not negative.
pub record IsRepeat (c d : Settlement) : Type 0 where
  pub tenant : d.tenant_id ≡ c.tenant_id
  pub reservation : d.reservation_id ≡ c.reservation_id
  pub amount : ltb_ℤ d.actual_cost_minor (pos 0) ≡ false

-- Nothing more is charged, and the charge is not taken back. A replay looks at the amount.
pub record IsFinal (s : Store) (c d : Settlement) : Type 0 where
  pub settle_again : settle s d ≡ (s, err (reservation_not_active c.reservation_id settled))
  pub release_after :
      release s c.tenant_id c.reservation_id
      ≡ (s, err (reservation_not_active c.reservation_id settled))
  pub replay_after : replay_settlement s d ≡ (
    s,
    if leb_ℤ c.actual_cost_minor d.actual_cost_minor
          && leb_ℤ d.actual_cost_minor c.actual_cost_minor
        then ok tt
        else err (reservation_not_active c.reservation_id settled),
  )

settled_refused :
    (s : Store) (c d : Settlement) (row : Reservation)
    → find_reservation s c.tenant_id c.reservation_id ≡ ok row
    → row.status ≡ settled
    → IsRepeat c d
    → settle s d ≡ (s, err (reservation_not_active c.reservation_id settled))
unfolding settle
settled_refused s c d row f e r = rw (r.amount, r.tenant, r.reservation, f, e) refl

stored_first :
    (s : Store) (c : Settlement) (row : Reservation)
    → find_reservation s c.tenant_id c.reservation_id ≡ ok row
    → is_settled row.status ≡ true
    → first
        (filter (λ r. is_own c.tenant_id c.reservation_id r && is_settled r.status) s.reservations)
      ≡ some row
stored_first s c row f e =
    first-filter_also (is_own c.tenant_id c.reservation_id)
      (λ (r : Reservation). is_settled r.status) s.reservations row
      (find_reservation-first s c.tenant_id c.reservation_id f) e

in_pair :
    {A : Type 0} (b : Bool) (s : Store) (x y : A)
    → ◌≡◌ {A = Store × A} (if b then (s, x) else (s, y)) (s, if b then x else y)
in_pair true s x y = refl
in_pair false s x y = refl

replay_stored :
    (s : Store) (c d : Settlement) (row : Reservation)
    → find_reservation s c.tenant_id c.reservation_id ≡ ok (settled_row c.actual_cost_minor row)
    → IsRepeat c d
    → replay_settlement s d ≡ (
      s,
      if leb_ℤ c.actual_cost_minor d.actual_cost_minor
            && leb_ℤ d.actual_cost_minor c.actual_cost_minor
          then ok tt
          else err (reservation_not_active c.reservation_id settled),
    )
unfolding replay_settlement
replay_stored s c d row f r =
    rw
      (
        settled_refused s c d (settled_row c.actual_cost_minor row) f refl r,
        r.tenant,
        r.reservation,
        stored_first s c (settled_row c.actual_cost_minor row) f refl,
      )
      (in_pair
        (leb_ℤ c.actual_cost_minor d.actual_cost_minor
          && leb_ℤ d.actual_cost_minor c.actual_cost_minor)
        s (ok tt) (err (reservation_not_active c.reservation_id settled)))

-- Once a reservation is charged, no call charges it again or takes the charge back: a further
-- settlement, for any amount that is not negative, and a release are refused as not active and
-- change nothing. A replay of the settlement changes nothing either; it succeeds where it names the
-- amount that was charged, and is refused where it names another one.
pub settle-IsFinal :
    (s : Store) (c d : Settlement)
    → is_charged (settle s c).1 ≡ true
    → IsRepeat c d
    → IsFinal (settle s c).0 c d
unfolding release
settle-IsFinal s c d h r =
    let (row, done) = settle-Charges s c h in
    let stored = settled_row c.actual_cost_minor row in
    record {
      settle_again = settled_refused (settle s c).0 c d stored done.row_settled refl r;
      release_after = rw done.row_settled refl;
      replay_after = replay_stored (settle s c).0 c d row done.row_settled r;
    }
