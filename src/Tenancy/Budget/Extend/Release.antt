-- ===== src/Tenancy/Budget/Extend/Release.antt =====
-- crates/idoris-tenancy/src/budget/ledger.rs: a reservation that is not settled can be released, for
-- good.
use i_doris.Prelude.{◌≡◌, refl, ◌∙◌, sym, false, some, List, [], ◌∷◌, Memᴰ, Bool-cases, inl, inr}
use i_doris.Prelude.Equality.{Text, text_eq, text_eq_refl, text_eq_iff}
use i_doris.Prelude.Int.{ℤ}
use i_doris.Prelude.Results.{ok, err}
use i_doris.Tenancy.Budget.Types.{
  ReservationStatus, active, settled, released, expired, reservation_not_active,
}
use i_doris.Tenancy.Budget.Period.{TimeZones}
use i_doris.Tenancy.Budget.Store.{
  Store, Reservation, transact, find_reservation, reject_amount_overflow, has_id, update_rows,
}
use i_doris.Tenancy.Budget.Store.Rows.{
  IsDistinct, Keeps, Keeps-if, find_reservation-map, find_reservation-Found,
}
use i_doris.Tenancy.Budget.Settle.{Settlement, settle, is_settled}
use i_doris.Tenancy.Budget.Settle.Once.{IsRepeat}
use i_doris.Tenancy.Budget.Extend.{release, finish, released_row}
use i_doris.Tenancy.Budget.Extend.Closed.{AllReleased, closed_status}
use i_doris.Tenancy.Budget.Extend.Final.{run-IsClosed}
use i_doris.Tenancy.Budget.Isolation.{distinct_same}
use i_doris.Tenancy.Budget.Operations.{Operation, run}

-- What a release leaves: the reservation released, and the totals as they were.
pub record IsReleased (s s' : Store) (c : Settlement) : Type 0 where
  pub row : Reservation
  pub found : find_reservation s' c.tenant_id c.reservation_id ≡ ok row
  pub status : row.status ≡ released
  pub same_budget : s'.budget_periods ≡ s.budget_periods
  pub same_tenant : s'.tenant_periods ≡ s.tenant_periods

-- A store in which the reservation is released: neither call about it changes anything.
pub record StaysReleased (s : Store) (c d : Settlement) : Type 0 where
  pub row : Reservation
  pub found : find_reservation s c.tenant_id c.reservation_id ≡ ok row
  pub status : row.status ≡ released
  pub again : release s c.tenant_id c.reservation_id ≡ (s, ok tt)
  pub not_chargeable : settle s d ≡ (s, err (reservation_not_active c.reservation_id released))

still_released :
    (s : Store) (c d : Settlement) (row : Reservation)
    → find_reservation s c.tenant_id c.reservation_id ≡ ok row
    → row.status ≡ released
    → IsRepeat c d
    → StaysReleased s c d
unfolding release settle
still_released s c d row f e r = record {
  row = row;
  found = f;
  status = e;
  again = rw (f, e) refl;
  not_chargeable = rw (r.amount, r.tenant, r.reservation, f, e) refl;
}

abbrev after_release : Store → Text → Store
after_release s id = record s { reservations = update_rows id released_row s.reservations }

update_rows-AllReleased :
    (id : Text) (rows : List Reservation) → AllReleased id (update_rows id released_row rows)
update_rows-AllReleased id [] = tt
update_rows-AllReleased id (row ∷ rows) = (
  λ e. elim (Bool-cases (text_eq row.id id)) [
    | inl f ↦ rw f refl
    | inr f ↦ let bad = rw (f, f) at e in absurd (cc)
  ],
  update_rows-AllReleased id rows,
)

-- Where identities are distinct, the row that is released is the only one under its identity.
distinct-AllReleased :
    (id : Text) (rows : List Reservation) (row : Reservation)
    → ((r : Reservation) → Memᴰ r rows → r.id ≡ id → r ≡ row)
    → row.status ≡ released
    → AllReleased id rows
distinct-AllReleased id [] row only e = tt
distinct-AllReleased id (x ∷ rows) row only e = (
  λ f. rw (only x (Memᴰ.head refl) ((text_eq_iff x.id id).0 f)) e,
  distinct-AllReleased id rows row (λ r m. only r (Memᴰ.tail m)) e,
)

-- The row that is found is released, and no other row has its identity.
abbrev Outcome : Store → Store → Settlement → Type 0
Outcome s s' c = IsReleased s s' c × AllReleased c.reservation_id s'.reservations

written :
    (s : Store) (c : Settlement) (row : Reservation)
    → find_reservation s c.tenant_id c.reservation_id ≡ ok row
    → Outcome s (after_release s c.reservation_id) c
written s c row f =
    let own = find_reservation-Found s c.tenant_id c.reservation_id f in
    let keeps : Keeps released_row = record {
      id = λ x. refl;
      scope = λ x. refl;
      period = λ x. refl;
      tenant_period = λ x. refl;
    } in
    (
      record {
        row = released_row row;
        found =
            find_reservation-map s (after_release s c.reservation_id) c.tenant_id c.reservation_id
              (Keeps-if (has_id c.reservation_id) keeps) refl
            ∙ rw (f, own.id, text_eq_refl c.reservation_id) refl;
        status = refl;
        same_budget = refl;
        same_tenant = refl;
      },
      update_rows-AllReleased c.reservation_id s.reservations,
    )

untouched :
    (s : Store) (c : Settlement) (row : Reservation)
    → IsDistinct s.reservations
    → find_reservation s c.tenant_id c.reservation_id ≡ ok row
    → row.status ≡ released
    → Outcome s s c
untouched s c row d f e =
    let own = find_reservation-Found s c.tenant_id c.reservation_id f in
    (
      record { row = row; found = f; status = e; same_budget = refl; same_tenant = refl },
      distinct-AllReleased c.reservation_id s.reservations row
          (λ r m q. distinct_same s.reservations d m own.mem (q ∙ sym own.id)) e,
    )

finish-Outcome :
    (s : Store) (c : Settlement) (row : Reservation) (status : ReservationStatus)
    → row.status ≡ status
    → IsDistinct s.reservations
    → find_reservation s c.tenant_id c.reservation_id ≡ ok row
    → is_settled status ≡ false
    → reject_amount_overflow s c.tenant_id (some c.reservation_id) ≡ ok tt
    → let answer = transact s (finish s c.tenant_id c.reservation_id status) in
      (answer.1 ≡ ok tt) × Outcome s answer.0 c
finish-Outcome s c row released e d f h p = (refl, untouched s c row d f e)
finish-Outcome s c row settled e d f h p = absurd (cc)
finish-Outcome s c row active e d f h p = rw p (refl, written s c row f)
finish-Outcome s c row expired e d f h p = rw p (refl, written s c row f)

release-Outcome :
    (s : Store) (c : Settlement) (row : Reservation)
    → IsDistinct s.reservations
    → find_reservation s c.tenant_id c.reservation_id ≡ ok row
    → is_settled row.status ≡ false
    → reject_amount_overflow s c.tenant_id (some c.reservation_id) ≡ ok tt
    → ((release s c.tenant_id c.reservation_id).1 ≡ ok tt)
      × Outcome s (release s c.tenant_id c.reservation_id).0 c
unfolding release
release-Outcome s c row d f h p = rw f (finish-Outcome s c row row.status refl d f h p)

-- A reservation that its tenant finds, that is not settled and has no pending overflow, can always
-- be released, active or lapsed: the call succeeds and charges nothing. After it, and after any
-- history of further calls, of any tenant, the reservation is still found and is released: to
-- release it again succeeds and changes nothing, and a settlement of it, for any cost that is not
-- negative, is refused and changes nothing. The identities in the store are distinct, as they are
-- after any history.
pub release-IsReleased :
    (zones : TimeZones) (ttl_ms : ℤ) (history : List Operation) (s : Store) (c d : Settlement)
    (row : Reservation)
    → IsDistinct s.reservations
    → find_reservation s c.tenant_id c.reservation_id ≡ ok row
    → is_settled row.status ≡ false
    → reject_amount_overflow s c.tenant_id (some c.reservation_id) ≡ ok tt
    → IsRepeat c d
    → ((release s c.tenant_id c.reservation_id).1 ≡ ok tt)
      × IsReleased s (release s c.tenant_id c.reservation_id).0 c
      × StaysReleased (run zones ttl_ms history (release s c.tenant_id c.reservation_id).0) c d
release-IsReleased zones ttl_ms history s c d row distinct f h p r =
    let (answer, (now, all)) = release-Outcome s c row distinct f h p in
    let closed =
      run-IsClosed zones ttl_ms history (release s c.tenant_id c.reservation_id).0 c.tenant_id
        c.reservation_id (record { row = now.row; found = now.found; rows = all }) in
    (
      answer,
      now,
      still_released _ c d closed.row closed.found
          (closed_status _ c.tenant_id c.reservation_id c.tenant_id closed.row closed closed.found)
          r,
    )
