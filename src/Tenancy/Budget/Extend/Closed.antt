-- ===== src/Tenancy/Budget/Extend/Closed.antt =====
-- crates/idoris-tenancy/src/budget/ledger.rs: a released reservation stays released, whatever is
-- called afterwards.
use i_doris.Prelude.{
  ◌≡◌, refl, ◌∙◌, sym, Bool, true, false, List, [], ◌∷◌, map, Memᴰ, if◌then◌else◌, Bool-cases, inl,
  inr,
}
use i_doris.Prelude.Equality.{Text, text_eq, text_eq_iff}
use i_doris.Prelude.Results.{ok}
use i_doris.Tenancy.Budget.Types.{released, expired, is_active}
use i_doris.Tenancy.Budget.Store.{Store, Reservation, find_reservation, has_id, update_rows}
use i_doris.Tenancy.Budget.Store.Rows.{
  Keeps, Keeps-if, find_reservation-map, find_reservation-Found, find_reservation-same,
}

-- Every row under the identity is released.
abbrev pub AllReleased : Text → List Reservation → Type 0
AllReleased id [] = Unit
AllReleased id (row ∷ rows) = (has_id id row ≡ true → row.status ≡ released) × AllReleased id rows

-- The tenant finds its reservation, and it is released.
pub record IsClosed (s : Store) (tenant id : Text) : Type 0 where
  pub row : Reservation
  pub found : find_reservation s tenant id ≡ ok row
  pub rows : AllReleased id s.reservations

AllReleased-mem :
    (id : Text) (rows : List Reservation) {row : Reservation}
    → AllReleased id rows
    → Memᴰ row rows
    → row.id ≡ id
    → row.status ≡ released
AllReleased-mem id [] h m e = elim m [ ]
AllReleased-mem id (x ∷ rows) {row} h (Memᴰ.head q) e =
    rw q (h.0 (rw (← q) ((text_eq_iff row.id id).1 e)))
AllReleased-mem id (x ∷ rows) h (Memᴰ.tail m) e = AllReleased-mem id rows h.1 m e

-- What is found under the identity is released.
pub closed_status :
    (s : Store) (tenant id caller : Text) (row : Reservation)
    → IsClosed s tenant id
    → find_reservation s caller id ≡ ok row
    → row.status ≡ released
closed_status s tenant id caller row h f =
    let own = find_reservation-Found s caller id f in
    AllReleased-mem id s.reservations h.rows own.mem own.id

AllReleased-map :
    (id : Text) (rows : List Reservation) {change : Reservation → Reservation}
    → Keeps change
    → ((row : Reservation)
        → has_id id row ≡ true
        → row.status ≡ released
        → (change row).status ≡ released)
    → AllReleased id rows
    → AllReleased id (map change rows)
AllReleased-map id [] k same h = tt
AllReleased-map id (row ∷ rows) k same h = (
  λ e. let here = rw (k.id row) at e in same row here (h.0 here),
  AllReleased-map id rows k same h.1,
)

-- Changes of the rows that leave a released one of the identity released.
pub map-IsClosed :
    (s s' : Store) (tenant id : Text) {change : Reservation → Reservation}
    → Keeps change
    → ((row : Reservation)
        → has_id id row ≡ true
        → row.status ≡ released
        → (change row).status ≡ released)
    → s'.reservations ≡ map change s.reservations
    → IsClosed s tenant id
    → IsClosed s' tenant id
map-IsClosed s s' tenant id {change} k same e h = record {
  row = change h.row;
  found = find_reservation-map s s' tenant id k e ∙ rw h.found refl;
  rows = rw e (AllReleased-map id s.reservations k same h.rows);
}

pub same-IsClosed :
    (s s' : Store) (tenant id : Text)
    → s'.reservations ≡ s.reservations
    → IsClosed s tenant id
    → IsClosed s' tenant id
same-IsClosed s s' tenant id e h = record {
  row = h.row;
  found = find_reservation-same s s' tenant id e ∙ h.found;
  rows = rw e h.rows;
}

-- An update under another identity.
pub update-IsClosed :
    (s s' : Store) (tenant id other : Text) {change : Reservation → Reservation}
    → Keeps change
    → text_eq other id ≡ false
    → s'.reservations ≡ update_rows other change s.reservations
    → IsClosed s tenant id
    → IsClosed s' tenant id
update-IsClosed s s' tenant id other {change} k ne =
    map-IsClosed s s' tenant id (Keeps-if (has_id other) k) kept
  where
    kept :
        (row : Reservation)
        → has_id id row ≡ true
        → row.status ≡ released
        → (if has_id other row then change row else row).status ≡ released
    kept row e q = elim (Bool-cases (text_eq row.id other)) [
      | inl f ↦
          let same = sym ((text_eq_iff row.id other).0 f) ∙ (text_eq_iff row.id id).0 e in
          let bad = (text_eq_iff other id).1 same in absurd (cc)
      | inr f ↦ rw f q
    ]

pub expired-IsClosed :
    (s s' : Store) (tenant id : Text) (p : Reservation → Bool)
    → ((row : Reservation) → p row ≡ true → is_active row.status ≡ true)
    → s'.reservations
      ≡ map (λ row. if p row then record row { status = expired } else row) s.reservations
    → IsClosed s tenant id
    → IsClosed s' tenant id
expired-IsClosed s s' tenant id p live =
    map-IsClosed s s' tenant id
      (Keeps-if p (record {
        id = λ row. refl;
        scope = λ row. refl;
        period = λ row. refl;
        tenant_period = λ row. refl;
      }))
      (λ row _ q. elim (Bool-cases (p row)) [
        | inl e ↦ let bad = rw q at (live row e) in absurd (cc bad)
        | inr e ↦ rw e q
      ])
