-- ===== src/Tenancy/Budget/Store/Rows.antt =====
-- crates/idoris-tenancy/src/budget/ledger.rs: the rows of reservations. Identities stand once in the
-- table, and an update by identity changes the one row.
use i_doris.Prelude.{
  ◌≡◌, refl, ◌∙◌, Bool, true, false, ◌&&◌, Option, none, some, List, [], ◌∷◌, ◌++◌, map, some_eq,
  filter, any, Memᴰ, if◌then◌else◌, arith, Bool-cases, inl, inr, Memᴰ-filter,
}
use i_doris.Prelude.Equality.{Text, text_eq, text_eq_iff, text_eq→eq}
use i_doris.Prelude.Results.{Result, ok, err}
use i_doris.Tenancy.Budget.Types.{BudgetError}
use i_doris.Tenancy.Budget.Store.{
  reject_if, Store, Reservation, has_id, is_own, first, found_or, find_reservation, update_rows,
}

abbrev pub IsDistinct : List Reservation → Type 0
IsDistinct [] = Unit {0}
IsDistinct (row ∷ rows) = (any (has_id row.id) rows ≡ false) × IsDistinct rows

-- A change of a row that leaves what it is found by.
pub record Keeps (change : Reservation → Reservation) : Type 0 where
  pub id : (row : Reservation) → (change row).id ≡ row.id
  pub scope : (row : Reservation) → (change row).scope ≡ row.scope
  pub period : (row : Reservation) → (change row).period ≡ row.period
  pub tenant_period : (row : Reservation) → (change row).tenant_period ≡ row.tenant_period

-- A test that looks at what a row is found by.
abbrev pub Stable : (Reservation → Bool) → Type 0
Stable p =
    (change : Reservation → Reservation)
    → Keeps change
    → (row : Reservation) → p (change row) ≡ p row

pub Keeps-if :
    (p : Reservation → Bool) {change : Reservation → Reservation}
    → Keeps change
    → Keeps (λ row. if p row then change row else row)
Keeps-if p {change} k = record {
  id = λ row. chosen (λ (r : Reservation). r.id) (p row) (k.id row);
  scope = λ row. chosen (λ (r : Reservation). r.scope) (p row) (k.scope row);
  period = λ row. chosen (λ (r : Reservation). r.period) (p row) (k.period row);
  tenant_period =
      λ row. chosen (λ (r : Reservation). r.tenant_period) (p row) (k.tenant_period row);
}
  where
    chosen :
        {A : Type 0} (f : Reservation → A) (b : Bool) {new old : Reservation}
        → f new ≡ f old
        → f (if b then new else old) ≡ f old
    chosen f true h = h
    chosen f false h = refl

any-map :
    {change : Reservation → Reservation}
    → Keeps change
    → (id : Text) (rows : List Reservation)
    → any (has_id id) (map change rows) ≡ any (has_id id) rows
any-map k id [] = refl
any-map k id (row ∷ rows) = rw (k.id row, any-map k id rows) refl

pub map-IsDistinct :
    {change : Reservation → Reservation}
    → Keeps change
    → (rows : List Reservation) → IsDistinct rows
    → IsDistinct (map change rows)
map-IsDistinct k [] d = tt
map-IsDistinct {change} k (row ∷ rows) d =
    (rw (k.id row) (any-map k row.id rows ∙ d.0), map-IsDistinct k rows d.1)

any-append :
    (id : Text) (rows : List Reservation) (row : Reservation)
    → any (has_id id) rows ≡ false
    → text_eq row.id id ≡ false
    → any (has_id id) (rows ++ row ∷ []) ≡ false
any-append id [] row h e = rw e refl
any-append id (x ∷ rows) row h e = ground (arith, any-append id rows row)

pub append-IsDistinct :
    (rows : List Reservation) (row : Reservation)
    → any (has_id row.id) rows ≡ false
    → IsDistinct rows
    → IsDistinct (rows ++ row ∷ [])
append-IsDistinct [] row h d = (refl, tt)
append-IsDistinct (x ∷ rows) row h d = (
  any-append x.id rows row d.0 (ground (arith, text_eq_iff x.id row.id, text_eq_iff row.id x.id)),
  append-IsDistinct rows row (ground arith) d.1,
)

pub update_rows_absent :
    (id : Text) (change : Reservation → Reservation) (rows : List Reservation)
    → any (has_id id) rows ≡ false
    → update_rows id change rows ≡ rows
update_rows_absent id change [] h = refl
update_rows_absent id change (row ∷ rows) h =
    let here : text_eq row.id id ≡ false = ground arith in
    let rest = update_rows_absent id change rows (ground arith) in rw (here, rest) refl

-- What is found stands in the table, under the identity and the tenant asked for.
pub record Found (s : Store) (tenant_id : Text) (reservation_id : Text) (row : Reservation)
    : Type 0 where
  pub mem : Memᴰ row s.reservations
  pub id : row.id ≡ reservation_id
  pub tenant : row.scope.tenant_id ≡ tenant_id

first-mem : (rows : List Reservation) {row : Reservation} → first rows ≡ some row → Memᴰ row rows
first-mem [] h = cc
first-mem (x ∷ rows) h = Memᴰ.head (cc)

found_or-ok :
    (o : Option Reservation) (e : BudgetError) {row : Reservation}
    → found_or o e ≡ ok row
    → o ≡ some row
found_or-ok none e h = cc
found_or-ok (some x) e h = cc

pub find_reservation-Found :
    (s : Store) (tenant_id reservation_id : Text) {row : Reservation}
    → find_reservation s tenant_id reservation_id ≡ ok row
    → Found s tenant_id reservation_id row
unfolding find_reservation
find_reservation-Found s t i {row} h =
    let m =
      first-mem (filter (is_own t i) s.reservations)
        (found_or-ok (first (filter (is_own t i) s.reservations)) _ h) in
    let (n, e) = Memᴰ-filter (is_own t i) s.reservations m in
    record {
      mem = n;
      id = text_eq→eq row.id i (ground arith);
      tenant = text_eq→eq row.scope.tenant_id t (ground arith);
    }

filter-map :
    (p : Reservation → Bool) (change : Reservation → Reservation)
    → ((row : Reservation) → p (change row) ≡ p row)
    → (rows : List Reservation) → filter p (map change rows) ≡ map change (filter p rows)
filter-map p change same [] = refl
filter-map p change same (row ∷ rows) =
    rw (same row, filter-map p change same rows) (kept (p row) (filter p rows))
  where
    kept :
        (b : Bool) (rest : List Reservation)
        → (if b then change row ∷ map change rest else map change rest)
          ≡ map change (if b then row ∷ rest else rest)
    kept true rest = refl
    kept false rest = refl

abbrev mapped :
    (Reservation → Reservation) → Result BudgetError Reservation → Result BudgetError Reservation
mapped change (err e) = err e
mapped change (ok row) = ok (change row)

first-map :
    (change : Reservation → Reservation) (rows : List Reservation) (e : BudgetError)
    → found_or (first (map change rows)) e ≡ mapped change (found_or (first rows) e)
first-map change [] e = refl
first-map change (row ∷ rows) e = refl

-- A change of the rows that leaves what they are found by changes what is found, and not whether.
pub find_reservation-map :
    (s s' : Store) {change : Reservation → Reservation} (tenant_id reservation_id : Text)
    → Keeps change
    → s'.reservations ≡ map change s.reservations
    → find_reservation s' tenant_id reservation_id
      ≡ mapped change (find_reservation s tenant_id reservation_id)
unfolding find_reservation
find_reservation-map s s' {change} t i k e =
    rw
      (
        e,
        filter-map (is_own t i) change (λ row. rw (k.id row, k.scope row) refl) s.reservations,
        any-map k i s.reservations,
      )
      (first-map change (filter (is_own t i) s.reservations) _)

pub find_reservation-same :
    (s s' : Store) (tenant_id reservation_id : Text)
    → s'.reservations ≡ s.reservations
    → find_reservation s' tenant_id reservation_id ≡ find_reservation s tenant_id reservation_id
unfolding find_reservation
find_reservation-same s s' t i e = rw e refl

pub find_reservation-first :
    (s : Store) (tenant_id reservation_id : Text) {row : Reservation}
    → find_reservation s tenant_id reservation_id ≡ ok row
    → first (filter (is_own tenant_id reservation_id) s.reservations) ≡ some row
unfolding find_reservation
find_reservation-first s t i h = found_or-ok (first (filter (is_own t i) s.reservations)) _ h

-- The first row that passes a test passes it with any test that it passes.
pub first-filter_also :
    (p q : Reservation → Bool) (rows : List Reservation) (row : Reservation)
    → first (filter p rows) ≡ some row
    → q row ≡ true
    → first (filter (λ r. p r && q r) rows) ≡ some row
first-filter_also p q [] row h g = cc
first-filter_also p q (x ∷ rows) row h g = elim (Bool-cases (p x)) [
  | inl e ↦
      let same : x ≡ row = some_eq (rw e at h) in
      let qx : q x ≡ true = rw same g in rw (e, qx) (rw e at h)
  | inr e ↦ rw e (first-filter_also p q rows row (rw e at h) g)
]

pub reject_if-ok : (b : Bool) (e : BudgetError) {u : Unit {0}} → reject_if b e ≡ ok u → b ≡ false
reject_if-ok true e h = cc
reject_if-ok false e h = refl
