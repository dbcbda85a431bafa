-- ===== src/Tenancy/Budget/Store/Held.antt =====
-- crates/idoris-tenancy/src/budget/ledger.rs: the amounts that active reservations hold.
use i_doris.Prelude.{
  ◌≡◌, refl, sym, ◌∙◌, Bool, true, false, ◌&&◌, Option, none, some, List, [], ◌∷◌, ◌++◌, map,
  filter, arith, if◌then◌else◌, ap, Bool-cases, inl, inr,
}
use i_doris.Prelude.Int.{ℤ, pos, ◌+ℤ◌, leb_ℤ, ◌≤ℤ◌}
use i_doris.Prelude.Equality.{Text}
use i_doris.Prelude.Results.{ok}
use i_doris.Tenancy.Budget.Amount.Sums.{total, sum_from-total, zero_+ℤ, +ℤ_zero, +ℤ_assoc}
use i_doris.Tenancy.Budget.Types.{BudgetScope, expired, is_active}
use i_doris.Tenancy.Budget.Store.Rows.{Keeps-if, Stable}
use i_doris.Tenancy.Budget.Store.{
  Store, Reservation, is_held, sum_reserved, sum_or_storage, in_scope_period, in_tenant_period,
  active_reserved_for, tenant_active_reserved_for, sweep_expired_scope,
}

-- What the held reservations that pass a test add up to.
abbrev pub held_total : (Reservation → Bool) → ℤ → List Reservation → ℤ
held_total p now_ms [] = pos 0
held_total p now_ms (row ∷ rows) =
    (if p row && is_held now_ms row then row.reserved_minor else pos 0) +ℤ held_total p now_ms rows

total-filter :
    (p : Reservation → Bool) (now_ms : ℤ) (rows : List Reservation)
    → total (
        map
          (λ (row : Reservation). row.reserved_minor)
          (filter (λ row. p row && is_held now_ms row) rows))
      ≡ held_total p now_ms rows
total-filter p now_ms [] = refl
total-filter p now_ms (row ∷ rows) =
    kept (p row && is_held now_ms row) (filter (λ r. p r && is_held now_ms r) rows) _
      (total-filter p now_ms rows)
  where
    kept :
        (b : Bool) (rest : List Reservation) (t : ℤ)
        → total (map (λ (r : Reservation). r.reserved_minor) rest) ≡ t
        → total (map (λ (r : Reservation). r.reserved_minor) (if b then row ∷ rest else rest))
          ≡ (if b then row.reserved_minor else pos 0) +ℤ t
    kept true rest t h = ap (λ x. row.reserved_minor +ℤ x) h
    kept false rest t h = h ∙ sym (zero_+ℤ t)

sum_or_storage-ok : (o : Option ℤ) {r : ℤ} → sum_or_storage o ≡ ok r → o ≡ some r
sum_or_storage-ok none h = cc
sum_or_storage-ok (some a) h = cc

sum_reserved_exact :
    (p : Reservation → Bool) (now_ms : ℤ) (rows : List Reservation) {r : ℤ}
    → sum_or_storage (sum_reserved (filter (λ row. p row && is_held now_ms row) rows)) ≡ ok r
    → r ≡ held_total p now_ms rows
sum_reserved_exact p now_ms rows h =
    let found = filter (λ row. p row && is_held now_ms row) rows in
    let amounts = map (λ (row : Reservation). row.reserved_minor) found in
    sum_from-total (pos 0) amounts (sum_or_storage-ok (sum_reserved found) h)
    ∙ zero_+ℤ (total amounts)
    ∙ total-filter p now_ms rows

-- The sums that are read are what is held.
pub active_reserved_for_exact :
    (s : Store) (scope : BudgetScope) (period : Text) (now_ms : ℤ) {r : ℤ}
    → active_reserved_for s scope period now_ms ≡ ok r
    → r ≡ held_total (in_scope_period scope period) now_ms s.reservations
unfolding active_reserved_for
active_reserved_for_exact s scope period now_ms h =
    sum_reserved_exact (in_scope_period scope period) now_ms s.reservations h

pub tenant_active_reserved_for_exact :
    (s : Store) (tenant_id period : Text) (now_ms : ℤ) {r : ℤ}
    → tenant_active_reserved_for s tenant_id period now_ms ≡ ok r
    → r ≡ held_total (in_tenant_period tenant_id period) now_ms s.reservations
unfolding tenant_active_reserved_for
tenant_active_reserved_for_exact s tenant_id period now_ms h =
    sum_reserved_exact (in_tenant_period tenant_id period) now_ms s.reservations h

pub held_total-append :
    (p : Reservation → Bool) (now_ms : ℤ) (rows : List Reservation) (row : Reservation)
    → held_total p now_ms (rows ++ row ∷ [])
      ≡ held_total p now_ms rows
        +ℤ (if p row && is_held now_ms row then row.reserved_minor else pos 0)
held_total-append p now_ms [] row =
    let own = if p row && is_held now_ms row then row.reserved_minor else pos 0 in
    +ℤ_zero own ∙ sym (zero_+ℤ own)
held_total-append p now_ms (x ∷ rows) row =
    let first = if p x && is_held now_ms x then x.reserved_minor else pos 0 in
    let own = if p row && is_held now_ms row then row.reserved_minor else pos 0 in
    rw (held_total-append p now_ms rows row) (sym (+ℤ_assoc first (held_total p now_ms rows) own))

not_held :
    (b : Bool) (row : Reservation) (swept_ms now_ms : ℤ)
    → swept_ms ≤ℤ now_ms
    → b && is_active row.status && leb_ℤ row.expires_at_ms swept_ms ≡ true
    → is_held now_ms row ≡ false
not_held b row swept_ms now_ms h e = ground arith

-- A reservation that has lapsed holds nothing, swept or not.
lapsed_share :
    (b q : Bool) (row : Reservation) (swept_ms now_ms : ℤ)
    → swept_ms ≤ℤ now_ms
    → let after =
        if b && is_active row.status && leb_ℤ row.expires_at_ms swept_ms
        then record row { status = expired }
        else row in
      (if q && is_held now_ms after then after.reserved_minor else pos 0)
      ≡ (if q && is_held now_ms row then row.reserved_minor else pos 0)
lapsed_share b q row swept_ms now_ms h =
    elim (Bool-cases (b && is_active row.status && leb_ℤ row.expires_at_ms swept_ms)) [
      | inr e ↦ rw e refl
      | inl e ↦ rw (e, not_held b row swept_ms now_ms h e) (nothing q)
    ]
  where
    nothing :
        (q : Bool)
        → (if q && false then row.reserved_minor else pos 0)
          ≡ (if q && false then row.reserved_minor else pos 0)
    nothing q = refl

held_total-map :
    (p b : Reservation → Bool) (swept_ms now_ms : ℤ)
    → Stable p
    → swept_ms ≤ℤ now_ms
    → (rows : List Reservation)
    → held_total p now_ms (
        map
          (λ row.
            if b row && is_active row.status && leb_ℤ row.expires_at_ms swept_ms
            then record row { status = expired }
            else row)
          rows)
      ≡ held_total p now_ms rows
held_total-map p b swept_ms now_ms st h [] = refl
held_total-map p b swept_ms now_ms st h (row ∷ rows) =
    let keeps =
      Keeps-if (λ r. b r && is_active r.status && leb_ℤ r.expires_at_ms swept_ms)
        (record {
          id = λ r. refl;
          scope = λ r. refl;
          period = λ r. refl;
          tenant_period = λ r. refl;
        }) in
    rw
      (
        st
            (λ r.
              if b r && is_active r.status && leb_ℤ r.expires_at_ms swept_ms
              then record r { status = expired }
              else r)
            keeps row,
        held_total-map p b swept_ms now_ms st h rows,
        lapsed_share (b row) (p row) row swept_ms now_ms h,
      )
      refl

-- A sweep frees nothing that was held.
pub held_total-sweep_expired_scope :
    (p : Reservation → Bool) (s : Store) (scope : BudgetScope) (period : Text) (swept_ms now_ms : ℤ)
    → Stable p
    → swept_ms ≤ℤ now_ms
    → held_total p now_ms (sweep_expired_scope s scope period swept_ms).reservations
      ≡ held_total p now_ms s.reservations
unfolding sweep_expired_scope
held_total-sweep_expired_scope p s scope period swept_ms now_ms st h =
    held_total-map p (in_scope_period scope period) swept_ms now_ms st h s.reservations
