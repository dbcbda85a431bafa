-- ===== src/Tenancy/Budget/Accounts.antt =====
-- crates/idoris-tenancy/src/budget/ledger.rs: the totals of spending, seen from the reservations. An
-- account is the sum of what its settled reservations have cost.
pub mod Steps
pub mod History
pub mod Book
use i_doris.Prelude.{
  ◌≡◌, refl, sym, ◌∙◌, Bool, true, false, Option, none, some, List, [], ◌∷◌, ◌++◌, map, any, Memᴰ,
  if◌then◌else◌, arith, ap, Bool-cases, inl, inr, any_intro,
}
use i_doris.Prelude.Equality.{Text, text_eq, text_eq_refl, text_eq_iff}
use i_doris.Prelude.Int.{ℤ, pos, ◌+ℤ◌, +ℤ_parts, eq_of_parts, int_laws}
use i_doris.Tenancy.Budget.Amount.Sums.{+ℤ_zero, zero_+ℤ, +ℤ_assoc}
use i_doris.Tenancy.Budget.Types.{
  BudgetScope, ReservationStatus, active, settled, released, expired,
}
use i_doris.Tenancy.Budget.Store.{
  Store, Reservation, or_zero, spent_for, tenant_spent_for, in_scope_period, in_tenant_period,
  has_id, update_rows,
}
use i_doris.Tenancy.Budget.Store.Rows.{IsDistinct, Keeps, Stable, update_rows_absent}

abbrev pub cost_if_settled : ReservationStatus → Option ℤ → ℤ
cost_if_settled settled cost = or_zero cost
cost_if_settled _ cost = pos 0

abbrev pub cost_of : Reservation → ℤ
cost_of row = cost_if_settled row.status row.actual_cost_minor

abbrev pub share : (Reservation → Bool) → Reservation → ℤ
share p row = if p row then cost_of row else pos 0

abbrev pub charged : (Reservation → Bool) → List Reservation → ℤ
charged p [] = pos 0
charged p (row ∷ rows) = share p row +ℤ charged p rows

-- Every total of spending is what the settled reservations of its scope, or of its tenant, and of
-- its period have cost; an identity stands for one reservation.
pub record IsBalanced (s : Store) : Type 0 where
  pub distinct : IsDistinct s.reservations
  pub scope_totals :
      (scope : BudgetScope) (period : Text)
      → spent_for s scope period ≡ charged (in_scope_period scope period) s.reservations
  pub tenant_totals :
      (tenant_id period : Text)
      → tenant_spent_for s tenant_id period
        ≡ charged (in_tenant_period tenant_id period) s.reservations

pub in_scope_period-Stable :
    (scope : BudgetScope) (period : Text) → Stable (in_scope_period scope period)
in_scope_period-Stable scope period change k row = rw (k.scope row, k.period row) refl

pub in_tenant_period-Stable : (tenant_id period : Text) → Stable (in_tenant_period tenant_id period)
in_tenant_period-Stable tenant_id period change k row = rw (k.scope row, k.tenant_period row) refl

-- A change of the rows that moves no cost moves no account.
pub charged-map :
    (p : Reservation → Bool) {change : Reservation → Reservation}
    → Stable p
    → Keeps change
    → ((row : Reservation) → cost_of (change row) ≡ cost_of row)
    → (rows : List Reservation) → charged p (map change rows) ≡ charged p rows
charged-map p st k same [] = refl
charged-map p {change} st k same (row ∷ rows) =
    rw (st change k row, same row, charged-map p st k same rows) refl

pub charged-append :
    (p : Reservation → Bool) (rows : List Reservation) (row : Reservation)
    → cost_of row ≡ pos 0
    → charged p (rows ++ row ∷ []) ≡ charged p rows
charged-append p [] row h = alone (p row)
  where
    alone : (b : Bool) → (if b then cost_of row else pos 0) +ℤ pos 0 ≡ pos 0
    alone true = rw h (+ℤ_zero (pos 0))
    alone false = +ℤ_zero (pos 0)
charged-append p (x ∷ rows) row h = rw (charged-append p rows row h) refl

swapped : (a b : ℤ) → a +ℤ b ≡ pos 0 +ℤ b +ℤ a
swapped a b = grind int_laws

charged-update_here :
    (p : Reservation → Bool) {change : Reservation → Reservation}
    → Stable p
    → Keeps change
    → (rows : List Reservation) (row : Reservation) → any (has_id row.id) rows ≡ false
    → cost_of row ≡ pos 0
    → charged p (update_rows row.id change (row ∷ rows))
      ≡ charged p (row ∷ rows) +ℤ (if p row then cost_of (change row) else pos 0)
charged-update_here p {change} st k rows row d z =
    rw (text_eq_refl row.id, update_rows_absent row.id change rows d, st change k row)
      (moved (p row))
  where
    moved :
        (b : Bool)
        → (if b then cost_of (change row) else pos 0) +ℤ charged p rows
          ≡ (if b then cost_of row else pos 0)
            +ℤ charged p rows
            +ℤ (if b then cost_of (change row) else pos 0)
    moved true = rw z (swapped (cost_of (change row)) (charged p rows))
    moved false = swapped (pos 0) (charged p rows)

apart :
    (x row : Reservation) (rows : List Reservation)
    → any (has_id x.id) rows ≡ false
    → Memᴰ row rows
    → has_id row.id x ≡ false
apart x row rows d m = elim (Bool-cases (text_eq x.id row.id)) [
  | inl h ↦
      let e = (text_eq_iff x.id row.id).0 h in
      let q = any_intro (has_id x.id) rows m ((text_eq_iff row.id x.id).1 (sym e)) in cc
  | inr h ↦ h
]

-- An update by identity moves an account by the change of the one row that has it.
pub charged-update_rows :
    (p : Reservation → Bool) {change : Reservation → Reservation}
    → Stable p
    → Keeps change
    → (rows : List Reservation) (row : Reservation) → IsDistinct rows
    → Memᴰ row rows
    → cost_of row ≡ pos 0
    → charged p (update_rows row.id change rows)
      ≡ charged p rows +ℤ (if p row then cost_of (change row) else pos 0)
charged-update_rows p st k (x ∷ rows) row d (Memᴰ.head e) z =
    rw (← e) (charged-update_here p st k rows row (rw e d.0) z)
charged-update_rows p {change} st k (x ∷ rows) row d (Memᴰ.tail m) z =
    rw (apart x row rows d.0 m, charged-update_rows p st k rows row d.1 m z)
      (sym (+ℤ_assoc (share p x) (charged p rows) (if p row then cost_of (change row) else pos 0)))
charged-update_rows p st k [] row d m z = elim m [ ]
