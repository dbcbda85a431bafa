-- ===== src/Tenancy/Budget/Store.antt =====
-- crates/idoris-tenancy/src/budget/ledger.rs: the tables of the ledger as lists of rows, and the
-- statements on them. A list has the order in which rows are found. A statement that inserts fails
-- where its primary key is taken. The column `status` is kept as the value that its text stands for.
pub mod Rows
pub mod Held
use i_doris.Prelude.{
  ℕ, Bool, true, false, not, ◌&&◌, ◌||◌, Option, none, some, List, [], ◌∷◌, ◌++◌, map, filter, any,
  is_empty, if◌then◌else◌,
}
use i_doris.Prelude.Equality.{Text, text_eq, text_equality, codes}
use i_doris.Prelude.Text.{trim_matches, is_whitespace}
use i_doris.Prelude.Int.{ℤ, pos, ltb_ℤ, leb_ℤ}
use i_doris.Prelude.Results.{Result, ok, err, ◌>>=◌}
use i_doris.Tenancy.Budget.Amount.{sum_from, checked_sub_i64}
use i_doris.Tenancy.Budget.Types.{
  BudgetScope, ReservationStatus, active, settled, released, expired, SpendGate, paid_only, every,
  ScopeConfig, TenantConfig, BudgetError, storage, amount_overflow, invalid_scope, not_configured,
  reservation_not_found, tenant_mismatch, is_active, is_paid_only,
}
use i_doris.Tenancy.Budget.Keys.{
  Entry, PeriodKey, scope_eq, scope_equality, period_equality, select, upsert,
}

pub record Reservation : Type 0 where
  pub id : Text
  pub scope : BudgetScope
  pub period : Text
  pub tenant_period : Text
  pub reserved_minor : ℤ
  pub status : ReservationStatus
  pub created_at_ms : ℤ
  pub expires_at_ms : ℤ
  pub actual_cost_minor : Option ℤ

pub record OverageEvent : Type 0 where
  pub id : Text
  pub tenant_id : Text
  pub reservation_id : Text
  pub reserved_minor : ℤ
  pub actual_cost_minor : ℤ
  pub overage_minor : ℤ
  pub created_at_ms : ℤ

pub record AmountOverflow : Type 0 where
  pub reservation_id : Text
  pub tenant_id : Text
  pub actual_cost_minor : ℤ
  pub created_at_ms : ℤ

pub record Store : Type 0 where
  pub budget_config : List (Entry BudgetScope ScopeConfig)
  pub tenant_config : List (Entry Text TenantConfig)
  pub reservations : List Reservation
  pub budget_periods : List (Entry (PeriodKey BudgetScope) ℤ)
  pub tenant_periods : List (Entry (PeriodKey Text) ℤ)
  pub overage_events : List OverageEvent
  pub amount_overflows : List AmountOverflow

-- A transaction: an error that leaves it early rolls the store back; what it commits, with the
-- answer of the method, stays.
abbrev pub Answered : Type 0 → Type 0
Answered A = Store × Result BudgetError A

abbrev pub transact : {A : Type 0} → Store → Result BudgetError (Answered A) → Answered A
transact s (err e) = (s, err e)
transact s (ok committed) = committed

abbrev pub reject_if : Bool → BudgetError → Result BudgetError (Unit {0})
reject_if true e = err e
reject_if false e = ok tt

-- `value.trim().is_empty()`.
unfoldable pub is_blank : Text → Bool
is_blank value = is_empty (trim_matches is_whitespace value)

unfoldable pub validate_scope : BudgetScope → Result BudgetError (Unit {0})
validate_scope scope = do
  _ ← reject_if (is_blank scope.tenant_id) (invalid_scope (codes "tenant_id"))
  _ ← reject_if (is_blank scope.key_id) (invalid_scope (codes "key_id"))
  _ ← reject_if (is_blank scope.provider_id) (invalid_scope (codes "provider_id"))
  reject_if (is_blank scope.model_id) (invalid_scope (codes "model_id"))

unfoldable pub load_config : Store → BudgetScope → Option ScopeConfig
load_config s scope = select scope s.budget_config

unfoldable pub load_tenant_config : Store → Text → Option TenantConfig
load_tenant_config s tenant_id = select tenant_id s.tenant_config

abbrev pub or_zero : Option ℤ → ℤ
or_zero none = pos 0
or_zero (some amount) = amount

abbrev pub period_key : {Account : Type 0} → Account → Text → PeriodKey Account
period_key account period = record { account = account; period = period }

unfoldable pub spent_for : Store → BudgetScope → Text → ℤ
spent_for s scope period = or_zero (select (period_key scope period) s.budget_periods)

unfoldable pub tenant_spent_for : Store → Text → Text → ℤ
tenant_spent_for s tenant_id period =
    or_zero (select (period_key tenant_id period) s.tenant_periods)

-- Active and not yet expired: it counts against the balance.
abbrev pub is_held : ℤ → Reservation → Bool
is_held now_ms row = is_active row.status && ltb_ℤ now_ms row.expires_at_ms

abbrev pub sum_or_storage : Option ℤ → Result BudgetError ℤ
sum_or_storage none = err storage
sum_or_storage (some total) = ok total

abbrev pub sum_reserved : List Reservation → Option ℤ
sum_reserved rows = sum_from (pos 0) (map (λ (row : Reservation). row.reserved_minor) rows)

abbrev pub in_scope_period : BudgetScope → Text → Reservation → Bool
in_scope_period scope period row = scope_eq row.scope scope && text_eq row.period period

abbrev pub in_tenant_period : Text → Text → Reservation → Bool
in_tenant_period tenant_id period row =
    text_eq row.scope.tenant_id tenant_id && text_eq row.tenant_period period

unfoldable pub active_reserved_for : Store → BudgetScope → Text → ℤ → Result BudgetError ℤ
active_reserved_for s scope period now_ms = sum_or_storage (
    sum_reserved
      (filter (λ row. in_scope_period scope period row && is_held now_ms row) s.reservations))

unfoldable pub tenant_active_reserved_for : Store → Text → Text → ℤ → Result BudgetError ℤ
tenant_active_reserved_for s tenant_id period now_ms = sum_or_storage (
    sum_reserved
      (filter (λ row. in_tenant_period tenant_id period row && is_held now_ms row) s.reservations))

unfoldable pub has_active_reservations_for_scope : Store → BudgetScope → ℤ → Bool
has_active_reservations_for_scope s scope now_ms =
    any (λ (row : Reservation). scope_eq row.scope scope && is_held now_ms row) s.reservations

unfoldable pub has_active_reservations_for_tenant : Store → Text → ℤ → Bool
has_active_reservations_for_tenant s tenant_id now_ms =
    any (λ row. text_eq row.scope.tenant_id tenant_id && is_held now_ms row) s.reservations

-- The reservation, where it is the tenant's own; a row of another tenant is told from none.
abbrev pub is_own : Text → Text → Reservation → Bool
is_own tenant_id reservation_id row =
    text_eq row.id reservation_id && text_eq row.scope.tenant_id tenant_id

abbrev pub has_id : Text → Reservation → Bool
has_id reservation_id row = text_eq row.id reservation_id

abbrev pub first : {A : Type 0} → List A → Option A
first [] = none
first (row ∷ rows) = some row

abbrev pub found_or : Option Reservation → BudgetError → Result BudgetError Reservation
found_or (some row) e = ok row
found_or none e = err e

unfoldable pub find_reservation : Store → Text → Text → Result BudgetError Reservation
find_reservation s tenant_id reservation_id =
    found_or (first (filter (is_own tenant_id reservation_id) s.reservations)) (
      if any (has_id reservation_id) s.reservations
      then tenant_mismatch reservation_id
      else reservation_not_found reservation_id)

-- `UPDATE reservations SET … WHERE id`.
abbrev pub update_rows : Text → (Reservation → Reservation) → List Reservation → List Reservation
update_rows reservation_id change rows =
    map (λ row. if has_id reservation_id row then change row else row) rows

abbrev pub insert_reservation : Reservation → Store → Result BudgetError Store
insert_reservation row s =
    if any (has_id row.id) s.reservations
    then err storage
    else ok (record s { reservations = s.reservations ++ row ∷ [] })

unfoldable pub sweep_expired_scope : Store → BudgetScope → Text → ℤ → Store
sweep_expired_scope s scope period now_ms = record s {
  reservations =
      map
        (λ row.
          if in_scope_period scope period row
            && is_active row.status
            && leb_ℤ row.expires_at_ms now_ms
          then record row { status = expired }
          else row)
        s.reservations;
}

-- The pending record of an amount that a total could not take: any of the tenant's, or that of one
-- reservation.
abbrev pub is_pending : Text → Option Text → AmountOverflow → Bool
is_pending tenant_id none o = text_eq o.tenant_id tenant_id
is_pending tenant_id (some reservation_id) o =
    text_eq o.tenant_id tenant_id && text_eq o.reservation_id reservation_id

abbrev pub no_overflow : Option AmountOverflow → Result BudgetError (Unit {0})
no_overflow none = ok tt
no_overflow (some o) = err (amount_overflow o.reservation_id o.actual_cost_minor)

unfoldable pub reject_amount_overflow : Store → Text → Option Text → Result BudgetError (Unit {0})
reject_amount_overflow s tenant_id reservation_id =
    no_overflow (first (filter (is_pending tenant_id reservation_id) s.amount_overflows))

unfoldable pub exceeds_limit : ℤ → ℤ → ℤ → SpendGate → Bool
exceeds_limit estimated_cost_minor limit_minor committed gate =
    let balance = checked_sub_i64 limit_minor committed in
    if leb_ℤ estimated_cost_minor (pos 0)
      && leb_ℤ (pos 0) estimated_cost_minor
      && not (is_paid_only gate)
    then leb_ℤ balance (pos 0)
    else ltb_ℤ balance estimated_cost_minor

-- The zone that another scope of the tenant has.
abbrev pub is_other : Option BudgetScope → BudgetScope → Bool
is_other none scope = true
is_other (some ex) scope = not (
    text_eq ex.key_id scope.key_id
    && text_eq ex.provider_id scope.provider_id
    && text_eq ex.model_id scope.model_id)

abbrev pub sibling : Text → Option BudgetScope → List (Entry BudgetScope ScopeConfig) → Option Text
sibling tenant_id exclude [] = none
sibling tenant_id exclude (row ∷ rows) =
    if text_eq row.key.tenant_id tenant_id && is_other exclude row.key
    then some row.value.billing_timezone
    else sibling tenant_id exclude rows

unfoldable pub sibling_sub_scope_timezone : Store → Text → Option BudgetScope → Option Text
sibling_sub_scope_timezone s tenant_id exclude = sibling tenant_id exclude s.budget_config
