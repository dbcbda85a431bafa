-- ===== src/Tenancy/Budget/Admit/Refusals.antt =====
-- crates/idoris-tenancy/src/budget/ledger.rs: what a refused reservation leaves behind.
use i_doris.Prelude.{◌≡◌, refl, ◌∙◌, Bool, true, false, ◌&&◌, some, arith, if◌then◌else◌, ap}
use i_doris.Prelude.Int.{ℤ, pos, ◌+ℤ◌, ltb_ℤ, leb_ℤ, ◌≤ℤ◌}
use i_doris.Prelude.Equality.{Text}
use i_doris.Prelude.Results.{ok, err, ◌>>=◌}
use i_doris.Tenancy.Budget.Amount.Sums.{+ℤ_zero}
use i_doris.Tenancy.Budget.Types.{BudgetScope, Price, BudgetError, is_active, active}
use i_doris.Tenancy.Budget.Period.{TimeZones}
use i_doris.Tenancy.Budget.Store.{
  Store, Reservation, spent_for, tenant_spent_for, in_scope_period, in_tenant_period,
  sweep_expired_scope, reject_if,
}
use i_doris.Tenancy.Budget.Store.Rows.{Stable}
use i_doris.Tenancy.Budget.Store.Held.{
  held_total, held_total-append, held_total-sweep_expired_scope,
}
use i_doris.Tenancy.Budget.Accounts.{in_scope_period-Stable, in_tenant_period-Stable}
use i_doris.Tenancy.Budget.Admit.{Draws, reserve, reserved_id, check_reservation_deadline}
use i_doris.Tenancy.Budget.Admit.Endings.{
  rolled_back, over, checked, persisted, admit-AdmitEnd, row_of, swept,
}

missed_deadline :
    (b : Bool) (e : BudgetError) (given : Text) {f : BudgetError}
    → reserved_id (reject_if b e >>= λ _. ok (some given)) ≡ err f
    → b ≡ true
missed_deadline true e given h = refl
missed_deadline false e given h = cc

-- A row that has expired holds nothing.
no_share :
    (b : Bool) (cost expires after now : ℤ)
    → leb_ℤ expires after ≡ true
    → after ≤ℤ now
    → (if b && (is_active active && ltb_ℤ now expires) then cost else pos 0) ≡ pos 0
no_share false cost expires after now h k = refl
no_share true cost expires after now h k = ground arith

module _ (zones : TimeZones) (ttl_ms : ℤ) (s : Store) (scope : BudgetScope) (price : Price)
    (draws : Draws) {e : BudgetError}
    (refused : (reserve zones ttl_ms s scope price draws).1 ≡ err e) (now_ms : ℤ)
    (later : draws.now_ms ≤ℤ now_ms) (after : draws.after_commit_ms ≤ℤ now_ms) where
  refused_held :
      (p : Reservation → Bool)
      → Stable p
      → held_total p now_ms (reserve zones ttl_ms s scope price draws).0.reservations
        ≡ held_total p now_ms s.reservations
  unfolding reserve check_reservation_deadline
  refused_held p st = elim (admit-AdmitEnd zones s scope price draws ttl_ms true) [
    | rolled_back r q ↦ rw q refl
    | over r f q ↦
        rw q (held_total-sweep_expired_scope p s scope r.period draws.now_ms now_ms st later)
    | checked r f w q ↦ absurd (cc)
    | persisted w c ↦
        let r = c.request in
        let row = row_of zones s scope price draws r c.expires_at_ms in
        let late = missed_deadline _ _ draws.id (rw c.is_end at refused) in
        rw c.is_end (
          held_total-append p now_ms (swept zones s scope price draws r).reservations row
          ∙ ap (λ x. held_total p now_ms (swept zones s scope price draws r).reservations +ℤ x)
              (no_share (p row) r.cost c.expires_at_ms draws.after_commit_ms now_ms late after)
          ∙ +ℤ_zero (held_total p now_ms (swept zones s scope price draws r).reservations)
          ∙ held_total-sweep_expired_scope p s scope r.period draws.now_ms now_ms st later)
  ]

  refused_spent :
      ((reserve zones ttl_ms s scope price draws).0.budget_periods ≡ s.budget_periods)
      × ((reserve zones ttl_ms s scope price draws).0.tenant_periods ≡ s.tenant_periods)
  unfolding reserve sweep_expired_scope
  refused_spent = elim (admit-AdmitEnd zones s scope price draws ttl_ms true) [
    | rolled_back r q ↦ rw q (refl, refl)
    | over r f q ↦ rw q (refl, refl)
    | checked r f w q ↦ absurd (cc)
    | persisted w c ↦ rw c.is_end (refl, refl)
  ]

-- A call of `reserve` that fails, in whatever way, holds and spends nothing: from the moment it has
-- returned, what active reservations hold is as it was without the call, in every scope and for
-- every tenant and period, and so is what is spent.
pub reserve_refused :
    (zones : TimeZones) (ttl_ms : ℤ) (s : Store) (scope : BudgetScope) (price : Price)
    (draws : Draws) (e : BudgetError) (now_ms : ℤ) (account : BudgetScope) (tenant_id period : Text)
    → (reserve zones ttl_ms s scope price draws).1 ≡ err e
    → draws.now_ms ≤ℤ now_ms
    → draws.after_commit_ms ≤ℤ now_ms
    → let s' = (reserve zones ttl_ms s scope price draws).0 in
      (held_total (in_scope_period account period) now_ms s'.reservations
        ≡ held_total (in_scope_period account period) now_ms s.reservations)
      × (held_total (in_tenant_period tenant_id period) now_ms s'.reservations
          ≡ held_total (in_tenant_period tenant_id period) now_ms s.reservations)
      × (spent_for s' account period ≡ spent_for s account period)
      × (tenant_spent_for s' tenant_id period ≡ tenant_spent_for s tenant_id period)
unfolding spent_for tenant_spent_for
reserve_refused zones ttl_ms s scope price draws e now_ms account tenant_id period h later after =
    let (b, t) = refused_spent zones ttl_ms s scope price draws h now_ms later after in
    (
      refused_held zones ttl_ms s scope price draws h now_ms later after
          (in_scope_period account period) (in_scope_period-Stable account period),
      refused_held zones ttl_ms s scope price draws h now_ms later after
          (in_tenant_period tenant_id period) (in_tenant_period-Stable tenant_id period),
      rw b refl,
      rw t refl,
    )
