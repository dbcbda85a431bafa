-- ===== src/Tenancy/Budget/Views.antt =====
-- crates/idoris-tenancy/src/budget/ledger.rs: what is left of a budget. A view reads and writes
-- nothing.
use i_doris.Prelude.{Option, none, some}
use i_doris.Prelude.Equality.{Text, codes}
use i_doris.Prelude.Int.{ℤ}
use i_doris.Prelude.Results.{Result, ok, err, ◌>>=◌}
use i_doris.Tenancy.Budget.Amount.{checked_add_i64, checked_sub_i64}
use i_doris.Tenancy.Budget.Types.{
  BudgetScope, TenantBudgetReadView, BudgetError, not_configured, tenant_not_configured,
  invalid_scope,
}
use i_doris.Tenancy.Budget.Period.{TimeZones, billing_period_key}
use i_doris.Tenancy.Budget.Store.{
  Store, reject_if, is_blank, load_config, load_tenant_config, spent_for, tenant_spent_for,
  active_reserved_for, tenant_active_reserved_for,
}

abbrev pub ok_or : {A : Type 0} → Option A → BudgetError → Result BudgetError A
ok_or none e = err e
ok_or (some a) e = ok a

module _ (zones : TimeZones) where
  unfoldable pub balance : Store → BudgetScope → ℤ → Result BudgetError ℤ
  balance s scope now_ms = do
    config ← ok_or (load_config s scope) (not_configured scope)
    period ← billing_period_key zones now_ms config.billing_timezone
    let spent = spent_for s scope period
    reserved ← active_reserved_for s scope period now_ms
    ok (checked_sub_i64 config.limit_minor (checked_add_i64 spent reserved))

  unfoldable pub tenant_balance : Store → Text → ℤ → Result BudgetError ℤ
  tenant_balance s tenant_id now_ms = do
    config ← ok_or (load_tenant_config s tenant_id) (tenant_not_configured tenant_id)
    period ← billing_period_key zones now_ms config.billing_timezone
    let spent = tenant_spent_for s tenant_id period
    reserved ← tenant_active_reserved_for s tenant_id period now_ms
    ok (checked_sub_i64 config.limit_minor (checked_add_i64 spent reserved))

  unfoldable pub tenant_readview : Store → Text → ℤ → Result BudgetError TenantBudgetReadView
  tenant_readview s tenant_id now_ms = do
    _ ← reject_if (is_blank tenant_id) (invalid_scope (codes "tenant_id"))
    config ← ok_or (load_tenant_config s tenant_id) (tenant_not_configured tenant_id)
    period ← billing_period_key zones now_ms config.billing_timezone
    let spent = tenant_spent_for s tenant_id period
    reserved ← tenant_active_reserved_for s tenant_id period now_ms
    let remaining = checked_sub_i64 config.limit_minor spent
    let available = checked_sub_i64 remaining reserved
    ok (record {
      tenant_id = tenant_id;
      period = period;
      limit_minor = config.limit_minor;
      spent_minor = spent;
      reserved_minor = reserved;
      remaining_minor = remaining;
      available_minor = available;
      billing_timezone = config.billing_timezone;
      scope = config.gate;
    })
