-- ===== src/Tenancy/Budget/Configure.antt =====
-- crates/idoris-tenancy/src/budget/ledger.rs: limits and time zones of scopes and of tenants. The
-- reading of the clock, `now_ms`, is an argument.
pub mod Endings
pub mod Agreement
pub mod Written
pub mod History
use i_doris.Prelude.{
  ℕ, ◌+◌, ◌-◌, Bool, true, false, not, ◌&&◌, ◌||◌, Option, none, some, List, [], ◌∷◌, ◌++◌, map,
  filter, any, length, if◌then◌else◌,
}
use i_doris.Prelude.Equality.{Text, text_eq, text_equality, codes}
use i_doris.Prelude.Int.{ℤ, pos, ltb_ℤ}
use i_doris.Prelude.Results.{Result, ok, err, ◌>>=◌}
use i_doris.Tenancy.Budget.Zones.{is_iana_time_zone}
use i_doris.Tenancy.Budget.Types.{
  BudgetScope, SpendGate, ScopeConfig, TenantConfig, BudgetError, invalid_scope, invalid_limit,
  invalid_time_zone, invalid_config, time_zone_change_with_active_reservations,
}
use i_doris.Tenancy.Budget.Keys.{Entry, scope_equality, upsert}
use i_doris.Tenancy.Budget.Store.{
  Store, Answered, transact, reject_if, is_blank, validate_scope, load_config, load_tenant_config,
  has_active_reservations_for_scope, has_active_reservations_for_tenant, sibling_sub_scope_timezone,
}

-- Every zone that a tenant's configurations name is the same one.
abbrev pub agree : Text → Text → Option Text → Result BudgetError (Unit {0})
agree tenant_id requested none = ok tt
agree tenant_id requested (some existing) =
    reject_if (not (text_eq existing requested)) (invalid_config tenant_id existing requested)

abbrev pub zone_of_tenant : Option TenantConfig → Option Text
zone_of_tenant none = none
zone_of_tenant (some config) = some config.billing_timezone

abbrev pub zone_of_scope : Option ScopeConfig → Option Text
zone_of_scope none = none
zone_of_scope (some config) = some config.billing_timezone

abbrev pub changes_zone : Text → Option Text → Bool
changes_zone requested none = false
changes_zone requested (some existing) = not (text_eq existing requested)

abbrev pub configuring :
    Store → BudgetScope → ℤ → Text → ℤ → Result BudgetError (Answered (Unit {0}))
configuring s scope limit_minor billing_timezone now_ms = do
  _ ← validate_scope scope
  _ ← reject_if (ltb_ℤ limit_minor (pos 0)) (invalid_limit limit_minor)
  _ ← reject_if (not (is_iana_time_zone billing_timezone)) (invalid_time_zone billing_timezone)
  _ ← agree scope.tenant_id billing_timezone (zone_of_tenant (load_tenant_config s scope.tenant_id))
  _ ←
      agree scope.tenant_id billing_timezone
        (sibling_sub_scope_timezone s scope.tenant_id (some scope))
  _ ←
      reject_if
        (changes_zone billing_timezone (zone_of_scope (load_config s scope))
          && has_active_reservations_for_scope s scope now_ms)
        time_zone_change_with_active_reservations
  let config : ScopeConfig = record {
    limit_minor = limit_minor;
    billing_timezone = billing_timezone;
  }
  ok (record s { budget_config = upsert scope config s.budget_config }, ok tt)

unfoldable pub configure : Store → BudgetScope → ℤ → Text → ℤ → Answered (Unit {0})
configure s scope limit_minor billing_timezone now_ms =
    transact s (configuring s scope limit_minor billing_timezone now_ms)

abbrev pub configuring_tenant :
    Store → Text → ℤ → Text → SpendGate → ℤ → Result BudgetError (Answered (Unit {0}))
configuring_tenant s tenant_id limit_minor billing_timezone gate now_ms = do
  _ ← reject_if (is_blank tenant_id) (invalid_scope (codes "tenant_id"))
  _ ← reject_if (ltb_ℤ limit_minor (pos 0)) (invalid_limit limit_minor)
  _ ← reject_if (not (is_iana_time_zone billing_timezone)) (invalid_time_zone billing_timezone)
  _ ← agree tenant_id billing_timezone (sibling_sub_scope_timezone s tenant_id none)
  _ ←
      reject_if
        (changes_zone billing_timezone (zone_of_tenant (load_tenant_config s tenant_id))
          && has_active_reservations_for_tenant s tenant_id now_ms)
        time_zone_change_with_active_reservations
  let config : TenantConfig = record {
    limit_minor = limit_minor;
    billing_timezone = billing_timezone;
    gate = gate;
  }
  ok (record s { tenant_config = upsert tenant_id config s.tenant_config }, ok tt)

unfoldable pub configure_tenant : Store → Text → ℤ → Text → SpendGate → ℤ → Answered (Unit {0})
configure_tenant s tenant_id limit_minor billing_timezone gate now_ms =
    transact s (configuring_tenant s tenant_id limit_minor billing_timezone gate now_ms)

abbrev pub distinct : List Text → List Text
distinct [] = []
distinct (t ∷ ts) = let rest = distinct ts in if any (text_eq t) ts then rest else t ∷ rest

-- The tenants that are configured and not kept.
pub stale_tenants : Store → List Text → List Text
stale_tenants s keep =
    filter (λ t. not (any (text_eq t) keep))
      (distinct (
        map (λ (row : Entry Text TenantConfig). row.key) s.tenant_config
        ++ map (λ (row : Entry BudgetScope ScopeConfig). row.key.tenant_id) s.budget_config))

abbrev pub delete_tenant : Text → Store → Store
delete_tenant tenant_id s = record s {
  budget_config =
      filter (λ (row : Entry BudgetScope ScopeConfig). not (text_eq row.key.tenant_id tenant_id))
        s.budget_config;
  tenant_config =
      filter (λ (row : Entry Text TenantConfig). not (text_eq row.key tenant_id)) s.tenant_config;
}

abbrev pub delete_tenants : List Text → Store → Store
delete_tenants [] s = s
delete_tenants (t ∷ ts) s = delete_tenants ts (delete_tenant t s)

unfoldable pub retain_tenants : Store → List Text → Answered ℕ
retain_tenants s keep =
    let stale = stale_tenants s keep in (delete_tenants stale s, ok (length stale))
