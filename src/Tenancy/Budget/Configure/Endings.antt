-- ===== src/Tenancy/Budget/Configure/Endings.antt =====
-- crates/idoris-tenancy/src/budget/ledger.rs: how `configure` and `configure_tenant` end.
use i_doris.Prelude.{◌≡◌, refl, Bool, true, false, not, ◌&&◌, Option, none, some, inl, inr, ◌⊎◌}
use i_doris.Prelude.Int.{ℤ, pos, ltb_ℤ}
use i_doris.Prelude.Equality.{Text, text_eq, text_equality, codes}
use i_doris.Prelude.Results.{Result, ok, err, >>=-eq-ok, Result-cases}
use i_doris.Tenancy.Budget.Zones.{is_iana_time_zone}
use i_doris.Tenancy.Budget.Types.{
  BudgetScope, SpendGate, BudgetError, invalid_limit, invalid_time_zone, invalid_scope,
  time_zone_change_with_active_reservations,
}
use i_doris.Tenancy.Budget.Keys.{scope_equality, upsert}
use i_doris.Tenancy.Budget.Store.{
  Store, Answered, reject_if, is_blank, validate_scope, load_config, load_tenant_config,
  has_active_reservations_for_scope, has_active_reservations_for_tenant, sibling_sub_scope_timezone,
}
use i_doris.Tenancy.Budget.Store.Rows.{reject_if-ok}
use i_doris.Tenancy.Budget.Configure.{
  agree, changes_zone, zone_of_tenant, zone_of_scope, configuring, configuring_tenant, configure,
  configure_tenant,
}

-- The zone, where there is one, is the one asked for.
abbrev pub IsZone : Text → Option Text → Type 0
IsZone zone none = Unit {0}
IsZone zone (some existing) = existing ≡ zone

same_zone : (b : Bool) → not b ≡ false → b ≡ true
same_zone true h = refl
same_zone false h = cc

agree-IsZone :
    (tenant zone : Text) (o : Option Text) {u : Unit {0}}
    → agree tenant zone o ≡ ok u
    → IsZone zone o
agree-IsZone tenant zone none h = tt
agree-IsZone tenant zone (some existing) h =
    (text_equality.same_iff existing zone).0
      (same_zone (text_eq existing zone) (reject_if-ok (not (text_eq existing zone)) _ h))

ok_eq : {A B : Type 0} {a b : B} → ◌≡◌ {A = Result A B} (ok a) (ok b) → b ≡ a
ok_eq q = cc

-- The configuration of a scope was written.
pub record Configured (s : Store) (scope : BudgetScope) (limit : ℤ) (zone : Text)
    (answer : Answered (Unit {0})) : Type 0 where
  pub not_negative : ltb_ℤ limit (pos 0) ≡ false
  pub tenant_zone : IsZone zone (zone_of_tenant (load_tenant_config s scope.tenant_id))
  pub sibling_zone : IsZone zone (sibling_sub_scope_timezone s scope.tenant_id (some scope))
  pub is_end : answer ≡ (
    record s {
      budget_config =
          upsert scope (record { limit_minor = limit; billing_timezone = zone }) s.budget_config;
    },
    ok tt,
  )

configuring-Configured :
    (s : Store) (scope : BudgetScope) (limit : ℤ) (zone : Text) (now : ℤ)
    (answer : Answered (Unit {0}))
    → configuring s scope limit zone now ≡ ok answer
    → Configured s scope limit zone answer
configuring-Configured s scope limit zone now answer h =
    let (_, a, h1) = >>=-eq-ok (validate_scope scope) _ h in
    let (_, b, h2) = >>=-eq-ok (reject_if (ltb_ℤ limit (pos 0)) (invalid_limit limit)) _ h1 in
    let (_, c, h3) =
      >>=-eq-ok (reject_if (not (is_iana_time_zone zone)) (invalid_time_zone zone)) _ h2 in
    let (_, d, h4) =
      >>=-eq-ok (agree scope.tenant_id zone (zone_of_tenant (load_tenant_config s scope.tenant_id)))
        _ h3 in
    let (_, e, h5) =
      >>=-eq-ok
        (agree scope.tenant_id zone (sibling_sub_scope_timezone s scope.tenant_id (some scope))) _
        h4 in
    let (_, f, h6) =
      >>=-eq-ok
        (reject_if
          (changes_zone zone (zone_of_scope (load_config s scope))
            && has_active_reservations_for_scope s scope now)
          time_zone_change_with_active_reservations)
        _ h5 in
    record {
      not_negative = reject_if-ok (ltb_ℤ limit (pos 0)) _ b;
      tenant_zone =
          agree-IsZone scope.tenant_id zone (zone_of_tenant (load_tenant_config s scope.tenant_id))
            d;
      sibling_zone =
          agree-IsZone scope.tenant_id zone
            (sibling_sub_scope_timezone s scope.tenant_id (some scope)) e;
      is_end = ok_eq h6;
    }

pub configure-cases :
    (s : Store) (scope : BudgetScope) (limit : ℤ) (zone : Text) (now : ℤ)
    → ((e : BudgetError) × (configure s scope limit zone now ≡ (s, err e)))
      ⊎ Configured s scope limit zone (configure s scope limit zone now)
unfolding configure
configure-cases s scope limit zone now = elim (Result-cases (configuring s scope limit zone now)) [
  | inl (e, q) ↦ inl (e, rw q refl)
  | inr (answer, q) ↦ inr (rw q (configuring-Configured s scope limit zone now answer q))
]

-- The configuration of a tenant was written.
pub record TenantConfigured (s : Store) (tenant : Text) (limit : ℤ) (zone : Text) (gate : SpendGate)
    (answer : Answered (Unit {0})) : Type 0 where
  pub not_negative : ltb_ℤ limit (pos 0) ≡ false
  pub sibling_zone : IsZone zone (sibling_sub_scope_timezone s tenant none)
  pub is_end : answer ≡ (
    record s {
      tenant_config =
          upsert tenant
            (record { limit_minor = limit; billing_timezone = zone; gate = gate })
            s.tenant_config;
    },
    ok tt,
  )

configuring_tenant-TenantConfigured :
    (s : Store) (tenant : Text) (limit : ℤ) (zone : Text) (gate : SpendGate) (now : ℤ)
    (answer : Answered (Unit {0}))
    → configuring_tenant s tenant limit zone gate now ≡ ok answer
    → TenantConfigured s tenant limit zone gate answer
configuring_tenant-TenantConfigured s tenant limit zone gate now answer h =
    let (_, a, h1) =
      >>=-eq-ok (reject_if (is_blank tenant) (invalid_scope (codes "tenant_id"))) _ h in
    let (_, b, h2) = >>=-eq-ok (reject_if (ltb_ℤ limit (pos 0)) (invalid_limit limit)) _ h1 in
    let (_, c, h3) =
      >>=-eq-ok (reject_if (not (is_iana_time_zone zone)) (invalid_time_zone zone)) _ h2 in
    let (_, d, h4) =
      >>=-eq-ok (agree tenant zone (sibling_sub_scope_timezone s tenant none)) _ h3 in
    let (_, e, h5) =
      >>=-eq-ok
        (reject_if
          (changes_zone zone (zone_of_tenant (load_tenant_config s tenant))
            && has_active_reservations_for_tenant s tenant now)
          time_zone_change_with_active_reservations)
        _ h4 in
    record {
      not_negative = reject_if-ok (ltb_ℤ limit (pos 0)) _ b;
      sibling_zone = agree-IsZone tenant zone (sibling_sub_scope_timezone s tenant none) d;
      is_end = ok_eq h5;
    }

pub configure_tenant-cases :
    (s : Store) (tenant : Text) (limit : ℤ) (zone : Text) (gate : SpendGate) (now : ℤ)
    → ((e : BudgetError) × (configure_tenant s tenant limit zone gate now ≡ (s, err e)))
      ⊎ TenantConfigured s tenant limit zone gate (configure_tenant s tenant limit zone gate now)
unfolding configure_tenant
configure_tenant-cases s tenant limit zone gate now =
    elim (Result-cases (configuring_tenant s tenant limit zone gate now)) [
      | inl (e, q) ↦ inl (e, rw q refl)
      | inr (answer, q) ↦
          inr (rw q (configuring_tenant-TenantConfigured s tenant limit zone gate now answer q))
    ]
