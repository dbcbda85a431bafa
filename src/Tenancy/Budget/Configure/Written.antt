-- ===== src/Tenancy/Budget/Configure/Written.antt =====
-- crates/idoris-tenancy/src/budget/ledger.rs: what a configuration writes or deletes keeps the zones
-- of a tenant agreed.
use i_doris.Prelude.{
  ◌≡◌, sym, ◌∙◌, Bool, true, false, not, Option, none, some, List, [], ◌∷◌, inl, inr, ◌⊎◌,
  Bool-cases, if◌then◌else◌, arith, some_eq, ap,
}
use i_doris.Prelude.Equality.{Text, text_eq, text_eq_iff, text_equality}
use i_doris.Tenancy.Budget.Types.{BudgetScope, ScopeConfig, TenantConfig}
use i_doris.Tenancy.Budget.Keys.{
  scope_eq, scope_eq_iff, scope_equality, select, upsert, select-upsert_same, select-upsert_ne,
  select-filter,
}
use i_doris.Tenancy.Budget.Store.{
  sibling_sub_scope_timezone, Store, load_config, load_tenant_config,
}
use i_doris.Tenancy.Budget.Configure.{zone_of_tenant, delete_tenant, delete_tenants}
use i_doris.Tenancy.Budget.Configure.Endings.{IsZone}
use i_doris.Tenancy.Budget.Configure.Agreement.{IsAgreed, all_siblings, speaks}

other_scope :
    (scope a : BudgetScope)
    → scope_eq scope a ≡ false
    → a.tenant_id ≡ scope.tenant_id
    → speaks scope.tenant_id (some scope) a ≡ true
other_scope scope a e f = ground (
  arith,
  (text_eq_iff scope.tenant_id a.tenant_id).1 (sym f),
  (text_eq_iff a.tenant_id scope.tenant_id).1 f,
)

zone_is :
    (zone : Text) (o : Option TenantConfig) {t : TenantConfig}
    → IsZone zone (zone_of_tenant o)
    → o ≡ some t
    → t.billing_timezone ≡ zone
zone_is zone none h e = absurd (cc)
zone_is zone (some x) h e = ap (λ (u : TenantConfig). u.billing_timezone) (sym (some_eq e)) ∙ h

module _ (s : Store) (scope : BudgetScope) (config : ScopeConfig) (h : IsAgreed s)
    (tenant_zone : IsZone config.billing_timezone
      (zone_of_tenant (load_tenant_config s scope.tenant_id)))
    (sibling_zone : IsZone config.billing_timezone
      (sibling_sub_scope_timezone s scope.tenant_id (some scope))) where
  abbrev pub with_scope : Store
  with_scope = record s { budget_config = upsert scope config s.budget_config }

  -- A scope of the tenant has the zone that is written, and a scope of another has what it had.
  written_zone :
      (a : BudgetScope) (c : ScopeConfig)
      → a.tenant_id ≡ scope.tenant_id
      → load_config with_scope a ≡ some c
      → c.billing_timezone ≡ config.billing_timezone
  unfolding load_config
  written_zone a c e g = elim (Bool-cases (scope_eq scope a)) [
    | inl f ↦
        let same = (scope_eq_iff scope a).0 f in
        let found : some config ≡ some c =
          sym (select-upsert_same scope config s.budget_config) ∙ (rw (← same) at g) in
        ap (λ (x : ScopeConfig). x.billing_timezone) (sym (some_eq found))
    | inr f ↦
        let g' =
          sym (
            select-upsert_ne a scope config s.budget_config
              (λ q. clash (scope_eq scope a) ((scope_eq_iff scope a).1 (sym q)) f))
          ∙ g in
        all_siblings s scope.tenant_id config.billing_timezone (some scope) a c h sibling_zone
          (other_scope scope a f e) g'
  ]
    where
      clash : (b : Bool) → b ≡ true → ¬ (b ≡ false)
      clash b h k = cc

  elsewhere :
      (a : BudgetScope) {c : ScopeConfig}
      → ¬ (a.tenant_id ≡ scope.tenant_id)
      → load_config with_scope a ≡ some c
      → load_config s a ≡ some c
  unfolding load_config
  elsewhere a ne g =
      sym (
        select-upsert_ne a scope config s.budget_config
          (λ q. ne (ap (λ (x : BudgetScope). x.tenant_id) q)))
      ∙ g

  own_tenant :
      (a : BudgetScope) → (a.tenant_id ≡ scope.tenant_id) ⊎ ¬ (a.tenant_id ≡ scope.tenant_id)
  own_tenant a = elim (Bool-cases (text_eq a.tenant_id scope.tenant_id)) [
    | inl e ↦ inl ((text_eq_iff a.tenant_id scope.tenant_id).0 e)
    | inr e ↦ inr (λ q. differ ((text_eq_iff a.tenant_id scope.tenant_id).1 q) e)
  ]
    where
      differ : {b : Bool} → b ≡ true → ¬ (b ≡ false)
      differ h k = cc

  pub with_scope-IsAgreed : IsAgreed with_scope
  unfolding load_tenant_config
  with_scope-IsAgreed = record {
    scopes_agree = λ a b c d e f g. elim (own_tenant a) [
      | inl own ↦ written_zone a c own f ∙ sym (written_zone b d (sym e ∙ own) g)
      | inr ne ↦ h.scopes_agree a b c d e (elsewhere a ne f) (elsewhere b (λ q. ne (e ∙ q)) g)
    ];
    tenant_agrees = λ a c t f g. elim (own_tenant a) [
      | inl own ↦
          written_zone a c own f
          ∙ sym (
              zone_is config.billing_timezone (load_tenant_config s scope.tenant_id) tenant_zone
                (rw own at g))
      | inr ne ↦ h.tenant_agrees a c t (elsewhere a ne f) g
    ];
  }

pub with_tenant-IsAgreed :
    (s : Store) (tenant : Text) (config : TenantConfig)
    → IsAgreed s
    → IsZone config.billing_timezone (sibling_sub_scope_timezone s tenant none)
    → IsAgreed (record s { tenant_config = upsert tenant config s.tenant_config })
unfolding load_config load_tenant_config
with_tenant-IsAgreed s tenant config h z = record {
  scopes_agree = λ a b c d e f g. h.scopes_agree a b c d e f g;
  tenant_agrees = λ a c t f g. elim (Bool-cases (text_eq tenant a.tenant_id)) [
    | inl e ↦
        let same = (text_eq_iff tenant a.tenant_id).0 e in
        let found : some config ≡ some t =
          sym (select-upsert_same tenant config s.tenant_config) ∙ (rw (← same) at g) in
        all_siblings s tenant config.billing_timezone none a c h z
          (ground (arith, (text_eq_iff a.tenant_id tenant).1 (sym same))) f
        ∙ ap (λ (x : TenantConfig). x.billing_timezone) (some_eq found)
    | inr e ↦ h.tenant_agrees a c t f (
        sym (
          select-upsert_ne a.tenant_id tenant config s.tenant_config
            (λ q. differ ((text_eq_iff tenant a.tenant_id).1 (sym q)) e))
        ∙ g)
  ];
}
  where
    differ : {b : Bool} → b ≡ true → ¬ (b ≡ false)
    differ h k = cc

-- What is found after a deletion was there before.
kept :
    {A : Type 0} (b : Bool) (o : Option A) {a : A} → (if b then o else none) ≡ some a → o ≡ some a
kept true o h = h
kept false o h = absurd (cc)

delete_tenant-IsAgreed : (s : Store) (t : Text) → IsAgreed s → IsAgreed (delete_tenant t s)
unfolding load_config load_tenant_config
delete_tenant-IsAgreed s t h =
    let keeps = λ (a : BudgetScope). not (text_eq a.tenant_id t) in
    let keeps_tenant = λ (a : Text). not (text_eq a t) in
    let scope_before : (a : BudgetScope) (c : ScopeConfig)
        → load_config (delete_tenant t s) a ≡ some c
        → load_config s a ≡ some c =
      λ a c f.
        kept (keeps a) (select a s.budget_config)
          (sym (select-filter keeps a s.budget_config) ∙ f) in
    record {
      scopes_agree =
          λ a b c d e f g. h.scopes_agree a b c d e (scope_before a c f) (scope_before b d g);
      tenant_agrees = λ a c u f g. h.tenant_agrees a c u (scope_before a c f) (
          kept (keeps_tenant a.tenant_id) (select a.tenant_id s.tenant_config)
            (sym (select-filter keeps_tenant a.tenant_id s.tenant_config) ∙ g));
    }

pub delete_tenants-IsAgreed :
    (stale : List Text) (s : Store) → IsAgreed s → IsAgreed (delete_tenants stale s)
delete_tenants-IsAgreed [] s h = h
delete_tenants-IsAgreed (t ∷ stale) s h =
    delete_tenants-IsAgreed stale (delete_tenant t s) (delete_tenant-IsAgreed s t h)
