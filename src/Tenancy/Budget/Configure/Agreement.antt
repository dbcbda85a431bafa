-- ===== src/Tenancy/Budget/Configure/Agreement.antt =====
-- crates/idoris-tenancy/src/budget/ledger.rs: every configuration of one tenant names one zone.
use i_doris.Prelude.{
  ◌≡◌, refl, sym, ◌∙◌, Bool, true, ◌&&◌, Option, some, List, [], ◌∷◌, inl, inr, Bool-cases, arith,
  some_eq,
}
use i_doris.Prelude.Equality.{Text, text_eq, text_eq_iff, text_equality}
use i_doris.Tenancy.Budget.Types.{BudgetScope, ScopeConfig, TenantConfig}
use i_doris.Tenancy.Budget.Keys.{Entry, scope_eq, scope_eq_iff, scope_equality, select}
use i_doris.Tenancy.Budget.Configure.Endings.{IsZone}
use i_doris.Tenancy.Budget.Store.{
  Store, load_config, load_tenant_config, sibling, sibling_sub_scope_timezone, is_other,
}

-- A row of the table of scopes speaks for the tenant and is not the one left out.
abbrev pub speaks : Text → Option BudgetScope → BudgetScope → Bool
speaks tenant exclude scope = text_eq scope.tenant_id tenant && is_other exclude scope

-- The zone of a tenant, as its own configuration and each of its scopes names it.
pub record IsAgreed (s : Store) : Type 0 where
  pub scopes_agree :
      (a b : BudgetScope) (c d : ScopeConfig)
      → a.tenant_id ≡ b.tenant_id
      → load_config s a ≡ some c
      → load_config s b ≡ some d
      → c.billing_timezone ≡ d.billing_timezone
  pub tenant_agrees :
      (a : BudgetScope) (c : ScopeConfig) (t : TenantConfig)
      → load_config s a ≡ some c
      → load_tenant_config s a.tenant_id ≡ some t
      → c.billing_timezone ≡ t.billing_timezone

-- A sibling that is found is configured.
record Sibling (tenant zone : Text) (exclude : Option BudgetScope)
    (rows : List (Entry BudgetScope ScopeConfig)) : Type 0 where
  scope : BudgetScope
  config : ScopeConfig
  speaking : speaks tenant exclude scope ≡ true
  configured : select scope rows ≡ some config
  same_zone : config.billing_timezone ≡ zone

sibling-Sibling :
    (tenant : Text) (exclude : Option BudgetScope) (rows : List (Entry BudgetScope ScopeConfig))
    {zone : Text}
    → sibling tenant exclude rows ≡ some zone
    → Sibling tenant zone exclude rows
sibling-Sibling tenant exclude [] h = absurd (cc)
sibling-Sibling tenant exclude (row ∷ rows) h = elim (Bool-cases (speaks tenant exclude row.key)) [
  | inl e ↦ record {
    scope = row.key;
    config = row.value;
    speaking = e;
    configured = rw ((scope_eq_iff row.key row.key).1 refl) refl;
    same_zone = some_eq (rw e at h);
  }
  | inr e ↦
      let later = sibling-Sibling tenant exclude rows (rw e at h) in
      record {
        scope = later.scope;
        config = later.config;
        speaking = later.speaking;
        configured = elim (Bool-cases (scope_eq row.key later.scope)) [
          | inl f ↦
              let same = (scope_eq_iff row.key later.scope).0 f in
              let q : speaks tenant exclude row.key ≡ true = rw same later.speaking in absurd (cc)
          | inr f ↦ rw f later.configured
        ];
        same_zone = later.same_zone;
      }
]

-- A scope that speaks for the tenant has a sibling found.
sibling_found :
    (tenant : Text) (exclude : Option BudgetScope) (rows : List (Entry BudgetScope ScopeConfig))
    (scope : BudgetScope) {config : ScopeConfig}
    → speaks tenant exclude scope ≡ true
    → select scope rows ≡ some config
    → (zone : Text) × (sibling tenant exclude rows ≡ some zone)
sibling_found tenant exclude [] scope h g = absurd (cc)
sibling_found tenant exclude (row ∷ rows) scope h g =
    elim (Bool-cases (speaks tenant exclude row.key)) [
      | inl e ↦ (row.value.billing_timezone, rw e refl)
      | inr e ↦ elim (Bool-cases (scope_eq row.key scope)) [
        | inl f ↦
            let same = (scope_eq_iff row.key scope).0 f in
            let q : speaks tenant exclude row.key ≡ true = rw same h in absurd (cc)
        | inr f ↦
            let (zone, q) = sibling_found tenant exclude rows scope h (rw f at g) in (zone, rw e q)
      ]
    ]

-- Where the sibling that is found has the zone, every scope that speaks for the tenant has it.
pub all_siblings :
    (s : Store) (tenant zone : Text) (exclude : Option BudgetScope) (scope : BudgetScope)
    (config : ScopeConfig)
    → IsAgreed s
    → IsZone zone (sibling_sub_scope_timezone s tenant exclude)
    → speaks tenant exclude scope ≡ true
    → load_config s scope ≡ some config
    → config.billing_timezone ≡ zone
unfolding sibling_sub_scope_timezone load_config
all_siblings s tenant zone exclude scope config h z p g =
    let (found, f) = sibling_found tenant exclude s.budget_config scope p g in
    let first = sibling-Sibling tenant exclude s.budget_config f in
    let is_zone : found ≡ zone = rw f at z in
    let a = (text_eq_iff first.scope.tenant_id tenant).0 (ground arith) in
    let b = (text_eq_iff scope.tenant_id tenant).0 (ground arith) in
    h.scopes_agree scope first.scope config first.config (b ∙ sym a) g first.configured
    ∙ first.same_zone
    ∙ is_zone
