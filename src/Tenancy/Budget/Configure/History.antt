-- ===== src/Tenancy/Budget/Configure/History.antt =====
-- crates/idoris-tenancy/src/budget/ledger.rs: the zones of a tenant agree after any history of calls.
use i_doris.Prelude.{◌≡◌, refl, sym, ◌∙◌, true, false, List, [], ◌∷◌, inl, inr, ap}
use i_doris.Prelude.Equality.{Text, text_equality}
use i_doris.Prelude.Int.{ℤ}
use i_doris.Tenancy.Budget.Types.{BudgetScope, SpendGate}
use i_doris.Tenancy.Budget.Period.{TimeZones}
use i_doris.Tenancy.Budget.Keys.{scope_equality, select}
use i_doris.Tenancy.Budget.Store.{Store, load_config, load_tenant_config}
use i_doris.Tenancy.Budget.Configure
use i_doris.Tenancy.Budget.Configure.{zone_of_tenant, delete_tenant, delete_tenants}
use i_doris.Tenancy.Budget.Configure.Endings.{configure-cases, configure_tenant-cases}
use i_doris.Tenancy.Budget.Configure.Agreement.{IsAgreed}
use i_doris.Tenancy.Budget.Settle.{Settlement, replay_settlement}
use i_doris.Tenancy.Budget.Settle
use i_doris.Tenancy.Budget.Settle.Endings.{refused, overflowed, charged_to, settle-SettleEnd}
use i_doris.Tenancy.Budget.Extend.{Extension, finish}
use i_doris.Tenancy.Budget.Extend
use i_doris.Tenancy.Budget.Admit
use i_doris.Tenancy.Budget.Admit.{Draws}
use i_doris.Tenancy.Budget.Accounts.History.{replayed_store}
use i_doris.Tenancy.Budget.Operations.Frame.{Frame, admit-Frame, extend-Frame, release-Frame}
use i_doris.Tenancy.Budget.Operations.{Operation, step, run, empty_store}
use i_doris.Tenancy.Budget.Configure.Written.{
  with_scope-IsAgreed, with_tenant-IsAgreed, delete_tenants-IsAgreed,
}

same-IsAgreed :
    (s s' : Store)
    → s'.budget_config ≡ s.budget_config
    → s'.tenant_config ≡ s.tenant_config
    → IsAgreed s
    → IsAgreed s'
unfolding load_config load_tenant_config
same-IsAgreed s s' b t h = record {
  scopes_agree = λ x y c d e f g.
      h.scopes_agree x y c d e (ap (select x) (sym b) ∙ f) (ap (select y) (sym b) ∙ g);
  tenant_agrees = λ x c u f g.
      h.tenant_agrees x c u (ap (select x) (sym b) ∙ f) (ap (select x.tenant_id) (sym t) ∙ g);
}

configure-IsAgreed :
    (s : Store) (scope : BudgetScope) (limit : ℤ) (zone : Text) (now : ℤ)
    → IsAgreed s
    → IsAgreed (Configure.configure s scope limit zone now).0
configure-IsAgreed s scope limit zone now h = elim (configure-cases s scope limit zone now) [
  | inl (e, q) ↦ rw q h
  | inr e ↦ rw e.is_end (
      with_scope-IsAgreed s scope (record { limit_minor = limit; billing_timezone = zone }) h
        e.tenant_zone e.sibling_zone)
]

configure_tenant-IsAgreed :
    (s : Store) (tenant : Text) (limit : ℤ) (zone : Text) (gate : SpendGate) (now : ℤ)
    → IsAgreed s
    → IsAgreed (Configure.configure_tenant s tenant limit zone gate now).0
configure_tenant-IsAgreed s tenant limit zone gate now h =
    elim (configure_tenant-cases s tenant limit zone gate now) [
      | inl (e, q) ↦ rw q h
      | inr e ↦ rw e.is_end (
          with_tenant-IsAgreed s tenant
            (record { limit_minor = limit; billing_timezone = zone; gate = gate }) h e.sibling_zone)
    ]

settle-IsAgreed : (s : Store) (c : Settlement) → IsAgreed s → IsAgreed (Settle.settle s c).0
settle-IsAgreed s c h = elim (settle-SettleEnd s c) [
  | refused e z q ↦ rw q h
  | overflowed p q ↦ rw q (same-IsAgreed s _ refl refl h)
  | charged_to e ↦ rw e.is_end (same-IsAgreed s _ refl refl h)
]

replay_settlement-IsAgreed :
    (s : Store) (c : Settlement) → IsAgreed s → IsAgreed (replay_settlement s c).0
unfolding replay_settlement
replay_settlement-IsAgreed s c h =
    rw (replayed_store c (Settle.settle s c).0 (Settle.settle s c).1) (settle-IsAgreed s c h)

framed-IsAgreed : (s s' : Store) → Frame s s' → IsAgreed s → IsAgreed s'
framed-IsAgreed s s' f = same-IsAgreed s s' f.scopes f.tenants

step-IsAgreed :
    (zones : TimeZones) (ttl_ms : ℤ) (o : Operation) (s : Store)
    → IsAgreed s
    → IsAgreed (step zones ttl_ms o s)
unfolding Admit.reserve Admit.check_admission Configure.retain_tenants Extend.sweep_expired
step-IsAgreed zones ttl (Operation.configure scope limit zone now) s h =
    configure-IsAgreed s scope limit zone now h
step-IsAgreed zones ttl (Operation.configure_tenant tenant limit zone gate now) s h =
    configure_tenant-IsAgreed s tenant limit zone gate now h
step-IsAgreed zones ttl (Operation.retain_tenants keep) s h =
    delete_tenants-IsAgreed (Configure.stale_tenants s keep) s h
step-IsAgreed zones ttl (Operation.reserve scope price draws) s h =
    framed-IsAgreed s _ (admit-Frame zones ttl s scope price true draws) h
step-IsAgreed zones ttl (Operation.check_admission scope price draws) s h =
    framed-IsAgreed s _ (admit-Frame zones ttl s scope price false draws) h
step-IsAgreed zones ttl (Operation.sweep_expired now) s h = same-IsAgreed s _ refl refl h
step-IsAgreed zones ttl (Operation.settle c) s h = settle-IsAgreed s c h
step-IsAgreed zones ttl (Operation.replay_settlement c) s h = replay_settlement-IsAgreed s c h
step-IsAgreed zones ttl (Operation.extend x) s h = framed-IsAgreed s _ (extend-Frame ttl s x) h
step-IsAgreed zones ttl (Operation.release tenant id) s h =
    framed-IsAgreed s _ (release-Frame s tenant id) h

run_from :
    (zones : TimeZones) (ttl_ms : ℤ) (history : List Operation) (s : Store)
    → IsAgreed s
    → IsAgreed (run zones ttl_ms history s)
run_from zones ttl [] s h = h
run_from zones ttl (o ∷ history) s h =
    run_from zones ttl history (step zones ttl o s) (step-IsAgreed zones ttl o s h)

-- After any history of calls on an empty store, every configuration of a tenant names one time zone:
-- any two scopes of the tenant have the same one, and it is the tenant's own where that is set.
pub run-IsAgreed :
    (zones : TimeZones) (ttl_ms : ℤ) (history : List Operation)
    → IsAgreed (run zones ttl_ms history empty_store)
unfolding load_config load_tenant_config
run-IsAgreed zones ttl history = run_from zones ttl history empty_store (record {
  scopes_agree = λ a b c d e f g. absurd (cc);
  tenant_agrees = λ a c t f g. absurd (cc);
})
