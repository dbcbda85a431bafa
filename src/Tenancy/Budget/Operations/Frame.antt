-- ===== src/Tenancy/Budget/Operations/Frame.antt =====
-- crates/idoris-tenancy/src/budget/ledger.rs: what the operations on reservations leave alone.
use i_doris.Prelude.{◌≡◌, refl, Bool, some, inl, inr}
use i_doris.Prelude.Equality.{Text}
use i_doris.Prelude.Int.{ℤ}
use i_doris.Prelude.Results.{Result-cases}
use i_doris.Tenancy.Budget.Types.{
  BudgetScope, Price, ReservationStatus, active, settled, released, expired,
}
use i_doris.Tenancy.Budget.Period.{TimeZones}
use i_doris.Tenancy.Budget.Store.{
  Store, transact, find_reservation, reject_amount_overflow, sweep_expired_scope,
}
use i_doris.Tenancy.Budget.Admit.{Draws, admit}
use i_doris.Tenancy.Budget.Admit.Endings.{rolled_back, over, checked, persisted, admit-AdmitEnd}
use i_doris.Tenancy.Budget.Extend.{Extension, extend, finish, release}
use i_doris.Tenancy.Budget.Extend.Lifetime.{extend-cases}

-- The configurations and the totals are as they were.
pub record Frame (s s' : Store) : Type 0 where
  pub scopes : s'.budget_config ≡ s.budget_config
  pub tenants : s'.tenant_config ≡ s.tenant_config
  pub scope_totals : s'.budget_periods ≡ s.budget_periods
  pub tenant_totals : s'.tenant_periods ≡ s.tenant_periods

pub same-Frame : (s : Store) → Frame s s
same-Frame s = record { scopes = refl; tenants = refl; scope_totals = refl; tenant_totals = refl }

pub admit-Frame :
    (zones : TimeZones) (ttl_ms : ℤ) (s : Store) (scope : BudgetScope) (price : Price)
    (persists : Bool) (draws : Draws)
    → Frame s (admit zones ttl_ms s scope price persists draws).0
unfolding sweep_expired_scope
admit-Frame zones ttl_ms s scope price persists draws =
    elim (admit-AdmitEnd zones s scope price draws ttl_ms persists) [
      | rolled_back e q ↦ rw q (same-Frame s)
      | over r e q ↦
          rw q (record { scopes = refl; tenants = refl; scope_totals = refl; tenant_totals = refl })
      | checked r f e q ↦
          rw q (record { scopes = refl; tenants = refl; scope_totals = refl; tenant_totals = refl })
      | persisted e p ↦
          rw p.is_end
            (record { scopes = refl; tenants = refl; scope_totals = refl; tenant_totals = refl })
    ]

pub extend-Frame : (ttl_ms : ℤ) (s : Store) (x : Extension) → Frame s (extend ttl_ms s x).0
extend-Frame ttl_ms s x = elim (extend-cases ttl_ms s x) [
  | inl (e, q) ↦ rw q (same-Frame s)
  | inr e ↦
      rw e.is_end
        (record { scopes = refl; tenants = refl; scope_totals = refl; tenant_totals = refl })
]

finish_open : (s : Store) (tenant id : Text) → Frame s (transact s (finish s tenant id active)).0
finish_open s tenant id = elim (Result-cases (reject_amount_overflow s tenant (some id))) [
  | inl (r, f) ↦ rw f (same-Frame s)
  | inr (tt, f) ↦
      rw f (record { scopes = refl; tenants = refl; scope_totals = refl; tenant_totals = refl })
]

finish-Frame :
    (s : Store) (tenant id : Text) (status : ReservationStatus)
    → Frame s (transact s (finish s tenant id status)).0
finish-Frame s tenant id released = same-Frame s
finish-Frame s tenant id settled = same-Frame s
finish-Frame s tenant id active = finish_open s tenant id
finish-Frame s tenant id expired = finish_open s tenant id

pub release-Frame : (s : Store) (tenant id : Text) → Frame s (release s tenant id).0
unfolding release
release-Frame s tenant id = elim (Result-cases (find_reservation s tenant id)) [
  | inl (e, f) ↦ rw f (same-Frame s)
  | inr (row, f) ↦ rw f (finish-Frame s tenant id row.status)
]
