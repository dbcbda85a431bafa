-- ===== src/Tenancy/Budget/Admit.antt =====
-- crates/idoris-tenancy/src/budget/ledger.rs: `admit`, with `reserve` and `check_admission`. The
-- readings of the clock are arguments: the one under the lock, and those of the two checks of the
-- deadline, before and after the commit. So is the new identity of the reservation.
pub mod Endings
pub mod Limits
pub mod Grants
pub mod Refusals
use i_doris.Prelude.{Bool, true, false, not, ◌&&◌, Option, none, some, if◌then◌else◌}
use i_doris.Prelude.Equality.{Text}
use i_doris.Prelude.Int.{ℤ, pos, ltb_ℤ, leb_ℤ}
use i_doris.Prelude.Results.{Result, ok, err, ◌>>=◌}
use i_doris.Tenancy.Budget.Amount.{checked_add, checked_add_i64}
use i_doris.Tenancy.Budget.Types.{
  BudgetScope, active, expired, Price, known, unknown, SpendGate, paid_only, ScopeConfig,
  TenantConfig, BudgetError, price_unknown, not_configured, invalid_estimate, invalid_timestamp,
  reservation_not_active, storage, new_exceeded, is_paid_only,
}
use i_doris.Tenancy.Budget.Period.{TimeZones, billing_period_key}
use i_doris.Tenancy.Budget.Views.{ok_or}
use i_doris.Tenancy.Budget.Store.{
  Store, Reservation, Answered, transact, reject_if, validate_scope, load_config,
  load_tenant_config, spent_for, tenant_spent_for, active_reserved_for, tenant_active_reserved_for,
  insert_reservation, sweep_expired_scope, reject_amount_overflow, exceeds_limit,
}

abbrev pub priced : Price → Result BudgetError ℤ
priced unknown = err price_unknown
priced (known v) = if ltb_ℤ v (pos 0) then err (invalid_estimate v) else ok v

abbrev pub gate_of : Option TenantConfig → SpendGate
gate_of none = paid_only
gate_of (some config) = config.gate

abbrev pub is_zero : ℤ → Bool
is_zero a = leb_ℤ a (pos 0) && leb_ℤ (pos 0) a

-- A free request passes both limits, unless the tenant has every candidate checked.
abbrev pub skip_zero_cost : SpendGate → ℤ → Bool
skip_zero_cost gate cost = is_paid_only gate && is_zero cost

-- The refusal where what is spent and reserved leaves no room for the cost.
abbrev pub over_limit : Text → ℤ → ℤ → SpendGate → ℤ → Option BudgetError
over_limit tenant_id limit_minor committed gate cost =
    if exceeds_limit cost limit_minor committed gate
    then some (new_exceeded tenant_id limit_minor committed cost)
    else none

unfoldable pub check_scope_limit :
    Store
    → BudgetScope
    → Text
    → ℤ
    → SpendGate
    → ℤ
    → Option ScopeConfig
    → Result BudgetError (Option BudgetError)
check_scope_limit s scope period now_ms gate cost none = ok none
check_scope_limit s scope period now_ms gate cost (some config) = do
  sub_reserved ← active_reserved_for s scope period now_ms
  let sub_committed = checked_add_i64 (spent_for s scope period) sub_reserved
  ok (over_limit scope.tenant_id config.limit_minor sub_committed gate cost)

unfoldable pub check_tenant_limit :
    Store
    → Text
    → Text
    → ℤ
    → SpendGate
    → ℤ
    → Option TenantConfig
    → Result BudgetError (Option BudgetError)
check_tenant_limit s tenant_id period now_ms gate cost none = ok none
check_tenant_limit s tenant_id period now_ms gate cost (some config) = do
  tenant_reserved ← tenant_active_reserved_for s tenant_id period now_ms
  let tenant_committed = checked_add_i64 (tenant_spent_for s tenant_id period) tenant_reserved
  ok (over_limit tenant_id config.limit_minor tenant_committed gate cost)

-- A check that a free request skips.
abbrev pub unless_skipped :
    Bool → Result BudgetError (Option BudgetError) → Result BudgetError (Option BudgetError)
unless_skipped true check = ok none
unless_skipped false check = check

-- A refusal commits the sweep; otherwise the transaction goes on.
abbrev pub refuse_or :
    {A : Type 0}
    → Option BudgetError
    → Store
    → Result BudgetError (Answered A)
    → Result BudgetError (Answered A)
refuse_or (some e) s next = ok (s, err e)
refuse_or none s next = next

unfoldable pub check_reservation_deadline : Text → ℤ → ℤ → Result BudgetError (Unit {0})
check_reservation_deadline reservation_id expires_at_ms now_ms =
    reject_if (leb_ℤ expires_at_ms now_ms) (reservation_not_active reservation_id expired)

-- What `reserve` draws from outside: an identity, and the clock at three places.
pub record Draws : Type 0 where
  pub id : Text
  pub now_ms : ℤ
  pub before_commit_ms : ℤ
  pub after_commit_ms : ℤ

abbrev pub new_reservation : BudgetScope → Text → Text → ℤ → ℤ → Draws → Reservation
new_reservation scope period tenant_period cost expires_at_ms draws = record {
  id = draws.id;
  scope = scope;
  period = period;
  tenant_period = tenant_period;
  reserved_minor = cost;
  status = active;
  created_at_ms = draws.now_ms;
  expires_at_ms = expires_at_ms;
  actual_cost_minor = none;
}

-- The part of `admit` that writes the row.
unfoldable pub persist :
    Store → BudgetScope → Text → Text → ℤ → ℤ → Draws → Result BudgetError (Answered (Option Text))
persist s scope period tenant_period cost ttl_ms draws = do
  expires_at_ms ← ok_or (checked_add draws.now_ms ttl_ms) (invalid_timestamp draws.now_ms)
  written ←
      insert_reservation (new_reservation scope period tenant_period cost expires_at_ms draws) s
  _ ← check_reservation_deadline draws.id expires_at_ms draws.before_commit_ms
  ok (
    written,
    (do
      _ ← check_reservation_deadline draws.id expires_at_ms draws.after_commit_ms
      ok (some draws.id)),
  )

abbrev pub reserved_id : Result BudgetError (Option Text) → Result BudgetError Text
reserved_id (err e) = err e
reserved_id (ok none) = err storage
reserved_id (ok (some id)) = ok id

abbrev admission_of : Result BudgetError (Option Text) → Result BudgetError (Unit {0})
admission_of (err e) = err e
admission_of (ok id) = ok tt

module _ (zones : TimeZones) where
  -- The period under the zone of the scope, or else of the tenant.
  abbrev pub scope_period :
      BudgetScope → ℤ → Option ScopeConfig → Option TenantConfig → Result BudgetError Text
  scope_period scope now_ms (some config) tenant =
      billing_period_key zones now_ms config.billing_timezone
  scope_period scope now_ms none (some tenant) =
      billing_period_key zones now_ms tenant.billing_timezone
  scope_period scope now_ms none none = err (not_configured scope)

  abbrev pub tenant_period_or : ℤ → Text → Option TenantConfig → Result BudgetError Text
  tenant_period_or now_ms period (some tenant) =
      billing_period_key zones now_ms tenant.billing_timezone
  tenant_period_or now_ms period none = ok period

  unfoldable pub admit : ℤ → Store → BudgetScope → Price → Bool → Draws → Answered (Option Text)
  admit ttl_ms s scope estimated_cost persists draws = transact s (do
    _ ← validate_scope scope
    cost ← priced estimated_cost
    _ ← reject_amount_overflow s scope.tenant_id none
    let sub_config = load_config s scope
    let tenant_cfg = load_tenant_config s scope.tenant_id
    period ← scope_period scope draws.now_ms sub_config tenant_cfg
    tenant_period ← tenant_period_or draws.now_ms period tenant_cfg
    let swept = sweep_expired_scope s scope period draws.now_ms
    let gate = gate_of tenant_cfg
    let skipped = skip_zero_cost gate cost
    sub_refusal ←
        unless_skipped skipped
          (check_scope_limit swept scope period draws.now_ms gate cost sub_config)
    refuse_or sub_refusal swept (do
      refusal ←
          unless_skipped skipped (
            check_tenant_limit swept scope.tenant_id tenant_period draws.now_ms gate cost
              tenant_cfg)
      refuse_or refusal swept (
          if persists
          then persist swept scope period tenant_period cost ttl_ms draws
          else ok (swept, ok none))))

  unfoldable pub reserve : ℤ → Store → BudgetScope → Price → Draws → Answered Text
  reserve ttl_ms s scope estimated_cost draws =
      let (s', answer) = admit ttl_ms s scope estimated_cost true draws in (s', reserved_id answer)

  unfoldable pub check_admission : ℤ → Store → BudgetScope → Price → Draws → Answered (Unit {0})
  check_admission ttl_ms s scope estimated_cost draws =
      let (s', answer) = admit ttl_ms s scope estimated_cost false draws in
      (s', admission_of answer)
