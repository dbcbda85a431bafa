-- ===== src/Tenancy/Budget/Types.antt =====
-- crates/idoris-tenancy/src/budget/{error,scope,ledger}.rs: the data of the ledger. Amounts and
-- times are integers; a period and a time zone are texts, of code points. An error of SQLite is
-- `storage`, without its message, and `busy`. The sentence in `topup_hint` is left out but for the
-- amount it names, `shortfall`.
use i_doris.Prelude.{Bool, true, false, Option, none, some, ◌≡◌, refl}
use i_doris.Prelude.Equality.{Text, text_eq, codes}
use i_doris.Prelude.Int.{ℤ}
use i_doris.Prelude.Results.{Result, ok, err}
use i_doris.Prelude.{if◌then◌else◌}
use i_doris.Tenancy.Budget.Amount.{checked_sub_i64, at_least_zero}

pub record BudgetScope : Type 0 where
  pub tenant_id : Text
  pub key_id : Text
  pub provider_id : Text
  pub model_id : Text

pub data ReservationStatus : Type 0 where
  active settled released expired : ReservationStatus

pub data Price : Type 0 where
  known : ℤ → Price
  unknown : Price

pub record SettleReceipt : Type 0 where
  pub reserved_minor : ℤ
  pub actual_cost_minor : ℤ
  pub refunded_minor : ℤ
  pub late : Bool
  pub overage_minor : ℤ

pub data SpendGate : Type 0 where
  paid_only every : SpendGate

pub record TenantBudgetReadView : Type 0 where
  pub tenant_id : Text
  pub period : Text
  pub limit_minor : ℤ
  pub spent_minor : ℤ
  pub reserved_minor : ℤ
  pub remaining_minor : ℤ
  pub available_minor : ℤ
  pub billing_timezone : Text
  pub scope : SpendGate

pub record ScopeConfig : Type 0 where
  pub limit_minor : ℤ
  pub billing_timezone : Text

pub record TenantConfig : Type 0 where
  pub limit_minor : ℤ
  pub billing_timezone : Text
  pub gate : SpendGate

pub data BudgetError : Type 0 where
  exceeded : Text → ℤ → ℤ → ℤ → ℤ → ℤ → BudgetError
  price_unknown : BudgetError
  not_configured : BudgetScope → BudgetError
  tenant_not_configured : Text → BudgetError
  reservation_not_found : Text → BudgetError
  reservation_not_active : Text → ReservationStatus → BudgetError
  invalid_scope : Text → BudgetError
  invalid_limit : ℤ → BudgetError
  invalid_estimate : ℤ → BudgetError
  invalid_actual_cost : ℤ → BudgetError
  amount_overflow : Text → ℤ → BudgetError
  overage_too_large : Text → ℤ → ℤ → BudgetError
  invalid_time_zone : Text → BudgetError
  time_zone_change_with_active_reservations : BudgetError
  invalid_config : Text → Text → Text → BudgetError
  invalid_timestamp : ℤ → BudgetError
  invalid_ttl : ℤ → BudgetError
  tenant_mismatch : Text → BudgetError
  busy : BudgetError
  storage : BudgetError

-- `BudgetError::exceeded`: tenant, limit, what is spent and the estimated cost.
unfoldable pub new_exceeded : Text → ℤ → ℤ → ℤ → BudgetError
new_exceeded tenant_id limit_minor spent_minor estimated_cost_minor =
    let balance_minor = checked_sub_i64 limit_minor spent_minor in
    let shortfall = at_least_zero (checked_sub_i64 estimated_cost_minor balance_minor) in
    exceeded tenant_id balance_minor estimated_cost_minor limit_minor spent_minor shortfall

pub record Budget402Body : Type 0 where
  pub tenant_id : Text
  pub balance_minor : ℤ
  pub estimated_cost_minor : ℤ
  pub limit_minor : ℤ
  pub spent_minor : ℤ
  pub shortfall : ℤ
  pub reason_code : Text

abbrev pub to_402_body : BudgetError → Option Budget402Body
to_402_body (exceeded tenant_id balance cost limit spent shortfall) = some (record {
  tenant_id = tenant_id;
  balance_minor = balance;
  estimated_cost_minor = cost;
  limit_minor = limit;
  spent_minor = spent;
  shortfall = shortfall;
  reason_code = codes "budget_exceeded";
})
to_402_body _ = none

-- The columns `status` and `scope` hold these texts.
abbrev as_sql : ReservationStatus → Text
as_sql active = codes "active"
as_sql settled = codes "settled"
as_sql released = codes "released"
as_sql expired = codes "expired"

pub parse : Text → Result BudgetError ReservationStatus
parse s =
    if text_eq s (codes "active")
    then ok active
    else if text_eq s (codes "settled")
    then ok settled
    else if text_eq s (codes "released")
    then ok released
    else if text_eq s (codes "expired")
    then ok expired
    else err storage

abbrev gate_as_sql : SpendGate → Text
gate_as_sql paid_only = codes "paid_only"
gate_as_sql every = codes "all"

parse_gate : Text → Result BudgetError SpendGate
parse_gate s =
    if text_eq s (codes "paid_only")
    then ok paid_only
    else if text_eq s (codes "all")
    then ok every
    else err storage

abbrev pub is_active : ReservationStatus → Bool
is_active active = true
is_active _ = false

abbrev pub is_paid_only : SpendGate → Bool
is_paid_only paid_only = true
is_paid_only every = false

-- Statuses and gates are read back as they are written.
parse-as_sql : (status : ReservationStatus) → parse (as_sql status) ≡ ok status
unfolding parse
parse-as_sql active = refl
parse-as_sql settled = refl
parse-as_sql released = refl
parse-as_sql expired = refl

parse_gate-gate_as_sql : (gate : SpendGate) → parse_gate (gate_as_sql gate) ≡ ok gate
unfolding parse_gate
parse_gate-gate_as_sql paid_only = refl
parse_gate-gate_as_sql every = refl
