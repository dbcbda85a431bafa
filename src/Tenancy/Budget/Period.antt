-- ===== src/Tenancy/Budget/Period.antt =====
-- crates/idoris-tenancy/src/budget/period.rs: the billing period of an instant. The names of zones
-- and the local year and month of an instant, written `YYYY-MM`, are those of chrono and chrono-tz,
-- so that they are parameters.
use i_doris.Prelude.{Option, none, some}
use i_doris.Prelude.Equality.{Text}
use i_doris.Prelude.Int.{ℤ}
use i_doris.Prelude.Results.{Result, ok, err}
use i_doris.Tenancy.Budget.Types.{BudgetError, invalid_time_zone, invalid_timestamp}

pub record TimeZones : Type 1 where
  pub Tz : Type 0
  pub from_str : Text → Option Tz
  pub local_month : ℤ → Tz → Option Text

abbrev month_or : ℤ → Option Text → Result BudgetError Text
month_or now_ms none = err (invalid_timestamp now_ms)
month_or now_ms (some period) = ok period

unfoldable pub billing_period_key : TimeZones → ℤ → Text → Result BudgetError Text
billing_period_key zones now_ms billing_timezone = elim (zones.from_str billing_timezone) [
  | none ↦ err (invalid_time_zone billing_timezone)
  | some tz ↦ month_or now_ms (zones.local_month now_ms tz)
]
