-- ===== src/Tenancy/Budget/Fixtures.antt =====
-- A tenant with a limit of its own and one scope, whose calls the examples run.
use i_doris.Prelude.{none, some, List, [], ◌∷◌}
use i_doris.Prelude.Equality.{codes}
use i_doris.Prelude.Int.{ℤ, pos}
use i_doris.Tenancy.Budget.Types.{BudgetScope, active, every, paid_only, known}
use i_doris.Tenancy.Budget.Period.{TimeZones}
use i_doris.Tenancy.Budget.Store.{Store, Reservation}
use i_doris.Tenancy.Budget.Admit.{Draws}
use i_doris.Tenancy.Budget.Settle.{Settlement}
use i_doris.Tenancy.Budget.Extend.{Extension}
use i_doris.Tenancy.Budget.Operations.{Operation}

-- A calendar that knows one zone and one month.
abbrev pub one_month : TimeZones
one_month = record {
  Tz = Unit {0};
  from_str = λ name. some tt;
  local_month = λ now_ms tz. some (codes "2026-11");
}

abbrev pub ttl : ℤ
ttl = pos 300000

abbrev pub acme : BudgetScope
acme = record {
  tenant_id = codes "acme";
  key_id = codes "k";
  provider_id = codes "p";
  model_id = codes "m";
}

abbrev pub first_draws : Draws
first_draws = record {
  id = codes "r1";
  now_ms = pos 1000;
  before_commit_ms = pos 1001;
  after_commit_ms = pos 1002;
}

-- The commit takes longer than the reservation lives.
abbrev pub slow_draws : Draws
slow_draws = record {
  id = codes "r2";
  now_ms = pos 1000;
  before_commit_ms = pos 1001;
  after_commit_ms = pos 900000;
}

abbrev pub held_row : Reservation
held_row = record {
  id = codes "r1";
  scope = acme;
  period = codes "2026-11";
  tenant_period = codes "2026-11";
  reserved_minor = pos 30;
  status = active;
  created_at_ms = pos 1000;
  expires_at_ms = pos 301000;
  actual_cost_minor = none;
}

-- Both limits are set, and nothing is reserved.
abbrev pub configured_store : Store
configured_store = record {
  budget_config =
      record {
        key = acme;
        value = record { limit_minor = pos 100; billing_timezone = codes "UTC" };
      }
      ∷ [];
  tenant_config =
      record {
        key = codes "acme";
        value = record { limit_minor = pos 500; billing_timezone = codes "UTC"; gate = every };
      }
      ∷ [];
  reservations = [];
  budget_periods = [];
  tenant_periods = [];
  overage_events = [];
  amount_overflows = [];
}

abbrev pub held_store : Store
held_store = record configured_store { reservations = held_row ∷ [] }

-- The total of the tenant is at the end of its range.
abbrev pub full_store : Store
full_store = record held_store {
  tenant_periods =
      record {
        key = record { account = codes "acme"; period = codes "2026-11" };
        value = pos 9223372036854775807;
      }
      ∷ [];
}

abbrev pub at_cost : ℤ → Settlement
at_cost cost = record {
  tenant_id = codes "acme";
  reservation_id = codes "r1";
  actual_cost_minor = cost;
  now_ms = pos 2000;
  event_id = codes "e1";
}

abbrev pub one_more_minute : Extension
one_more_minute = record {
  tenant_id = codes "acme";
  reservation_id = codes "r1";
  additional_ttl_ms = pos 60000;
  now_ms = pos 290000;
  before_commit_ms = pos 290001;
  after_commit_ms = pos 290002;
}

abbrev pub one_charge : List Operation
one_charge =
    Operation.configure_tenant (codes "acme") (pos 500) (codes "UTC") paid_only (pos 900)
    ∷ Operation.configure acme (pos 100) (codes "UTC") (pos 901)
    ∷ Operation.reserve acme (known (pos 30)) first_draws
    ∷ Operation.settle (at_cost (pos 25))
    ∷ []
