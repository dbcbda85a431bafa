-- ===== src/Tenancy/Budget/Operations.antt =====
-- crates/idoris-tenancy/src/budget/ledger.rs: the methods of the ledger as the steps of a history.
-- SQLite lets one transaction write at a time, so that a history of a file is a sequence of them.
pub mod Frame
use i_doris.Prelude.{List, [], ◌∷◌}
use i_doris.Prelude.Equality.{Text}
use i_doris.Prelude.Int.{ℤ}
use i_doris.Tenancy.Budget.Types.{BudgetScope, Price, SpendGate}
use i_doris.Tenancy.Budget.Period.{TimeZones}
use i_doris.Tenancy.Budget.Store.{Store}
use i_doris.Tenancy.Budget.Configure
use i_doris.Tenancy.Budget.Admit
use i_doris.Tenancy.Budget.Admit.{Draws}
use i_doris.Tenancy.Budget.Settle
use i_doris.Tenancy.Budget.Settle.{Settlement}
use i_doris.Tenancy.Budget.Extend
use i_doris.Tenancy.Budget.Extend.{Extension}

-- One call, with what it reads of the clock and draws at random.
pub data Operation : Type 0 where
  configure : BudgetScope → ℤ → Text → ℤ → Operation
  configure_tenant : Text → ℤ → Text → SpendGate → ℤ → Operation
  retain_tenants : List Text → Operation
  reserve : BudgetScope → Price → Draws → Operation
  check_admission : BudgetScope → Price → Draws → Operation
  sweep_expired : ℤ → Operation
  settle : Settlement → Operation
  replay_settlement : Settlement → Operation
  extend : Extension → Operation
  release : Text → Text → Operation

abbrev pub empty_store : Store
empty_store = record {
  budget_config = [];
  tenant_config = [];
  reservations = [];
  budget_periods = [];
  tenant_periods = [];
  overage_events = [];
  amount_overflows = [];
}

module _ (zones : TimeZones) (ttl_ms : ℤ) where
  abbrev pub step : Operation → Store → Store
  step (configure scope limit zone now) s = (Configure.configure s scope limit zone now).0
  step (configure_tenant tenant limit zone gate now) s =
      (Configure.configure_tenant s tenant limit zone gate now).0
  step (retain_tenants keep) s = (Configure.retain_tenants s keep).0
  step (reserve scope price draws) s = (Admit.reserve zones ttl_ms s scope price draws).0
  step (check_admission scope price draws) s =
      (Admit.check_admission zones ttl_ms s scope price draws).0
  step (sweep_expired now) s = (Extend.sweep_expired s now).0
  step (settle c) s = (Settle.settle s c).0
  step (replay_settlement c) s = (Settle.replay_settlement s c).0
  step (extend x) s = (Extend.extend ttl_ms s x).0
  step (release tenant id) s = (Extend.release s tenant id).0

  abbrev pub run : List Operation → Store → Store
  run [] s = s
  run (o ∷ rest) s = run rest (step o s)
