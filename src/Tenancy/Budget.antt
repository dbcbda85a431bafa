-- ===== src/Tenancy/Budget.antt =====
-- crates/idoris-tenancy/src/budget: the ledger of what tenants reserve and spend.
pub mod Amount
pub mod Zones
pub mod Types
pub mod Keys
pub mod Store
pub mod Period
pub mod Configure
pub mod Views
pub mod Admit
pub mod Settle
pub mod Extend
pub mod Accounts
pub mod Operations
pub mod Isolation
mod Fixtures
mod Examples
