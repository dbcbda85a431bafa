-- ===== src/Policy.antt =====
-- crates/idoris-policy: the pure decision logic of the router.
pub mod Breaker
pub mod Role
pub mod Card
pub mod Privacy
pub mod Budget
pub mod Registration
pub mod Pipeline
mod Fixtures
