-- ===== src/Tenancy.antt =====
-- crates/idoris-tenancy: what tenants may spend.
pub mod Estimator
pub mod Budget
