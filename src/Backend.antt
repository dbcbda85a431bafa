-- ===== src/Backend.antt =====
-- crates/idoris-backend: the memory of the host's local models.
pub mod Error
pub mod Eviction
pub mod Capacity
pub mod Supervisor
