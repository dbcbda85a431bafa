-- ===== src/Backend/Supervisor.antt =====
-- crates/idoris-backend/src/supervisor.rs: the task that loads and unloads models.
pub mod Adapter
pub mod Release
pub mod Quiet
pub mod LoadFlow
pub mod Slots
pub mod Accounting
pub mod Requests
pub mod Admission
pub mod Settlement
pub mod OpDone
mod Examples
