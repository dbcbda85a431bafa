-- ===== src/Policy/Pipeline.antt =====
-- crates/idoris-policy/src/pipeline: the decision pipeline. `Types` holds types.rs, `Pick` the
-- ordering of mod.rs, `Stages` its filters and the budget stage, `Decide` the entry points.
pub mod Types
pub mod Pick
pub mod Stages
pub mod Decide
pub mod Gates
pub mod Inversion
pub mod Spending
pub mod Affinity
pub mod Starved
pub mod Rejections
pub mod Failures
pub mod Order
pub mod Precedence
mod Examples
