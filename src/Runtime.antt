-- ===== src/Runtime.antt =====
-- src/congeries_core/runtime: the types that every other package shares, and the Run lifecycle.
pub mod Errors
pub mod Outcome
pub mod Scope
pub mod Schema
pub mod Run
pub mod Context
