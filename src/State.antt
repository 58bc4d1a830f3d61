-- ===== src/State.antt =====
-- src/congeries_core/state: persistence of Runs and Sessions, and the service over it.
pub mod Repository
pub mod Service
pub mod Session
