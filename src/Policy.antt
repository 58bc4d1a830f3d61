-- ===== src/Policy.antt =====
-- src/congeries_core/policy: the gateway that every protected call passes.
pub mod Access
pub mod Authorization
