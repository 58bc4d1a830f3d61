-- ===== src/Event.antt =====
-- src/congeries_core/event: the ledger of Events and of the audits that wait for delivery.
pub mod Memory
