-- ===== src/Workflow.antt =====
-- src/congeries_core/workflow: definitions, their validation, and the scheduling of nodes.
pub mod Definition
pub mod Scheduler
pub mod Validation
