-- ===== src/Checkpoint.antt =====
-- src/congeries_core/checkpoint: the checkpoints of a WorkflowRun and the store that keeps them.
pub mod Model
pub mod Registry
pub mod Store
