-- ===== src/Persistence.antt =====
-- src/persistence/: copies of a workflow to which it can be brought back.
pub mod Checkpoints
