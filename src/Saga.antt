-- ===== src/Saga.antt =====
-- src/saga/: steps that are undone, newest first, when a later one fails.
pub mod Types
pub mod Stack
pub mod Coordinator
mod Samples
