-- ===== src/Graph.antt =====
-- The depth-first visit that src/validators/job-definition-validator.ts and
-- src/engine/dag-planner.ts both make of a graph of dependencies.
pub mod Visit
