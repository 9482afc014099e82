-- ===== src/Engine.antt =====
-- src/engine, the task workers of src/workers, and the services that drive a run,
-- src/services/execution-service.ts and workflow-service.ts.
pub mod Transitions
pub mod World
pub mod RunLock
pub mod Orchestrator
pub mod Scheduler
pub mod Executor
pub mod Execution
pub mod Creation
pub mod Compensation
pub mod Planner
pub mod Parallel
mod Samples
