-- ===== src/Lib.antt =====
-- jobflow: jobs of dependent tasks that are run, retried, locked and recorded, the language in which
-- workflows are written, and the services around them.
--
-- A job definition is validated (src/validators) or read from the workflow language (src/dsl). The
-- workflow service creates a run of it in the stores (src/storage/memory). The execution service
-- (src/services/execution-service.ts) drives the run: the scheduler chooses a task, the executor
-- attempts it, the retry handler decides what a failure leads to, and the orchestrator makes each
-- transition of the workflow: guard, state machine, stores, events. Locks keep two drivers of one run
-- apart. A pool orders the runs that wait, handlers over HTTP are called through circuit breakers,
-- and sagas undo what they did when a step fails.
--
-- Common: lists, texts, maps, results and the stable sort, on the native numbers.
-- Domain: Types, Errors and Records for src/domain; Retry for src/domain/retry-policy.ts and
--   src/workers/retry-handler.ts.
-- Storage: Workflows and Runs for src/storage/memory; Sql for src/storage/sql/query-builder.ts.
-- Engine: Transitions for src/validators/transition-validator.ts, src/engine/state-machine.ts
--   and transition-guard.ts; World for what a run reads and writes; RunLock, Orchestrator,
--   Scheduler and Executor for src/engine/run-lock.ts, orchestrator.ts,
--   src/workers/scheduler.ts and task-executor.ts; Creation for
--   src/services/workflow-service.ts; Compensation for src/engine/compensation.ts; Planner for
--   src/engine/dag-planner.ts; Parallel for src/engine/parallel-executor.ts, a relation over
--   the steps of its workers; Execution for src/services/execution-service.ts, where run_loop
--   is the loop of executeRun, attempt_task and settle its body, dead_letter what follows it
--   and execute_run the whole.
-- Dsl: Ast, Lexer, Parser, Optimizer and Compiler for src/dsl; Printer writes a workflow as tokens
--   and is not in the source.
-- Graph: Visit is the depth-first visit that the validator and the planner share.
-- Expressions: Ast, Tokenizer, Parser and Evaluator for src/expressions; Values for the values of
--   the platform and its conversions.
-- Validators: Constraints for src/validators/constraint-validator.ts and src/services/rule-engine.ts;
--   Jobs and Order for src/validators/job-definition-validator.ts: validate and
--   validateDependencyOrder.
-- Services: Jobs for src/services/job-service.ts.
-- Saga: Types, Stack and Coordinator for src/saga.
-- Webhooks: src/webhooks, src/services/webhook-service.ts, src/domain/webhook.ts and
--   src/storage/memory/webhook-store.ts.
-- Workers: Pool for src/workers/pool.ts and src/domain/priority.ts.
-- Handlers: Breaker and Invoker for src/handlers/http; Registry for src/handlers/registry.ts,
--   src/handlers/resolver.ts and src/domain/handler-manifest.ts.
-- Persistence: Checkpoints for src/persistence.
-- Security: Keys for src/security; Tenants for src/services/tenant-service.ts and
--   src/domain/tenant.ts.
-- Query: Pages for src/utils/pagination.ts; RunFilter for src/query/run-filter.ts; Retention for
--   src/compliance/retention.ts.
-- Samples in each part are tests and the theorems at concrete inputs.
--
-- State is passed explicitly: an operation of the engine takes the World and returns its
-- outcome, a value or what was thrown, with the World that it leaves, also where it throws. A
-- text is its list of UTF-16 code units; a payload, as the input of a run, is an opaque type D.
-- The clock is a function of how often it was read, and the simulator and the handlers are
-- functions of how often they were called, so that they may answer differently each time. The
-- rule engine is a parameter of the execution service, as fetch is of the invoker;
-- Constraints.apply is the source's engine. The doubles and the objects of the platform are a
-- record of operations, of which nothing is assumed. Ids drawn at random are arguments. Numbers
-- are natural numbers, but for the backoff multiplier and the delay of a retry, which are doubles
-- by their bits. The code of one call runs with no other call between its awaits. Array.prototype.sort is a stable insertion sort.
--
-- Fuel: run_loop is given more than the number of tasks times one more than the attempts
-- allowed, each round using up an attempt; the lexer is given one more than the length of the
-- text, each token taking a character; the parser one more than the number of tokens; the
-- tokenizer and the parser of expressions the same; the visit of a graph one more than the
-- number of its nodes, as is the order of a workflow's tasks and the levels of a plan, and the
-- search for the critical path two more. An optional task counts for the guard of completion as
-- any other.
--
-- Not modelled: logging and metrics; the HTTP interface, configuration and the clients of other
-- services, which are input and output; the job definitions that come with the program, which
-- are data; schedules, batches and files, which stand beside the execution of a run.
pub mod Common
pub mod Domain
pub mod Storage
pub mod Engine
pub mod Dsl
pub mod Expressions
pub mod Graph
pub mod Services
pub mod Webhooks
pub mod Workers
pub mod Persistence
pub mod Security
pub mod Samples
pub mod Validators
pub mod Saga
pub mod Query
pub mod Handlers
