-- ===== src/Domain.antt =====
-- The core models, src/domain: states, task runs, workflow instances, job definitions, events,
-- errors and the retry policy. `D` is the type of a `Record<string, unknown>` whose content the
-- code at hand only hands on.
mod Types
mod Errors
mod Records
pub mod Retry
unfoldable pub use Types.*
unfoldable pub use Errors.*
unfoldable pub use Records.*
