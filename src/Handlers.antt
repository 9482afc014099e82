-- ===== src/Handlers.antt =====
-- src/handlers/: what is known of handlers, and calls of remote ones.
pub mod Breaker
pub mod Invoker
pub mod Registry
