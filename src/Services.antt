-- ===== src/Services.antt =====
-- src/services/: what the routes call.
pub mod Jobs
mod Samples
