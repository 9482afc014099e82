-- ===== src/Validators.antt =====
-- src/validators/: what is refused before it is stored.
pub mod Jobs
pub mod Order
pub mod Constraints
