-- ===== src/Workers.antt =====
-- src/workers/ and src/domain/priority.ts: which run is taken up next.
pub mod Pool
