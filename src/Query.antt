-- ===== src/Query.antt =====
-- src/utils/pagination.ts, src/query/run-filter.ts and src/compliance/retention.ts: what is shown of
-- the records, page by page or by a filter, and what is kept of them.
pub mod Pages
pub mod RunFilter
pub mod Retention
