-- ===== src/Security.antt =====
-- src/security/ and src/services/tenant-service.ts: who may call, and how much.
pub mod Keys
pub mod Tenants
