-- ===== src/Routers.antt =====
-- The HTTP handlers (thinking-feature-flag-service/app/routers).
pub mod Evaluate
pub mod Flags
pub mod Tenants
