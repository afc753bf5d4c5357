-- ===== src/Routers/Flags.antt =====
-- Flag CRUD and audit history (thinking-feature-flag-service/app/routers/flags.py).
pub mod Changes
pub mod Responses
pub mod Create
pub mod Update
pub mod Archive
pub mod Read
