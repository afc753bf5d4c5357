-- ===== src/Tests.antt =====
-- Concrete data, tests that run the definitions on it, and the theorems applied to it.
pub mod Redis
pub mod Setup
pub mod Examples
pub mod Requests
pub mod Tables
pub mod Writes
pub mod Rows
