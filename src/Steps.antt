-- ===== src/Steps.antt =====
-- The `"use step"` functions of apps/web/workflows/steps.
pub mod Db
pub mod Supervisor
pub mod Sandbox
pub mod Commands
pub mod Archive
pub mod Keeps
pub mod Gc
pub mod Orphans
