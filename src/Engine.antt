-- ===== src/Engine.antt =====
-- internal/engine: which engine runs a link.
pub mod Fallback
pub mod Archive
pub mod Manager
pub mod Command
mod Tests
