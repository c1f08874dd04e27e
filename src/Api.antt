-- ===== src/Api.antt =====
-- internal/api: the REST interface, and who may use it.
pub mod Auth
pub mod Handlers
mod Tests
