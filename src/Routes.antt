-- ===== src/Routes.antt =====
-- app/routers/: the handlers.
pub mod Webhooks
pub mod Issues
