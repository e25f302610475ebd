-- ===== src/Bootstrap.antt =====
-- The Lambda function, src/bin/bootstrap.rs: its configuration and its handler.
pub mod Config
pub mod Handler
pub mod Service
