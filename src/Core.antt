-- ===== src/Core.antt =====
-- crates/bouvet-core: sandboxes, their manager and the warm pool.
pub mod Error
pub mod Config
pub mod Client
pub mod Sandbox
pub mod Manager
pub mod Pool
