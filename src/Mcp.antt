-- ===== src/Mcp.antt =====
-- crates/bouvet-mcp: the server that offers sandboxes as tools of the Model Context Protocol.
pub mod Config
pub mod Types
pub mod Tools
pub mod Server
pub mod Session
pub mod Concurrent
pub mod Main
