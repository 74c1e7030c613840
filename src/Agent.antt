-- ===== src/Agent.antt =====
-- crates/bouvet-agent: the agent inside the microVM.
pub mod Protocol
pub mod Os
pub mod Files
pub mod Exec
pub mod Run
pub mod Handler
pub mod Handshake
pub mod Connection
pub mod Accept
