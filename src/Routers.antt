-- ===== src/Routers.antt =====
-- app/routers: the webhook of an incoming call, and the two sockets that feed an orchestrator.
pub mod Incoming
pub mod Socket
pub mod Connection
mod Tests
