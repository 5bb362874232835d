-- ===== src/Host.antt =====
-- The crate src/Blun.Mq.Host: the node's gRPC services and its start.
pub mod Action
pub mod Peers
pub mod Decimal
pub mod Environment
pub mod Main
pub mod RaftRpc
pub mod Service
pub mod Start
pub mod Status
