-- ===== src/Raft.antt =====
-- The crate src/Blun.Mq.Raft: the replicated state machines, their stores, the log store and the
-- network between the nodes.
pub mod Types
pub mod Config
pub mod Build
pub mod Openraft
pub mod Queue
pub mod Serde
pub mod SnapshotId
pub mod Store
pub mod QueueStore
pub mod Nodes
pub mod NodeStore
pub mod Engine
pub mod LogStore
pub mod Network
