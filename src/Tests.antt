-- ===== src/Tests.antt =====
-- Concrete instances of what the development takes as parameters, and the theorems at concrete
-- inputs.
pub mod Codec
pub mod Instances
mod QueueTests
mod StoreTests
mod ReplicaTests
mod GroupTests
mod DirectoryTests
mod LogTests
mod RpcTests
mod HostTests
pub mod Cluster
pub mod Disk
mod RestartTests
mod ServiceTests
mod StreamTests
pub mod OneNode
mod MainTests
mod DemoTests
