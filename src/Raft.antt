-- ===== src/Raft.antt =====
-- src/raft/generic/: the Raft infrastructure.
pub mod Types
pub mod RocksDb
pub mod Memory
pub mod RocksDbStorage
pub mod Node
pub mod ClusterRouter
pub mod ProposalRouter
pub mod EventBus
pub mod Schedule
pub mod Transport
mod Tests
