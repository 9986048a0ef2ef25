-- ===== src/Management.antt =====
-- src/management/: the metadata of the sub-clusters and the policy that shapes them.
pub mod Event
pub mod StateMachine
pub mod ClusterManager
pub mod Runtime
mod Tests
