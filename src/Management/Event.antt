-- ===== src/Management/Event.antt =====
-- src/management/event.rs
use raftoral.Prelude.{ℕ, List, Option}
use raftoral.Prelude.Eq.{Text}

pub data ManagementEvent : Type 0 where
  sub_cluster_created : (cluster_id : ℕ) (node_ids : List ℕ) → ManagementEvent
  sub_cluster_deleted : (cluster_id : ℕ) → ManagementEvent
  node_added_to_sub_cluster : (cluster_id node_id : ℕ) → ManagementEvent
  node_removed_from_sub_cluster : (cluster_id node_id : ℕ) → ManagementEvent
  metadata_updated : (cluster_id : ℕ) (key : Text) (value : Option Text) → ManagementEvent
  failed_node_detected : (node_id : ℕ) → ManagementEvent
