-- ===== src/Workflow/Event.antt =====
-- src/workflow/event.rs and the status of src/workflow/error.rs
use raftoral.Prelude.{ℕ, Bool, true, false}
use raftoral.Prelude.Eq.{Text}
use raftoral.StateMachine.{Bytes}

pub data WorkflowEvent : Type 0 where
  workflow_started : (workflow_id workflow_type : Text) (version owner_node_id : ℕ) → WorkflowEvent
  workflow_completed : (workflow_id : Text) (result : Bytes) → WorkflowEvent
  workflow_failed : (workflow_id : Text) (error : Bytes) → WorkflowEvent
  checkpoint_set : (workflow_id key : Text) (value : Bytes) → WorkflowEvent
  ownership_changed : (workflow_id : Text) (old_owner_node_id new_owner_node_id : ℕ) → WorkflowEvent

pub data WorkflowStatus : Type 0 where
  running completed failed : WorkflowStatus

-- `status == WorkflowStatus::Running`
abbrev pub is_running : WorkflowStatus → Bool
is_running running = true
is_running _ = false
