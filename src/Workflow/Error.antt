-- ===== src/Workflow/Error.antt =====
-- src/workflow/error.rs: the errors of the workflow runtime.
use raftoral.Prelude.Eq.{Text}

pub data WorkflowError : Type 0 where
  already_exists not_found cluster_error serialization_error deserialization_error :
      Text → WorkflowError
  not_leader timeout : WorkflowError

-- Declared in the source, and used nowhere in it.
pub data ReplicatedVarError : Type 0 where
  var_serialization_error var_deserialization_error proposal_error : Text → ReplicatedVarError
