-- ===== src/Workflow/Ownership.antt =====
-- src/workflow/ownership.rs: which node owns which workflow.
use raftoral.Prelude.{ℕ, List, [], Option, map, length, filter_by, nat_beq}
use raftoral.Prelude.Eq.{Text, text_eq}
use raftoral.Prelude.HashMap.{HashMap, get, insert, remove}

pub record WorkflowOwnershipMap : Type 0 where
  pub inner : HashMap Text ℕ

abbrev pub new : WorkflowOwnershipMap
new = record { inner = [] }

unfoldable pub set_owner : Text → ℕ → WorkflowOwnershipMap → WorkflowOwnershipMap
set_owner workflow_id owner_node_id self = record {
  inner = insert workflow_id owner_node_id self.inner;
}

unfoldable pub get_owner : Text → WorkflowOwnershipMap → Option ℕ
get_owner workflow_id self = get workflow_id self.inner

unfoldable pub remove_owner : Text → WorkflowOwnershipMap → WorkflowOwnershipMap
remove_owner workflow_id self = record { inner = remove workflow_id self.inner }

unfoldable pub get_workflows_owned_by : ℕ → WorkflowOwnershipMap → List Text
get_workflows_owned_by node_id self =
    map (λ entry. entry.0) (filter_by (λ entry. nat_beq entry.1 node_id) self.inner)

abbrev pub count : WorkflowOwnershipMap → ℕ
count self = length self.inner
