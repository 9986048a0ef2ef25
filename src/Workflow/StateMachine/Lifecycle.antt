-- ===== src/Workflow/StateMachine/Lifecycle.antt =====
-- The status, input, result and owner of a workflow over its life.
use raftoral.Prelude.{◌≡◌, Option, none, some, Bool, true, false, arith}
use raftoral.Prelude.Eq.{Text, text_eq}
use raftoral.Prelude.HashMap.{get, get-insert, get-remove}
use raftoral.Workflow.Event.{running, completed}
use raftoral.Workflow.StateMachine.{
  WorkflowStateMachine, WorkflowCommand, workflow_start, workflow_end, set_checkpoint, owner_change,
  apply, get_workflow_status, get_input, get_result, get_owner, new,
}

abbrev pub is_some {ℓ} : {A : Type ℓ} → Option A → Bool
is_some none = false
is_some (some a) = true

-- A workflow has an input exactly while it runs, a result once it has completed, and an owner while
-- it runs.
pub record IsConsistent (s : WorkflowStateMachine) (w : Text) : Type 0 where
  pub running_has_input : get_workflow_status s w ≡ some running → is_some (get_input s w) ≡ true
  pub input_is_running : is_some (get_input s w) ≡ true → get_workflow_status s w ≡ some running
  pub completed_has_result :
      get_workflow_status s w ≡ some completed → is_some (get_result s w) ≡ true
  pub running_has_owner : get_workflow_status s w ≡ some running → is_some (get_owner s w) ≡ true

pub IsConsistent-new : (w : Text) → IsConsistent new w
unfolding get_workflow_status get_input get_result get_owner get
IsConsistent-new w = record {
  running_has_input = λ h. cc;
  input_is_running = λ h. cc;
  completed_has_result = λ h. cc;
  running_has_owner = λ h. cc;
}

-- A committed command keeps every workflow consistent.
pub apply-IsConsistent :
    (s : WorkflowStateMachine) (c : WorkflowCommand) (w : Text)
    → IsConsistent s w
    → IsConsistent (apply s c).0 w
unfolding apply get_workflow_status get_input get_result get_owner
apply-IsConsistent s (workflow_start id type version input owner) w h = record {
  running_has_input = λ r. ground (
    arith,
    get-insert id w running s.workflows,
    get-insert id w input s.inputs,
    h.running_has_input,
  );
  input_is_running = λ r. ground (
    arith,
    get-insert id w running s.workflows,
    get-insert id w input s.inputs,
    h.input_is_running,
  );
  completed_has_result =
      λ r. ground (arith, get-insert id w running s.workflows, h.completed_has_result);
  running_has_owner = λ r. ground (
    arith,
    get-insert id w running s.workflows,
    get-insert id w owner s.ownership,
    h.running_has_owner,
  );
}
apply-IsConsistent s (workflow_end id result) w h = record {
  running_has_input = λ r.
      ground (
        arith,
        get-insert id w completed s.workflows,
        get-remove id w s.inputs,
        h.running_has_input,
      );
  input_is_running = λ r.
      ground (
        arith,
        get-insert id w completed s.workflows,
        get-remove id w s.inputs,
        h.input_is_running,
      );
  completed_has_result = λ r. ground (
    arith,
    get-insert id w completed s.workflows,
    get-insert id w result s.results,
    h.completed_has_result,
  );
  running_has_owner =
      λ r. ground (arith, get-insert id w completed s.workflows, h.running_has_owner);
}
apply-IsConsistent s (set_checkpoint id key value) w h = record {
  running_has_input = h.running_has_input;
  input_is_running = h.input_is_running;
  completed_has_result = h.completed_has_result;
  running_has_owner = h.running_has_owner;
}
apply-IsConsistent s (owner_change id old next reason) w h = record {
  running_has_input = h.running_has_input;
  input_is_running = h.input_is_running;
  completed_has_result = h.completed_has_result;
  running_has_owner = λ r. ground (arith, get-insert id w next s.ownership, h.running_has_owner);
}
