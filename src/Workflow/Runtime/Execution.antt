-- ===== src/Workflow/Runtime/Execution.antt =====
-- src/workflow/runtime.rs, the start and the execution of workflows, and src/workflow/context.rs, the
-- wait for the end of one.
use raftoral.Prelude.{ℕ, List, [], ◌∷◌, ◌++◌, Option, none, some, false, if◌then◌else◌}
use raftoral.Prelude.Eq.{Text, text_eq, codes, ◌==◌}
use raftoral.Prelude.Result.{Result, ok, err}
use raftoral.StateMachine.{Bytes}
use raftoral.Raft.ProposalRouter.{ProposalError}
use raftoral.Workflow.Error.{
  WorkflowError, cluster_error, serialization_error, deserialization_error,
}
use raftoral.Workflow.Event.{WorkflowEvent, workflow_started, workflow_completed, workflow_failed}
use raftoral.Workflow.StateMachine.{
  workflow_start, workflow_end, WorkflowStateMachine, apply, get_input,
}
use raftoral.Workflow.Registry.{Task, BoxedWorkflowFunction, get_function}
use raftoral.Workflow.Runtime.{
  Happening, applied, closed, timer, dropped, World, events_of, first_some, WorkflowRuntime,
  propose_and_wait, execute_owner_or_wait,
}

-- A workflow whose execution the observer starts in a task of its own.
pub record Execution : Type 0 where
  pub workflow_id : Text
  pub workflow_type : Text
  pub version : ℕ

abbrev pub execution_of : WorkflowEvent → List Execution
execution_of (workflow_started workflow_id workflow_type version owner) =
    record { workflow_id = workflow_id; workflow_type = workflow_type; version = version } ∷ []
execution_of event = []

abbrev pub executions_of : List WorkflowEvent → List Execution
executions_of [] = []
executions_of (event ∷ events) = execution_of event ++ executions_of events

-- What the observer starts while these things happen.
unfoldable pub run_workflow_observer :
    (replica : WorkflowStateMachine) → List Happening → List Execution
run_workflow_observer replica [] = []
run_workflow_observer replica (applied sync_id delivered command ∷ future) =
    let (after, r) = apply replica command in
    (if delivered then executions_of (events_of r) else []) ++ run_workflow_observer after future
run_workflow_observer replica (closed ∷ future) = []
run_workflow_observer replica (timer ∷ future) = run_workflow_observer replica future
run_workflow_observer replica (dropped sync_id ∷ future) = run_workflow_observer replica future

-- The end of a workflow, whichever it is.
abbrev pub has_ended : (workflow_id : Text) → WorkflowEvent → Option (Unit {0})
has_ended workflow_id (workflow_completed event_wf_id result) =
    if event_wf_id == workflow_id then some tt else none
has_ended workflow_id (workflow_failed event_wf_id error) =
    if event_wf_id == workflow_id then some tt else none
has_ended workflow_id event = none

-- `error_text` prints an error of the router, `error_bytes` serializes one of a workflow, or what the
-- source falls back to.
module _ (error_text : ProposalError → Text) (error_bytes : WorkflowError → Bytes)
    (self : WorkflowRuntime) where
  abbrev pub started :
      World × Option (Result ProposalError (Unit {0}))
      → World × Option (Result WorkflowError (Unit {0}))
  started (w, none) = (w, none)
  started (w, some (ok a)) = (w, some (ok tt))
  started (w, some (err e)) = (w, some (err (cluster_error (error_text e))))

  abbrev pub start_with :
      (workflow_id workflow_type : Text) (version : ℕ) → Result Text Bytes → Task World (Unit {0})
  start_with workflow_id workflow_type version (err e) w = (w, some (err (serialization_error e)))
  start_with workflow_id workflow_type version (ok input_bytes) w = started (
      propose_and_wait self
        (workflow_start workflow_id workflow_type version input_bytes self.node_id) w)

  -- The handle that `start_workflow` returns is the id of the workflow.
  unfoldable pub start_workflow :
      {I : Type 0}
      → (to_vec : I → Result Text Bytes) → (workflow_id workflow_type : Text) (version : ℕ) → I
      → Task World (Unit {0})
  start_workflow to_vec workflow_id workflow_type version input =
      start_with workflow_id workflow_type version (to_vec input)

  abbrev pub ended :
      World × Option (Result ProposalError (Unit {0}))
      → World × Option (Result WorkflowError (Unit {0}))
  ended (w, none) = (w, none)
  ended (w, some (ok a)) = (w, some (ok tt))
  ended (w, some (err e)) =
      (w, some (err (cluster_error (codes "Failed to propose WorkflowEnd: " ++ error_text e))))

  abbrev pub propose_end : Text → Bytes → Task World (Unit {0})
  propose_end workflow_id result_bytes w =
      ended (propose_and_wait self (workflow_end workflow_id result_bytes) w)

  abbrev pub result_bytes_of : Result WorkflowError Bytes → Bytes
  result_bytes_of (ok result_bytes) = result_bytes
  result_bytes_of (err e) = error_bytes e

  -- A failure to record the end is only logged.
  abbrev pub logged : World × Option (Result WorkflowError (Unit {0})) → World × Option (Unit {0})
  logged (w, none) = (w, none)
  logged (w, some r) = (w, some tt)

  abbrev pub finish : Text → World × Option (Result WorkflowError Bytes) → World × Option (Unit {0})
  finish workflow_id (w, none) = (w, none)
  finish workflow_id (w, some result) = logged (
      execute_owner_or_wait self workflow_id (propose_end workflow_id (result_bytes_of result))
        (has_ended workflow_id) false w)

  abbrev pub execute_on :
      Text → BoxedWorkflowFunction World → Option Bytes → World → World × Option (Unit {0})
  execute_on workflow_id workflow_fn none w = (w, some tt)
  execute_on workflow_id workflow_fn (some input_bytes) w =
      finish workflow_id (workflow_fn input_bytes workflow_id w)

  abbrev pub execute_with :
      Text → Option (BoxedWorkflowFunction World) → World → World × Option (Unit {0})
  execute_with workflow_id none w = (w, some tt)
  execute_with workflow_id (some workflow_fn) w =
      execute_on workflow_id workflow_fn (get_input w.replica workflow_id) w

  -- `none` where the execution never ends.
  unfoldable pub execute_workflow : Execution → World → World × Option (Unit {0})
  execute_workflow e = execute_with e.workflow_id (
      get_function World (record { workflow_type = e.workflow_type; version = e.version })
        self.registry)

-- `wait_for_completion`: the result, or the error, as it was serialized.
module _ {O : Type 0} (result_of : Bytes → Result Text (Result WorkflowError O))
    (error_of : Bytes → Result Text WorkflowError) where
  abbrev pub result_from : Result Text (Result WorkflowError O) → Result WorkflowError O
  result_from (ok result) = result
  result_from (err e) = err (deserialization_error e)

  abbrev pub error_from : Result Text WorkflowError → Result WorkflowError O
  error_from (ok error) = err error
  error_from (err e) = err (deserialization_error e)

  abbrev pub completion : Text → WorkflowEvent → Option (Result WorkflowError O)
  completion target (workflow_completed workflow_id result) =
      if workflow_id == target then some (result_from (result_of result)) else none
  completion target (workflow_failed workflow_id error) =
      if workflow_id == target then some (error_from (error_of error)) else none
  completion target event = none

  abbrev pub first_completion : Text → List WorkflowEvent → Option (Result WorkflowError O)
  first_completion target [] = none
  first_completion target (event ∷ events) =
      first_some (completion target event) (first_completion target events)

  abbrev pub finished :
      World
      → Option (Result WorkflowError O)
      → World × Option (Result WorkflowError O)
      → World × Option (Result WorkflowError O)
  finished w none rest = rest
  finished w (some result) rest = (w, some result)

  unfoldable pub wait_for_completion :
      (workflow_id : Text)
      → (replica : WorkflowStateMachine) → List Happening
      → World × Option (Result WorkflowError O)
  wait_for_completion target replica [] = (record { replica = replica; future = [] }, none)
  wait_for_completion target replica (applied sync_id delivered command ∷ future) =
      let (after, r) = apply replica command in
      finished (record { replica = after; future = future })
        (if delivered then first_completion target (events_of r) else none)
        (wait_for_completion target after future)
  wait_for_completion target replica (closed ∷ future) = (
    record { replica = replica; future = future },
    some (err (cluster_error (codes "Event channel closed"))),
  )
  wait_for_completion target replica (timer ∷ future) = wait_for_completion target replica future
  wait_for_completion target replica (dropped sync_id ∷ future) =
      wait_for_completion target replica future
