-- ===== src/Workflow/Runtime.antt =====
-- src/workflow/runtime.rs: what the tasks of a workflow do at one node, against a schedule of what
-- the rest of the cluster does meanwhile.
pub mod Checkpoints
pub mod Execution
pub mod Start
pub mod Replay
pub mod Waiting
pub mod Owner
pub mod Passing
pub mod Failover
mod Tests
use raftoral.Prelude.{
  ℕ, zero, suc, List, [], ◌∷◌, ◌++◌, Option, none, some, Bool, true, false, if◌then◌else◌, nat_beq,
}
use raftoral.Prelude.Eq.{Text, text_eq, text_beq, codes, ◌==◌}
use raftoral.Prelude.Result.{Result, ok, err}
use raftoral.Raft.ProposalRouter.{ProposalError}
use raftoral.Raft.Schedule
use raftoral.Raft.Schedule.{Occurrence, Timeline}
pub use raftoral.Raft.Schedule.{applied, closed, timer, dropped}
use raftoral.Workflow.Error.{WorkflowError, cluster_error, timeout}
use raftoral.Workflow.Event.{
  WorkflowEvent, workflow_started, workflow_completed, workflow_failed, checkpoint_set,
  ownership_changed,
}
use raftoral.Workflow.StateMachine.{WorkflowCommand, WorkflowStateMachine, apply, get_owner}
use raftoral.Workflow.Registry.{Task, WorkflowRegistry}

abbrev pub Happening : Type 0
Happening = Occurrence WorkflowCommand

abbrev pub World : Type 0
World = Timeline WorkflowStateMachine WorkflowCommand

abbrev pub event_workflow_id : WorkflowEvent → Text
event_workflow_id (workflow_started workflow_id workflow_type version owner) = workflow_id
event_workflow_id (workflow_completed workflow_id result) = workflow_id
event_workflow_id (workflow_failed workflow_id error) = workflow_id
event_workflow_id (checkpoint_set workflow_id key value) = workflow_id
event_workflow_id (ownership_changed workflow_id old_owner new_owner) = workflow_id

abbrev pub matches_workflow : (target_workflow_id : Text) → WorkflowEvent → Bool
matches_workflow target_workflow_id event = event_workflow_id event == target_workflow_id

abbrev pub first_some : {T : Type 0} → Option T → Option T → Option T
first_some none later = later
first_some (some value) later = some value

-- The first value that `event_extractor` takes from the events of this workflow.
unfoldable pub extracted :
    {T : Type 0} → Text → (WorkflowEvent → Option T) → List WorkflowEvent → Option T
extracted target event_extractor [] = none
extracted target event_extractor (event ∷ events) =
    first_some (if matches_workflow target event then event_extractor event else none)
      (extracted target event_extractor events)

abbrev pub events_of : {E : Type 0} → Result E (List WorkflowEvent) → List WorkflowEvent
events_of (ok events) = events
events_of (err e) = []

abbrev pub got :
    {T : Type 0}
    → World
    → Option T
    → World × Option (Result WorkflowError T)
    → World × Option (Result WorkflowError T)
got w none rest = rest
got w (some value) rest = (w, some (ok value))

-- `wait_for_event`, with whether it has a timeout. Without one it may wait for ever; with one it
-- ends at the latest when nothing happens any more.
unfoldable pub wait_for_event :
    {T : Type 0}
    → (target : Text) → (WorkflowEvent → Option T)
    → (timed : Bool) → (replica : WorkflowStateMachine) → List Happening
    → World × Option (Result WorkflowError T)
wait_for_event target event_extractor timed replica [] =
    (record { replica = replica; future = [] }, if timed then some (err timeout) else none)
wait_for_event target event_extractor timed replica (timer ∷ future) =
    let rest = wait_for_event target event_extractor timed replica future in
    if timed then (record { replica = replica; future = future }, some (err timeout)) else rest
wait_for_event target event_extractor timed replica (closed ∷ future) = (
  record { replica = replica; future = future },
  some (err (cluster_error (codes "Event channel closed"))),
)
wait_for_event target event_extractor timed replica (dropped sync_id ∷ future) =
    wait_for_event target event_extractor timed replica future
wait_for_event target event_extractor timed replica (applied sync_id delivered command ∷ future) =
    let (after, r) = apply replica command in
    let rest = wait_for_event target event_extractor timed after future in
    got (record { replica = after; future = future })
      (if delivered then extracted target event_extractor (events_of r) else none) rest

module _ {T : Type 0} where
  abbrev pub wrapped : Option T → Option (Option T)
  wrapped none = none
  wrapped (some value) = some (some value)

  -- A change of the owner, or the value of the caller's own extractor.
  abbrev pub or_ownership_change : (WorkflowEvent → Option T) → WorkflowEvent → Option (Option T)
  or_ownership_change event_extractor (ownership_changed workflow_id old_owner new_owner) =
      some none
  or_ownership_change event_extractor event = wrapped (event_extractor event)

  abbrev pub filtered_extractor :
      Text → (WorkflowEvent → Option T) → WorkflowEvent → Option (Option T)
  filtered_extractor workflow_id event_extractor event =
      if matches_workflow workflow_id event then or_ownership_change event_extractor event else none

  unfoldable pub wait_for_event_or_ownership_change :
      (workflow_id : Text)
      → (WorkflowEvent → Option T)
      → (timed : Bool) → World
      → World × Option (Result WorkflowError (Option T))
  wait_for_event_or_ownership_change workflow_id event_extractor timed w =
      wait_for_event workflow_id (filtered_extractor workflow_id event_extractor) timed w.replica
        w.future

-- `proposal_router` is the router by its `propose`, which gives the id of the completion that the
-- caller waits for.
pub record WorkflowRuntime : Type 0 where
  pub propose : WorkflowCommand → World → World × Result ProposalError ℕ
  pub registry : WorkflowRegistry World
  pub node_id : ℕ
  pub cluster_id : ℕ

-- `match owner { Some(owner) => owner == self.node_id, None => true }`
abbrev pub owned_by : ℕ → Option ℕ → Bool
owned_by node_id (some owner) = nat_beq owner node_id
owned_by node_id none = true

-- Whether no attempt is left after this one.
abbrev pub is_last : ℕ → Bool
is_last zero = true
is_last (suc left) = false

module _ (self : WorkflowRuntime) where
  unfoldable pub is_workflow_owner : Text → World → Bool
  is_workflow_owner workflow_id w = owned_by self.node_id (get_owner w.replica workflow_id)

  unfoldable pub propose_and_wait :
      WorkflowCommand → World → World × Option (Result ProposalError (Unit {0}))
  unfolding Schedule.propose_and_wait
  propose_and_wait = Schedule.propose_and_wait apply (λ e. e) self.propose

  module _ {T : Type 0} where
    -- How one wait of a node that is not the owner goes on; `last` is whether this is its last attempt.
    abbrev pub after_wait :
        Text
        → (last : Bool) → (retry : Task World T) → World × Option (Result WorkflowError (Option T))
        → World × Option (Result WorkflowError T)
    after_wait workflow_id last retry (w, none) = (w, none)
    after_wait workflow_id last retry (w, some (ok (some value))) = (w, some (ok value))
    after_wait workflow_id last retry (w, some (ok none)) = retry w
    after_wait workflow_id last retry (w, some (err timeout)) =
        let again = retry w in
        if is_workflow_owner workflow_id w
        then again
        else if last
        then (w, some (err timeout))
        else again
    after_wait workflow_id last retry (w, some (err e)) = (w, some (err e))

    -- The attempts that are left; only the last one uses `passive_timeout`.
    unfoldable pub attempts :
        (left : ℕ)
        → Text
        → (owner_operation : Task World T) → (WorkflowEvent → Option T)
        → (passive_timeout : Bool) → Task World T
    unfolding is_workflow_owner
    attempts zero workflow_id owner_operation wait_for_event_fn passive_timeout w =
        (w, some (err timeout))
    attempts (suc left) workflow_id owner_operation wait_for_event_fn passive_timeout w =
        let timed = if is_last left then passive_timeout else true in
        let waited = wait_for_event_or_ownership_change workflow_id wait_for_event_fn timed w in
        let next =
          after_wait workflow_id (is_last left)
            (attempts left workflow_id owner_operation wait_for_event_fn passive_timeout) waited in
        if is_workflow_owner workflow_id w then owner_operation w else next

    -- `max_retries` is 10.
    unfoldable pub execute_owner_or_wait :
        Text
        → (owner_operation : Task World T) → (WorkflowEvent → Option T)
        → (passive_timeout : Bool) → Task World T
    unfolding attempts
    execute_owner_or_wait = attempts 10
