-- ===== src/Workflow/Runtime/Passing.antt =====
-- src/workflow/runtime.rs, `execute_owner_or_wait`: what may happen while a node waits for the owner.
use raftoral.Prelude.{
  ℕ, suc, ◌<◌, ◌⊎◌, ◌≡◌, refl, ◌∙◌, List, [], ◌∷◌, Option, none, some, Bool, true, false,
}
use raftoral.Prelude.Eq.{Text, text_eq, beq_refl, ◌==◌}
use raftoral.Prelude.HashMap.{get-insert}
use raftoral.Prelude.Result.{ok}
use raftoral.StateMachine.{Bytes}
use raftoral.Workflow.Event.{WorkflowEvent, checkpoint_set}
use raftoral.Workflow.StateMachine.{
  WorkflowStateMachine, WorkflowCommand, workflow_start, workflow_end, set_checkpoint, owner_change,
  OwnerChangeReason, apply, get_owner,
}
use raftoral.Workflow.Runtime.{
  Happening, applied, timer, wait_for_event, filtered_extractor, extracted, owned_by, events_of,
}

-- The workflow that a command is about.
abbrev pub workflow_of : WorkflowCommand → Text
workflow_of (workflow_start workflow_id workflow_type version input owner) = workflow_id
workflow_of (workflow_end workflow_id result) = workflow_id
workflow_of (set_checkpoint workflow_id key value) = workflow_id
workflow_of (owner_change workflow_id old_owner new_owner reason) = workflow_id

-- What happens while a node waits for the owner of a workflow, with how many of its waits time out:
-- entries of other workflows, seen or missed; checkpoints of this one that the caller does not wait
-- for; and entries of this one whose events are missed and that leave it with another owner.
pub data IsPassed {T : Type 0} (node_id : ℕ) (workflow_id : Text)
    (extractor : WorkflowEvent → Option T)
    : ℕ → List Happening → WorkflowStateMachine → WorkflowStateMachine → Type 0 where
  nothing : (s : WorkflowStateMachine) → IsPassed node_id workflow_id extractor 0 [] s s
  timed_out :
      (timers : ℕ) (happenings : List Happening) (s last : WorkflowStateMachine)
      → IsPassed node_id workflow_id extractor timers happenings s last
      → IsPassed node_id workflow_id extractor (suc timers) (timer ∷ happenings) s last
  elsewhere :
      (timers sync_id : ℕ) (delivered : Bool) (command : WorkflowCommand)
      (happenings : List Happening) (s last : WorkflowStateMachine)
      → (workflow_of command == workflow_id) ≡ false
      → IsPassed node_id workflow_id extractor timers happenings (apply s command).0 last
      → IsPassed node_id workflow_id extractor timers
          (applied sync_id delivered command ∷ happenings)
          s
          last
  untaken :
      (timers sync_id : ℕ) (key : Text) (value : Bytes) (happenings : List Happening)
      (s last : WorkflowStateMachine)
      → extractor (checkpoint_set workflow_id key value) ≡ none
      → IsPassed node_id workflow_id extractor timers happenings
          (apply s (set_checkpoint workflow_id key value)).0
          last
      → IsPassed node_id workflow_id extractor timers
          (applied sync_id true (set_checkpoint workflow_id key value) ∷ happenings)
          s
          last
  missed :
      (timers sync_id : ℕ) (command : WorkflowCommand) (happenings : List Happening)
      (s last : WorkflowStateMachine)
      → owned_by node_id (get_owner (apply s command).0 workflow_id) ≡ false
      → IsPassed node_id workflow_id extractor timers happenings (apply s command).0 last
      → IsPassed node_id workflow_id extractor timers
          (applied sync_id false command ∷ happenings)
          s
          last

-- The event of the change of the owner is seen, or missed and the wait times out after it.
abbrev pub noticed : (delivered : Bool) → List Happening → List Happening
noticed true rest = rest
noticed false rest = timer ∷ rest

-- The first nine waits lead to another check of the owner, and the tenth one is ended by the event.
abbrev pub IsInTime : (timers : ℕ) (delivered : Bool) → Type 0
IsInTime timers delivered = (timers < 9) ⊎ ((timers ≡ 9) × (delivered ≡ true))

-- A command about another workflow leaves the owner.
pub get_owner-elsewhere :
    (s : WorkflowStateMachine) (command : WorkflowCommand) (workflow_id : Text)
    → (workflow_of command == workflow_id) ≡ false
    → get_owner (apply s command).0 workflow_id ≡ get_owner s workflow_id
unfolding apply get_owner
get_owner-elsewhere s (workflow_start w t v i o) workflow_id h =
    get-insert w workflow_id o s.ownership ∙ rw h refl
get_owner-elsewhere s (workflow_end w r) workflow_id h = refl
get_owner-elsewhere s (set_checkpoint w k v) workflow_id h = refl
get_owner-elsewhere s (owner_change w o n r) workflow_id h =
    get-insert w workflow_id n s.ownership ∙ rw h refl

module _ {T : Type 0} (workflow_id : Text) (extractor : WorkflowEvent → Option T) where
  -- The event of a command about another workflow is passed over.
  pub passed_over :
      (s : WorkflowStateMachine) (command : WorkflowCommand)
      → (workflow_of command == workflow_id) ≡ false
      → extracted workflow_id
          (filtered_extractor workflow_id extractor)
          (events_of (apply s command).1)
        ≡ none
  unfolding extracted apply
  passed_over s (workflow_start w t v i o) h = rw h refl
  passed_over s (workflow_end w r) h = rw h refl
  passed_over s (set_checkpoint w k v) h = rw h refl
  passed_over s (owner_change w o n r) h = rw h refl

  -- So is a checkpoint that the caller does not wait for.
  pub not_taken :
      (s : WorkflowStateMachine) (key : Text) (value : Bytes)
      → extractor (checkpoint_set workflow_id key value) ≡ none
      → extracted workflow_id
          (filtered_extractor workflow_id extractor)
          (events_of (apply s (set_checkpoint workflow_id key value)).1)
        ≡ none
  unfolding extracted apply
  not_taken s key value h = rw (beq_refl workflow_id, h) refl

  pub sees_owner_change :
      (timed : Bool) (sync_id old_owner new_owner : ℕ) (reason : OwnerChangeReason)
      (s : WorkflowStateMachine) (rest : List Happening)
      → let change = owner_change workflow_id old_owner new_owner reason in
        wait_for_event workflow_id
          (filtered_extractor workflow_id extractor)
          timed
          s
          (applied sync_id true change ∷ rest)
        ≡ (record { replica = (apply s change).0; future = rest }, some (ok none))
  unfolding wait_for_event extracted apply
  sees_owner_change timed sync_id old_owner new_owner reason s rest = rw (beq_refl workflow_id) refl
