-- ===== src/Workflow/Runtime/Checkpoints.antt =====
-- src/workflow/runtime.rs, `try_dequeue_checkpoint` and `set_checkpoint`, and the replicated variables
-- of src/workflow/replicated_var.rs. serde_json is a parameter at the type of the values.
use raftoral.Prelude.{Option, none, some, false, if◌then◌else◌, ◌≡◌, ◌++◌}
use raftoral.Prelude.Eq.{Text, text_eq, codes, ◌==◌}
use raftoral.Prelude.Result.{Result, ok, err}
use raftoral.StateMachine.{Bytes, Serde}
use raftoral.Raft.ProposalRouter.{ProposalError}
use raftoral.Workflow.Error.{WorkflowError, cluster_error, serialization_error}
use raftoral.Workflow.Event.{WorkflowEvent, checkpoint_set}
use raftoral.Workflow.StateMachine.{WorkflowCommand, pop_queued_checkpoint}
use raftoral.Workflow.Registry.{Task}
use raftoral.Workflow.Runtime.{World, WorkflowRuntime, propose_and_wait, execute_owner_or_wait}

module _ {T : Type 0} (json : Serde T (λ a b. a ≡ b)) where
  abbrev pub deserialized : Result Text T → Result WorkflowError (Option T)
  deserialized (ok value) = ok (some value)
  deserialized (err e) = err (serialization_error (codes "Deserialization error: " ++ e))

  abbrev pub dequeued : Option Bytes → Result WorkflowError (Option T)
  dequeued none = ok none
  dequeued (some serialized_value) = deserialized (json.from_slice serialized_value)

  unfoldable pub try_dequeue_checkpoint :
      (workflow_id key : Text) → World → World × Result WorkflowError (Option T)
  try_dequeue_checkpoint workflow_id key w =
      let (replica, value) = pop_queued_checkpoint w.replica workflow_id key in
      (record w { replica = replica }, dequeued value)

  abbrev value_of : Result Text T → Option T
  value_of (ok value) = some value
  value_of (err e) = none

  -- What a node that is not the owner takes from an event.
  abbrev pub checkpoint_value : (workflow_id key : Text) → WorkflowEvent → Option T
  checkpoint_value workflow_id key (checkpoint_set event_wf_id event_key event_value) =
      if event_wf_id == workflow_id
      then (if event_key == key then value_of (json.from_slice event_value) else none)
      else none
  checkpoint_value workflow_id key event = none

  -- The owner takes a value off the queue, and returns its own.
  abbrev pub popped :
      (error_text : ProposalError → Text)
      → (workflow_id key : Text) → T
      → World × Option (Result ProposalError (Unit {0}))
      → World × Option (Result WorkflowError T)
  popped error_text workflow_id key value (w, none) = (w, none)
  popped error_text workflow_id key value (w, some (err e)) =
      (w, some (err (cluster_error (error_text e))))
  popped error_text workflow_id key value (w, some (ok a)) =
      (record w { replica = (pop_queued_checkpoint w.replica workflow_id key).0 }, some (ok value))

  module _ (error_text : ProposalError → Text) (self : WorkflowRuntime) where
    abbrev pub owner_sets : (workflow_id key : Text) → Bytes → T → Task World T
    owner_sets workflow_id key value_bytes value w =
        popped error_text workflow_id key value
          (propose_and_wait self (WorkflowCommand.set_checkpoint workflow_id key value_bytes) w)

    abbrev pub set_or_wait : (workflow_id key : Text) → T → Result Text Bytes → Task World T
    set_or_wait workflow_id key value (err e) w = (w, some (err (serialization_error e)))
    set_or_wait workflow_id key value (ok value_bytes) w =
        execute_owner_or_wait self workflow_id (owner_sets workflow_id key value_bytes value)
          (checkpoint_value workflow_id key) false w

    abbrev pub queued_or :
        (workflow_id key : Text)
        → T
        → World × Result WorkflowError (Option T)
        → World × Option (Result WorkflowError T)
    queued_or workflow_id key value (w, err e) = (w, some (err e))
    queued_or workflow_id key value (w, ok (some queued_value)) = (w, some (ok queued_value))
    queued_or workflow_id key value (w, ok none) =
        set_or_wait workflow_id key value (json.to_vec value) w

    unfoldable pub set_checkpoint : (workflow_id key : Text) → T → Task World T
    unfolding try_dequeue_checkpoint
    set_checkpoint workflow_id key value w =
        queued_or workflow_id key value (try_dequeue_checkpoint workflow_id key w)

    -- A variable with the value that it caches.
    pub record ReplicatedVar : Type 0 where
      pub workflow_id : Text
      pub key : Text
      pub value : T

    abbrev pub stored_in :
        Text
        → Text
        → World × Option (Result WorkflowError T)
        → World × Option (Result WorkflowError ReplicatedVar)
    stored_in workflow_id key (w, none) = (w, none)
    stored_in workflow_id key (w, some (err e)) = (w, some (err e))
    stored_in workflow_id key (w, some (ok stored_value)) =
        (w, some (ok (record { workflow_id = workflow_id; key = key; value = stored_value })))

    unfoldable pub with_value : (workflow_id key : Text) → T → Task World ReplicatedVar
    unfolding set_checkpoint
    with_value workflow_id key value w =
        stored_in workflow_id key (set_checkpoint workflow_id key value w)

    abbrev pub computed_in :
        Text → Text → World × Option T → World × Option (Result WorkflowError ReplicatedVar)
    unfolding set_checkpoint
    computed_in workflow_id key (w, none) = (w, none)
    computed_in workflow_id key (w, some value) =
        stored_in workflow_id key (set_checkpoint workflow_id key value w)

    -- The computation is not asked for an error, and may not end.
    unfoldable pub with_computation :
        (workflow_id key : Text) → (compute : World → World × Option T) → Task World ReplicatedVar
    with_computation workflow_id key compute w = computed_in workflow_id key (compute w)

    unfoldable pub set : T → ReplicatedVar → Task World ReplicatedVar
    unfolding set_checkpoint
    set value var w =
        stored_in var.workflow_id var.key (set_checkpoint var.workflow_id var.key value w)

    unfoldable pub update : (updater : T → T) → ReplicatedVar → Task World ReplicatedVar
    unfolding set
    update updater var = set (updater var.value) var
