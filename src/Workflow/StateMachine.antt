-- ===== src/Workflow/StateMachine.antt =====
-- src/workflow/state_machine.rs: the status, input, result, checkpoints and owner of each workflow.
pub mod QueueKey
pub mod Queues
pub mod Lifecycle
pub mod Snapshots
use raftoral.Prelude.{
  ℕ, List, [], ◌∷◌, ◌++◌, map, Option, none, some, Bool, true, false, not, if◌then◌else◌, is_empty,
  filter_by,
}
use raftoral.Prelude.Eq.{Text, nat_eq, text_eq, ◌==◌}
use raftoral.Prelude.HashMap.{HashMap, get, insert, remove, retain}
use raftoral.Prelude.Result.{Result, ok, err}
use raftoral.StateMachine.{Bytes, Serde, StateMachine, default_on_follower_failed}
use raftoral.Workflow.Event.{
  WorkflowEvent, workflow_started, workflow_completed, checkpoint_set, ownership_changed,
  WorkflowStatus, running, completed, is_running,
}

-- The byte of ':'.
abbrev pub colon : ℕ
colon = b':'

unfoldable pub make_queue_key : Text → Text → Text
make_queue_key workflow_id key = workflow_id ++ colon ∷ key

-- `str::starts_with`
unfoldable pub starts_with : Text → Text → Bool
starts_with k [] = true
starts_with [] (p ∷ prefix) = false
starts_with (c ∷ k) (p ∷ prefix) = let rest = starts_with k prefix in if c == p then rest else false

pub data OwnerChangeReason : Type 0 where
  node_failure load_balancing : OwnerChangeReason

pub data WorkflowCommand : Type 0 where
  workflow_start :
      (workflow_id workflow_type : Text) (version : ℕ) (input : Bytes) (owner_node_id : ℕ)
      → WorkflowCommand
  workflow_end : (workflow_id : Text) (result : Bytes) → WorkflowCommand
  set_checkpoint : (workflow_id key : Text) (value : Bytes) → WorkflowCommand
  owner_change :
      (workflow_id : Text) (old_owner_node_id new_owner_node_id : ℕ) (reason : OwnerChangeReason)
      → WorkflowCommand

-- A `VecDeque` with its front first.
abbrev pub Queue : Type 0
Queue = List Bytes

pub record WorkflowStateMachine : Type 0 where
  pub workflows : HashMap Text WorkflowStatus
  pub inputs : HashMap Text Bytes
  pub results : HashMap Text Bytes
  pub checkpoint_queues : HashMap Text Queue
  pub checkpoint_history : HashMap Text Queue
  pub ownership : HashMap Text ℕ

abbrev pub new : WorkflowStateMachine
new = record {
  workflows = [];
  inputs = [];
  results = [];
  checkpoint_queues = [];
  checkpoint_history = [];
  ownership = [];
}

unfoldable pub get_workflow_status : WorkflowStateMachine → Text → Option WorkflowStatus
get_workflow_status self workflow_id = get workflow_id self.workflows

unfoldable pub get_result : WorkflowStateMachine → Text → Option Bytes
get_result self workflow_id = get workflow_id self.results

unfoldable pub get_input : WorkflowStateMachine → Text → Option Bytes
get_input self workflow_id = get workflow_id self.inputs

unfoldable pub get_owner : WorkflowStateMachine → Text → Option ℕ
get_owner self workflow_id = get workflow_id self.ownership

unfoldable pub list_active_workflows : WorkflowStateMachine → List Text
list_active_workflows self =
    map (λ entry. entry.0) (filter_by (λ entry. is_running entry.1) self.workflows)

unfoldable pub pop_queued_checkpoint :
    WorkflowStateMachine → Text → Text → WorkflowStateMachine × Option Bytes
pop_queued_checkpoint self workflow_id key =
    let queue_key = make_queue_key workflow_id key in
    elim (get queue_key self.checkpoint_queues) [
      | none ↦ (self, none)
      | some [] ↦ (self, none)
      | some (value ∷ queue) ↦ (
        record self { checkpoint_queues = insert queue_key queue self.checkpoint_queues },
        some value,
      )
    ]

unfoldable pub has_queued_checkpoint : WorkflowStateMachine → Text → Text → Bool
has_queued_checkpoint self workflow_id key =
    elim (get (make_queue_key workflow_id key) self.checkpoint_queues) [
      | none ↦ false
      | some queue ↦ not (is_empty queue)
    ]

-- `entry(key).or_insert_with(VecDeque::new).push_back(value)`
abbrev pub or_new : Option Queue → Queue
or_new none = []
or_new (some queue) = queue

unfoldable pub push_back : Text → Bytes → HashMap Text Queue → HashMap Text Queue
push_back key value m = insert key (or_new (get key m) ++ value ∷ []) m

abbrev pub Applied : Type 0
Applied = WorkflowStateMachine × Result Text (List WorkflowEvent)

unfoldable pub apply : WorkflowStateMachine → WorkflowCommand → Applied
apply self (workflow_start workflow_id workflow_type version input owner_node_id) = (
  record self {
    workflows = insert workflow_id running self.workflows;
    inputs = insert workflow_id input self.inputs;
    ownership = insert workflow_id owner_node_id self.ownership;
  },
  ok (workflow_started workflow_id workflow_type version owner_node_id ∷ []),
)
apply self (workflow_end workflow_id result) =
    let prefix = workflow_id ++ colon ∷ [] in
    (
      record self {
        workflows = insert workflow_id completed self.workflows;
        results = insert workflow_id result self.results;
        inputs = remove workflow_id self.inputs;
        checkpoint_queues = retain (λ k. not (starts_with k prefix)) self.checkpoint_queues;
        checkpoint_history = retain (λ k. not (starts_with k prefix)) self.checkpoint_history;
      },
      ok (workflow_completed workflow_id result ∷ []),
    )
apply self (set_checkpoint workflow_id key value) =
    let queue_key = make_queue_key workflow_id key in
    (
      record self {
        checkpoint_queues = push_back queue_key value self.checkpoint_queues;
        checkpoint_history = push_back queue_key value self.checkpoint_history;
      },
      ok (checkpoint_set workflow_id key value ∷ []),
    )
apply self (owner_change workflow_id old_owner_node_id new_owner_node_id reason) = (
  record self { ownership = insert workflow_id new_owner_node_id self.ownership },
  ok (ownership_changed workflow_id old_owner_node_id new_owner_node_id ∷ []),
)

-- The struct `Snapshot`: the transient queues are not in it.
pub record Snapshot : Type 0 where
  pub workflows : HashMap Text WorkflowStatus
  pub inputs : HashMap Text Bytes
  pub results : HashMap Text Bytes
  pub checkpoint_history : HashMap Text Queue
  pub ownership : HashMap Text ℕ

abbrev pub to_snapshot : WorkflowStateMachine → Snapshot
to_snapshot self = record {
  workflows = self.workflows;
  inputs = self.inputs;
  results = self.results;
  checkpoint_history = self.checkpoint_history;
  ownership = self.ownership;
}

-- `for value in history { queue.push_back(value); }`
unfoldable pub push_all : Queue → Queue → Queue
push_all queue [] = queue
push_all queue (value ∷ history) = push_all (queue ++ value ∷ []) history

-- The loop of `restore` over the entries of the history, from the cleared queues.
unfoldable pub rebuild_queues : HashMap Text Queue → HashMap Text Queue → HashMap Text Queue
rebuild_queues queues [] = queues
rebuild_queues queues ((composite_key, history) ∷ rest) =
    rebuild_queues (insert composite_key (push_all [] history) queues) rest

module _ {Same : Snapshot → Snapshot → Type 0} (serde : Serde Snapshot Same) where
  unfoldable pub snapshot : WorkflowStateMachine → Result Text Bytes
  snapshot self = serde.to_vec (to_snapshot self)

  unfoldable pub restore :
      WorkflowStateMachine → Bytes → WorkflowStateMachine × Result Text (Unit {0})
  restore self bytes = elim (serde.from_slice bytes) [
    | ok s ↦ (
      record {
        workflows = s.workflows;
        inputs = s.inputs;
        results = s.results;
        checkpoint_history = s.checkpoint_history;
        ownership = s.ownership;
        checkpoint_queues = rebuild_queues [] s.checkpoint_history;
      },
      ok tt,
    )
    | err e ↦ (self, err e)
  ]

  -- The trait's implementation for workflows.
  abbrev pub workflow_state_machine : StateMachine
  workflow_state_machine = record {
    State = WorkflowStateMachine;
    Command = WorkflowCommand;
    Event = WorkflowEvent;
    Error = Text;
    apply = apply;
    snapshot = snapshot;
    restore = restore;
    on_follower_failed = default_on_follower_failed;
  }
