-- ===== src/Workflow/Runtime/Tests.antt =====
-- The theorems on the runtime at concrete schedules, with numbers as values.
use raftoral.Prelude.{
  ℕ, ◌≡◌, refl, ap, sym, List, [], ◌∷◌, ◌++◌, Option, false, none, some, map, true, arith, inl,
}
use raftoral.Prelude.Eq.{Text, codes, text_eq, text_beq}
use raftoral.Prelude.Result.{Result, ok, err, ok-injective}
use raftoral.StateMachine.{Bytes, Serde}
use raftoral.Raft.ProposalRouter.{ProposalError}
use raftoral.Workflow.Error.{WorkflowError}
use raftoral.Workflow.StateMachine.{
  WorkflowStateMachine, make_queue_key, owner_change, node_failure, workflow_start, apply, new,
  get_owner,
}
use raftoral.Prelude.HashMap.{get}
use raftoral.Workflow.StateMachine.Queues.{history_at, queue_at}
use raftoral.Workflow.StateMachine.Queues.Fifo.{queue}
use raftoral.Workflow.Runtime.{
  World, Happening, applied, timer, WorkflowRuntime, execute_owner_or_wait, is_workflow_owner,
}
use raftoral.Workflow.Runtime.Checkpoints.{set_checkpoint, checkpoint_value}
use raftoral.Workflow.Runtime.Replay.{set_each, Encodes, next, set_each-replays}
use raftoral.Workflow.Runtime.Waiting.{committed, set_checkpoint-stale, set_checkpoint-misses}
use raftoral.Workflow.Runtime.Owner.{set_checkpoint-owner}
use raftoral.Workflow.Runtime.Failover.{execute_owner_or_wait-failover}
use raftoral.Workflow.Runtime.Passing.{IsPassed, timed_out, elsewhere}

abbrev first_number : Bytes → Result Text ℕ
first_number [] = err (codes "empty")
first_number (n ∷ bytes) = ok n

read-written :
    (n : ℕ) (bytes : Bytes)
    → ◌≡◌ {A = Result Text Bytes} (ok (n ∷ [])) (ok bytes)
    → first_number bytes ≡ ok n
read-written n bytes h = ap first_number (ok-injective (sym h))

abbrev numbers : Serde ℕ (λ a b. a ≡ b)
numbers = record {
  to_vec = λ n. ok (n ∷ []);
  from_slice = first_number;
  from_slice-to_vec = λ a bytes h. (a, read-written a bytes h, refl);
}

abbrev no_text : ProposalError → Text
no_text e = []

-- Node 1, whose proposals are committed at once under the id 5.
abbrev runtime : WorkflowRuntime
runtime = record {
  propose = λ command w. (record w { future = applied 5 true command ∷ w.future }, ok 5);
  registry = record { workflows = [] };
  node_id = 1;
  cluster_id = 3;
}

abbrev wf : Text
wf = codes "w"

abbrev counter : Text
counter = codes "k"

-- A workflow of node 2, and one of node 1.
abbrev theirs : WorkflowStateMachine
theirs = record new { ownership = (wf, 2) ∷ [] }

abbrev own : WorkflowStateMachine
own = record new { ownership = (wf, 1) ∷ [] }

-- Two checkpoints of the owner wait, the workflow sets two of its own.
abbrev behind : World
behind = record {
  replica = record theirs { checkpoint_queues = (codes "w:k", (1 ∷ []) ∷ (2 ∷ []) ∷ []) ∷ [] };
  future = [];
}

both :
    Encodes numbers no_text runtime wf counter (7 ∷ 8 ∷ []) (1 ∷ 2 ∷ []) ((1 ∷ []) ∷ (2 ∷ []) ∷ [])
both =
    next 7 1 (1 ∷ []) (8 ∷ []) (2 ∷ []) ((2 ∷ []) ∷ []) refl
      (next 8 2 (2 ∷ []) [] [] [] refl Encodes.nothing)

set_each-replays_example :
    ((set_each numbers no_text runtime wf counter (7 ∷ 8 ∷ []) behind).1
      ≡ map (λ v. some (ok v)) (1 ∷ 2 ∷ []))
    × (queue wf counter (set_each numbers no_text runtime wf counter (7 ∷ 8 ∷ []) behind).0.replica
        ≡ [])
    × ((set_each numbers no_text runtime wf counter (7 ∷ 8 ∷ []) behind).0.future ≡ [])
set_each-replays_example =
    set_each-replays numbers no_text runtime wf counter (7 ∷ 8 ∷ []) (1 ∷ 2 ∷ [])
      ((1 ∷ []) ∷ (2 ∷ []) ∷ []) behind both
      (unfold queue queue_at get make_queue_key text_beq in refl)

-- The owner sets 1 and then 2.
abbrev later : List Happening
later = applied 6 true (committed wf counter (2 ∷ [])) ∷ []

abbrev waited : World × Option (Result WorkflowError ℕ)
waited =
    set_checkpoint numbers no_text runtime wf counter 7
      (record { replica = theirs; future = applied 5 true (committed wf counter (1 ∷ [])) ∷ later })

abbrev repeated : World × Option (Result WorkflowError ℕ)
repeated = set_checkpoint numbers no_text runtime wf counter 8 waited.0

set_checkpoint-stale_example :
    (waited.1 ≡ some (ok 1)) × (repeated.1 ≡ some (ok 1)) × (repeated.0.future ≡ later)
set_checkpoint-stale_example =
    set_checkpoint-stale numbers no_text runtime wf counter 7 8 (7 ∷ []) (1 ∷ []) 1 2 5 theirs later
      (unfold queue queue_at get make_queue_key text_beq in refl)
      (unfold get_owner get text_beq in refl) (λ h. absurd (omega arith)) refl refl

abbrev missed : World × Option (Result WorkflowError ℕ)
missed =
    set_checkpoint numbers no_text runtime wf counter 7
      (record { replica = theirs; future = applied 5 false (committed wf counter (1 ∷ [])) ∷ [] })

set_checkpoint-misses_example :
    (missed.1 ≡ none) × (queue wf counter missed.0.replica ≡ (1 ∷ []) ∷ [])
set_checkpoint-misses_example =
    set_checkpoint-misses numbers no_text runtime wf counter 7 (7 ∷ []) (1 ∷ []) 2 5 theirs
      (unfold queue queue_at get make_queue_key text_beq in refl)
      (unfold get_owner get text_beq in refl) (λ h. absurd (omega arith)) refl

abbrev set_by_owner : World × Option (Result WorkflowError ℕ)
set_by_owner =
    set_checkpoint numbers no_text runtime wf counter 7 (record { replica = own; future = later })

set_checkpoint-owner_example :
    (set_by_owner.1 ≡ some (ok 7))
    × (queue wf counter set_by_owner.0.replica ≡ [])
    × (history_at (make_queue_key wf counter) set_by_owner.0.replica
        ≡ history_at (make_queue_key wf counter) own ++ (7 ∷ []) ∷ [])
    × (set_by_owner.0.future ≡ later)
set_checkpoint-owner_example =
    set_checkpoint-owner numbers no_text runtime wf counter 7 (7 ∷ [])
      (record { replica = own; future = later })
      (record { replica = own; future = applied 5 true (committed wf counter (7 ∷ [])) ∷ later }) 5
      true later (unfold queue queue_at get make_queue_key text_beq in refl) refl
      (unfold is_workflow_owner get_owner get text_beq in refl) refl refl
      (unfold queue queue_at get make_queue_key text_beq in refl)

abbrev elsewhere_started : List Happening
elsewhere_started = applied 9 true (workflow_start counter [] 1 [] 2) ∷ []

abbrev promoted : WorkflowStateMachine
promoted =
    (apply (apply theirs (workflow_start counter [] 1 [] 2)).0 (owner_change wf 2 1 node_failure)).0

abbrev answer : World → World × Option (Result WorkflowError ℕ)
answer w = (w, some (ok 42))

-- One wait times out before the change of the owner, whose event is missed.
execute_owner_or_wait-failover_example :
    execute_owner_or_wait runtime wf answer (checkpoint_value numbers wf counter) true (record {
      replica = theirs;
      future =
          timer ∷ elsewhere_started
          ++ applied 5 false (owner_change wf 2 1 node_failure) ∷ timer ∷ later;
    })
    ≡ answer (record { replica = promoted; future = later })
execute_owner_or_wait-failover_example =
    execute_owner_or_wait-failover wf (checkpoint_value numbers wf counter) runtime answer true 1
      (timer ∷ elsewhere_started) later theirs (apply theirs (workflow_start counter [] 1 [] 2)).0 2
      2 5 false node_failure (unfold get_owner get text_beq in refl) (λ h. absurd (omega arith))
      (timed_out 0 elsewhere_started theirs _ (
        elsewhere 0 9 true (workflow_start counter [] 1 [] 2) [] theirs _ (unfold text_beq in refl)
          (IsPassed.nothing _)))
      (inl (omega arith))
