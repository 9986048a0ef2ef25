-- ===== src/Workflow/Runtime/Replay.antt =====
-- src/workflow/runtime.rs, `set_checkpoint` at a node that runs behind the owner of the workflow.
use raftoral.Prelude.{◌≡◌, refl, ap, sym, subst, ◌∙◌, List, [], ◌∷◌, Option, some, map}
use raftoral.Prelude.Eq.{Text}
use raftoral.Prelude.Result.{Result, ok}
use raftoral.StateMachine.{Bytes, Serde}
use raftoral.Raft.ProposalRouter.{ProposalError}
use raftoral.Workflow.Error.{WorkflowError}
use raftoral.Workflow.StateMachine.{Queue, pop_queued_checkpoint}
use raftoral.Workflow.StateMachine.Queues.{tail_of}
use raftoral.Workflow.StateMachine.Queues.Fifo.{queue, queue-pop, first-queue}
use raftoral.Workflow.Runtime.{World, WorkflowRuntime}
use raftoral.Workflow.Runtime.Checkpoints.{
  set_checkpoint, queued_or, dequeued, deserialized, try_dequeue_checkpoint,
}

module _ {T : Type 0} (json : Serde T (λ a b. a ≡ b)) (error_text : ProposalError → Text)
    (self : WorkflowRuntime) (workflow_id key : Text) where
  -- Checkpoints that a workflow sets one after another under one key, and what it gets for them.
  unfoldable pub set_each : List T → World → World × List (Option (Result WorkflowError T))
  set_each [] w = (w, [])
  set_each (value ∷ values) w =
      let (next, r) = set_checkpoint json error_text self workflow_id key value w in
      let (last, rs) = set_each values next in (last, r ∷ rs)

  -- The values that a queue encodes, one for each value that is set.
  pub data Encodes : List T → List T → Queue → Type 0 where
    nothing : Encodes [] [] []
    next :
        (own value : T) (bytes : Bytes) (owns values : List T) (q : Queue)
        → json.from_slice bytes ≡ ok value
        → Encodes owns values q
        → Encodes (own ∷ owns) (value ∷ values) (bytes ∷ q)

  pub set_checkpoint-queued :
      (own value : T) (bytes : Bytes) (q : Queue) (w : World)
      → queue workflow_id key w.replica ≡ bytes ∷ q
      → json.from_slice bytes ≡ ok value
      → set_checkpoint json error_text self workflow_id key own w ≡ (
        record w { replica = (pop_queued_checkpoint w.replica workflow_id key).0 },
        some (ok value),
      )
  unfolding set_checkpoint try_dequeue_checkpoint
  set_checkpoint-queued own value bytes q w waits decodes =
      let w' = record w { replica = (pop_queued_checkpoint w.replica workflow_id key).0 } in
      ap (λ o. queued_or json error_text self workflow_id key own (w', dequeued json o))
        (first-queue workflow_id key w.replica waits)
      ∙ ap (λ r. queued_or json error_text self workflow_id key own (w', deserialized json r))
          decodes

  -- At a node that is behind, where the values of the owner already wait, a workflow that sets as many
  -- checkpoints gets those values in their order, whatever it computed itself, takes each off the
  -- queue, and neither proposes nor waits.
  pub set_each-replays :
      (owns values : List T) (q : Queue) (w : World)
      → Encodes owns values q
      → queue workflow_id key w.replica ≡ q
      → ((set_each owns w).1 ≡ map (λ v. some (ok v)) values)
        × (queue workflow_id key (set_each owns w).0.replica ≡ [])
        × ((set_each owns w).0.future ≡ w.future)
  unfolding set_each
  set_each-replays _ _ _ w nothing waits = (refl, waits, refl)
  set_each-replays _ _ _ w (next own value bytes owns values q decodes others) waits =
      let w' = record w { replica = (pop_queued_checkpoint w.replica workflow_id key).0 } in
      let (replies, left, future) =
        set_each-replays owns values q w' others
          (queue-pop workflow_id key w.replica ∙ ap tail_of waits) in
      subst
        (λ p.
          (p.1 ∷ (set_each owns p.0).1 ≡ some (ok value) ∷ map (λ v. some (ok v)) values)
          × (queue workflow_id key (set_each owns p.0).0.replica ≡ [])
          × ((set_each owns p.0).0.future ≡ w.future))
        (sym (set_checkpoint-queued own value bytes q w waits decodes))
        (ap (λ rs. some (ok value) ∷ rs) replies, left, future)
