-- ===== src/Workflow/Runtime/Owner.antt =====
-- src/workflow/runtime.rs, `set_checkpoint` at the owner of the workflow.
use raftoral.Prelude.{
  ℕ, ◌≡◌, refl, ap, sym, subst, ◌∙◌, List, [], ◌∷◌, ◌++◌, some, Bool, true, nat_beq, arith,
}
use raftoral.Prelude.Eq.{Text, text_eq}
use raftoral.Prelude.Result.{ok}
use raftoral.StateMachine.{Bytes, Serde}
use raftoral.Raft.ProposalRouter.{ProposalError}
use raftoral.Raft.Schedule
use raftoral.Workflow.StateMachine.{pop_queued_checkpoint, make_queue_key, apply}
use raftoral.Workflow.StateMachine.Queues.{history_at, tail_of}
use raftoral.Workflow.StateMachine.Queues.Fifo.{
  queue, queue-set, queue-pop, history-set, history-pop,
}
use raftoral.Workflow.Runtime.{
  World, Happening, applied, WorkflowRuntime, is_workflow_owner, execute_owner_or_wait, attempts,
  propose_and_wait,
}
use raftoral.Workflow.Runtime.Checkpoints.{set_checkpoint, owner_sets}
use raftoral.Workflow.Runtime.Waiting.{unqueued, committed}

sync_id_same : (n : ℕ) → nat_beq n n ≡ true
sync_id_same n = ground arith

module _ {T : Type 0} (json : Serde T (λ a b. a ≡ b)) (error_text : ProposalError → Text)
    (self : WorkflowRuntime) (workflow_id key : Text) where
  owner-proposes :
      (own : T) (bytes : Bytes) (w w₁ : World) (sync_id : ℕ) (delivered : Bool)
      (rest : List Happening)
      → self.propose (committed workflow_id key bytes) w ≡ (w₁, ok sync_id)
      → w₁.future ≡ applied sync_id delivered (committed workflow_id key bytes) ∷ rest
      → owner_sets json error_text self workflow_id key bytes own w ≡ (
        record {
          replica =
              (pop_queued_checkpoint
                (apply w₁.replica (committed workflow_id key bytes)).0
                workflow_id
                key).0;
          future = rest;
        },
        some (ok own),
      )
  unfolding propose_and_wait Schedule.propose_and_wait Schedule.await_reply apply
  owner-proposes own bytes w w₁ sync_id delivered rest proposed scheduled =
      rw (proposed, scheduled, sync_id_same sync_id)

  owner-executes :
      (own : T) (own_bytes : Bytes) (w : World)
      → queue workflow_id key w.replica ≡ []
      → json.to_vec own ≡ ok own_bytes
      → is_workflow_owner self workflow_id w ≡ true
      → set_checkpoint json error_text self workflow_id key own w
        ≡ owner_sets json error_text self workflow_id key own_bytes own w
  unfolding execute_owner_or_wait attempts
  owner-executes own own_bytes w empty encodes owns =
      unqueued json error_text self workflow_id key own own_bytes w empty encodes ∙ rw owns refl

  -- Where the owner of a workflow has nothing queued under a key and its proposal is committed, it gets
  -- its own value back, the value is the last one in the history of the key, and nothing is queued
  -- under it, as before: the value that the commit queued was taken off again.
  pub set_checkpoint-owner :
      (own : T) (bytes : Bytes) (w w₁ : World) (sync_id : ℕ) (delivered : Bool)
      (rest : List Happening)
      → queue workflow_id key w.replica ≡ []
      → json.to_vec own ≡ ok bytes
      → is_workflow_owner self workflow_id w ≡ true
      → self.propose (committed workflow_id key bytes) w ≡ (w₁, ok sync_id)
      → w₁.future ≡ applied sync_id delivered (committed workflow_id key bytes) ∷ rest
      → queue workflow_id key w₁.replica ≡ []
      → let (after, r) = set_checkpoint json error_text self workflow_id key own w in
        let k = make_queue_key workflow_id key in
        (r ≡ some (ok own))
        × (queue workflow_id key after.replica ≡ [])
        × (history_at k after.replica ≡ history_at k w₁.replica ++ bytes ∷ [])
        × (after.future ≡ rest)
  set_checkpoint-owner own bytes w w₁ sync_id delivered rest empty encodes owns proposed scheduled
        still_empty =
      let k = make_queue_key workflow_id key in
      let s = (apply w₁.replica (committed workflow_id key bytes)).0 in
      subst
        (λ p.
          (p.1 ≡ some (ok own))
          × (queue workflow_id key p.0.replica ≡ [])
          × (history_at k p.0.replica ≡ history_at k w₁.replica ++ bytes ∷ [])
          × (p.0.future ≡ rest))
        (sym (
          owner-executes own bytes w empty encodes owns
          ∙ owner-proposes own bytes w w₁ sync_id delivered rest proposed scheduled))
        (
          refl,
          queue-pop workflow_id key s
              ∙ ap tail_of (
                  queue-set workflow_id key w₁.replica bytes
                  ∙ ap (λ q. q ++ bytes ∷ []) still_empty),
          history-pop workflow_id key s k ∙ history-set workflow_id key w₁.replica bytes,
          refl,
        )
