-- ===== src/Workflow/Runtime/Waiting.antt =====
-- src/workflow/runtime.rs, `set_checkpoint` at a node that waits for the owner of the workflow.
use raftoral.Prelude.{
  ℕ, zero, suc, ◌≡◌, ◌≢◌, refl, ap, sym, subst, ◌∙◌, List, [], ◌∷◌, ◌++◌, Option, none, some, true,
  false, if◌then◌else◌, nat_beq, arith,
}
use raftoral.Prelude.Eq.{Text, text_eq, beq_refl}
use raftoral.Prelude.Result.{ok}
use raftoral.StateMachine.{Bytes, Serde}
use raftoral.Raft.ProposalRouter.{ProposalError}
use raftoral.Workflow.Event.{WorkflowEvent, checkpoint_set}
use raftoral.Workflow.StateMachine.{WorkflowStateMachine, WorkflowCommand, apply, get_owner}
use raftoral.Workflow.StateMachine.Queues.{pop_queued_checkpoint-empty}
use raftoral.Workflow.StateMachine.Queues.Fifo.{queue, queue-set}
use raftoral.Workflow.Runtime.{
  World, Happening, applied, WorkflowRuntime, wait_for_event, filtered_extractor, extracted,
  wait_for_event_or_ownership_change, is_workflow_owner, owned_by, execute_owner_or_wait, attempts,
}
use raftoral.Workflow.Registry.{Task}
use raftoral.Workflow.Runtime.Checkpoints.{
  set_checkpoint, queued_or, dequeued, try_dequeue_checkpoint, set_or_wait, owner_sets,
  checkpoint_value,
}
use raftoral.Workflow.Runtime.Replay.{set_checkpoint-queued}

-- The command that the owner proposes.
abbrev pub committed : (workflow_id key : Text) → Bytes → WorkflowCommand
committed workflow_id key bytes = WorkflowCommand.set_checkpoint workflow_id key bytes

module _ {T : Type 0} (json : Serde T (λ a b. a ≡ b)) (error_text : ProposalError → Text)
    (self : WorkflowRuntime) (workflow_id key : Text) where
  -- With nothing queued, the owner is asked.
  pub unqueued :
      (own : T) (own_bytes : Bytes) (w : World)
      → queue workflow_id key w.replica ≡ []
      → json.to_vec own ≡ ok own_bytes
      → set_checkpoint json error_text self workflow_id key own w
        ≡ execute_owner_or_wait self workflow_id
            (owner_sets json error_text self workflow_id key own_bytes own)
            (checkpoint_value json workflow_id key)
            false
            w
  unfolding set_checkpoint try_dequeue_checkpoint queue
  unqueued own own_bytes w empty encodes =
      ap
        (λ p.
          queued_or json error_text self workflow_id key own
            (record w { replica = p.0 }, dequeued json p.1))
        (pop_queued_checkpoint-empty w.replica workflow_id key empty)
      ∙ ap (λ r. set_or_wait json error_text self workflow_id key own r w) encodes

  value-seen :
      (bytes : Bytes) (value : T)
      → json.from_slice bytes ≡ ok value
      → extracted workflow_id
          (filtered_extractor workflow_id (checkpoint_value json workflow_id key))
          (checkpoint_set workflow_id key bytes ∷ [])
        ≡ some (some value)
  unfolding extracted
  value-seen bytes value decodes = rw (beq_refl workflow_id, beq_refl key, decodes)

  execute-waits :
      (op : Task World T) (bytes : Bytes) (value : T) (owner sync_id : ℕ) (s : WorkflowStateMachine)
      (rest : List Happening)
      → get_owner s workflow_id ≡ some owner
      → nat_beq owner self.node_id ≡ false
      → json.from_slice bytes ≡ ok value
      → execute_owner_or_wait self workflow_id op
          (checkpoint_value json workflow_id key)
          false
          (record {
            replica = s;
            future = applied sync_id true (committed workflow_id key bytes) ∷ rest;
          })
        ≡ (
          record { replica = (apply s (committed workflow_id key bytes)).0; future = rest },
          some (ok value),
        )
  unfolding execute_owner_or_wait attempts is_workflow_owner wait_for_event_or_ownership_change
      wait_for_event apply
  execute-waits op bytes value owner sync_id s rest owned other decodes =
      rw (owned, other, value-seen bytes value decodes)

  -- A node that is not the owner, and that has nothing queued, takes the value of the owner from the
  -- event. The value stays in its queue, so the next checkpoint that the workflow sets under this key
  -- gets the same value again, without waiting for the next value of the owner.
  pub set_checkpoint-stale :
      (own later : T) (own_bytes bytes : Bytes) (value : T) (owner sync_id : ℕ)
      (s : WorkflowStateMachine) (rest : List Happening)
      → queue workflow_id key s ≡ []
      → get_owner s workflow_id ≡ some owner
      → owner ≢ self.node_id
      → json.to_vec own ≡ ok own_bytes
      → json.from_slice bytes ≡ ok value
      → let w : World = record {
        replica = s;
        future = applied sync_id true (committed workflow_id key bytes) ∷ rest;
      } in
        let (next, r) = set_checkpoint json error_text self workflow_id key own w in
        let (last, r') = set_checkpoint json error_text self workflow_id key later next in
        (r ≡ some (ok value)) × (r' ≡ some (ok value)) × (last.future ≡ rest)
  set_checkpoint-stale own later own_bytes bytes value owner sync_id s rest empty owned other
        encodes decodes =
      let w : World = record {
        replica = s;
        future = applied sync_id true (committed workflow_id key bytes) ∷ rest;
      } in
      let after : World = record {
        replica = (apply s (committed workflow_id key bytes)).0;
        future = rest;
      } in
      let first_set : set_checkpoint json error_text self workflow_id key own w
          ≡ (after, some (ok value)) =
        unqueued own own_bytes w empty encodes
        ∙ execute-waits (owner_sets json error_text self workflow_id key own_bytes own) bytes value
            owner sync_id s rest owned (ground arith) decodes in
      let second_set =
        set_checkpoint-queued json error_text self workflow_id key later value bytes [] after
          (queue-set workflow_id key s bytes ∙ ap (λ q. q ++ bytes ∷ []) empty) decodes in
      subst
        (λ p.
          let (last, r') = set_checkpoint json error_text self workflow_id key later p.0 in
          (p.1 ≡ some (ok value)) × (r' ≡ some (ok value)) × (last.future ≡ rest))
        (sym first_set) (refl, ap (λ p. p.1) second_set, ap (λ p. p.0.future) second_set)

  -- Where nothing happens any more, the attempts that are left end in waiting for ever.
  attempts-idle :
      (op : Task World T) (extractor : WorkflowEvent → Option T) (left : ℕ)
      (s : WorkflowStateMachine)
      → let w : World = record { replica = s; future = [] } in
        is_workflow_owner self workflow_id w ≡ false
        → attempts self (suc left) workflow_id op extractor false w ≡ (w, none)
  unfolding attempts wait_for_event_or_ownership_change wait_for_event
  attempts-idle op extractor zero s foreign = rw foreign refl
  attempts-idle op extractor (suc left) s foreign =
      let w : World = record { replica = s; future = [] } in
      let again = attempts self (suc left) workflow_id op extractor false w in
      ap (λ b. if b then op w else if b then again else again) foreign
      ∙ attempts-idle op extractor left s foreign

  -- A node that is not the owner and misses the event, since its subscription lags, waits for ever
  -- where nothing else happens, although the value of the owner lies in its queue: no attempt looks
  -- there again.
  pub set_checkpoint-misses :
      (own : T) (own_bytes bytes : Bytes) (owner sync_id : ℕ) (s : WorkflowStateMachine)
      → queue workflow_id key s ≡ []
      → get_owner s workflow_id ≡ some owner
      → owner ≢ self.node_id
      → json.to_vec own ≡ ok own_bytes
      → let w : World = record {
        replica = s;
        future = applied sync_id false (committed workflow_id key bytes) ∷ [];
      } in
        let (last, r) = set_checkpoint json error_text self workflow_id key own w in
        (r ≡ none) × (queue workflow_id key last.replica ≡ bytes ∷ [])
  unfolding execute_owner_or_wait attempts wait_for_event_or_ownership_change wait_for_event apply
      is_workflow_owner get_owner
  set_checkpoint-misses own own_bytes bytes owner sync_id s empty owned foreign encodes =
      let w : World = record {
        replica = s;
        future = applied sync_id false (committed workflow_id key bytes) ∷ [];
      } in
      let after : World = record {
        replica = (apply s (committed workflow_id key bytes)).0;
        future = [];
      } in
      let foreign : owned_by self.node_id (get_owner s workflow_id) ≡ false =
        ap (owned_by self.node_id) owned ∙ ground arith in
      let op : Task World T = owner_sets json error_text self workflow_id key own_bytes own in
      let extractor : WorkflowEvent → Option T = checkpoint_value json workflow_id key in
      let again = attempts self 9 workflow_id op extractor false after in
      let idle : again ≡ (after, none) = attempts-idle op extractor 8 after.replica foreign in
      let waits : set_checkpoint json error_text self workflow_id key own w ≡ (after, none) =
        unqueued own own_bytes w empty encodes
        ∙ ap (λ b. if b then op w else if b then again else again) foreign
        ∙ idle in
      subst (λ p. (p.1 ≡ none) × (queue workflow_id key p.0.replica ≡ bytes ∷ [])) (sym waits)
        (refl, queue-set workflow_id key s bytes ∙ ap (λ q. q ++ bytes ∷ []) empty)
