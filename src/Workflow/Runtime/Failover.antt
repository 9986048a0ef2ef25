-- ===== src/Workflow/Runtime/Failover.antt =====
-- src/workflow/runtime.rs, `execute_owner_or_wait` when this node becomes the owner.
use raftoral.Prelude.{
  ℕ, zero, suc, ◌+◌, ◌-◌, ◌⊎◌, inl, inr, ltb, sym, ◌≡◌, ◌≢◌, refl, ap, ◌∙◌, List, ◌∷◌, ◌++◌, Option,
  none, some, Bool, true, false, if◌then◌else◌, arith,
}
use raftoral.Prelude.Eq.{Text, text_eq, beq_refl}
use raftoral.Prelude.HashMap.{get, get-insert}
use raftoral.Prelude.Result.{Result, err}
use raftoral.Workflow.Error.{WorkflowError, timeout}
use raftoral.Workflow.Event.{WorkflowEvent}
use raftoral.Workflow.StateMachine.{
  WorkflowStateMachine, WorkflowCommand, set_checkpoint, owner_change, OwnerChangeReason, apply,
  get_owner,
}
use raftoral.Workflow.Registry.{Task}
use raftoral.Workflow.Runtime.{
  World, Happening, applied, timer, after_wait, is_last, WorkflowRuntime, wait_for_event,
  filtered_extractor, extracted, wait_for_event_or_ownership_change, is_workflow_owner, owned_by,
  execute_owner_or_wait, attempts, events_of,
}
use raftoral.Workflow.Runtime.Passing.{
  IsPassed, nothing, timed_out, elsewhere, untaken, missed, noticed, IsInTime, get_owner-elsewhere,
  passed_over, not_taken, sees_owner_change,
}

some_left :
    (timers left : ℕ) (delivered : Bool)
    → timers + left ≡ 9
    → IsInTime timers delivered
    → (is_last left ≡ false) ⊎ (delivered ≡ true)
some_left timers zero delivered total (inl early) = absurd (omega arith)
some_left timers (suc left) delivered total (inl early) = inl refl
some_left timers left delivered total (inr (late, seen)) = inr seen

by_left :
    {A : Type 0} (timers left : ℕ) (a b : A)
    → timers + left ≡ 9
    → (if is_last left then b else a) ≡ (if ltb timers 9 then a else b)
by_left timers zero a b total = ground arith
by_left timers (suc left) a b total = ground arith

module _ {T : Type 0} (workflow_id : Text) (extractor : WorkflowEvent → Option T) where
  module _ (self : WorkflowRuntime) (owner_operation : Task World T) (passive_timeout : Bool) where
    -- The wait of an attempt with `left` attempts after it, and what follows.
    unfoldable waiting :
        (left : ℕ) → WorkflowStateMachine → List Happening → World × Option (Result WorkflowError T)
    waiting left s future =
        after_wait self workflow_id (is_last left)
          (attempts self left workflow_id owner_operation extractor passive_timeout)
          (wait_for_event workflow_id (filtered_extractor workflow_id extractor)
            (if is_last left then passive_timeout else true) s future)

    IsForeign : WorkflowStateMachine → Type 0
    IsForeign s = owned_by self.node_id (get_owner s workflow_id) ≡ false

    attempts-foreign :
        (left : ℕ) (s : WorkflowStateMachine) (future : List Happening)
        → IsForeign s
        → attempts self
            (suc left)
            workflow_id
            owner_operation
            extractor
            passive_timeout
            (record { replica = s; future = future })
          ≡ waiting left s future
    unfolding attempts waiting wait_for_event_or_ownership_change is_workflow_owner IsForeign
    attempts-foreign left s future foreign = rw foreign refl

    attempts-owner :
        (left : ℕ) (s : WorkflowStateMachine) (future : List Happening)
        → owned_by self.node_id (get_owner s workflow_id) ≡ true
        → attempts self left workflow_id owner_operation extractor passive_timeout
            (record { replica = s; future = future })
          ≡ (if is_last left
              then (record { replica = s; future = future }, some (err timeout))
              else owner_operation (record { replica = s; future = future }))
    unfolding attempts is_workflow_owner
    attempts-owner zero s future own = refl
    attempts-owner (suc left) s future own = rw own refl

    waiting-timer :
        (left : ℕ) (s : WorkflowStateMachine) (future : List Happening)
        → IsForeign s
        → waiting (suc left) s (timer ∷ future) ≡ waiting left s future
    unfolding waiting wait_for_event IsForeign is_workflow_owner
    waiting-timer left s future foreign = rw foreign (attempts-foreign left s future foreign)

    -- An entry from whose events nothing is taken.
    waiting-entry :
        (left sync_id : ℕ) (delivered : Bool) (command : WorkflowCommand) (s : WorkflowStateMachine)
        (future : List Happening)
        → (if delivered
            then extracted workflow_id
                (filtered_extractor workflow_id extractor)
                (events_of (apply s command).1)
            else none)
          ≡ none
        → waiting left s (applied sync_id delivered command ∷ future)
          ≡ waiting left (apply s command).0 future
    unfolding waiting wait_for_event
    waiting-entry left sync_id delivered command s future h = rw h refl

    nothing_taken :
        (delivered : Bool) (taken : Option (Option T))
        → taken ≡ none
        → (if delivered then taken else none) ≡ none
    nothing_taken true taken h = h
    nothing_taken false taken h = refl

    -- What passes leaves the node waiting with fewer attempts, and the workflow with another owner.
    waiting-passed :
        (timers : ℕ) (happenings : List Happening) (s last : WorkflowStateMachine) (left : ℕ)
        (rest : List Happening)
        → IsPassed self.node_id workflow_id extractor timers happenings s last
        → IsForeign s
        → (waiting (timers + left) s (happenings ++ rest) ≡ waiting left last rest) × IsForeign last
    unfolding IsForeign
    waiting-passed _ _ _ _ left rest (nothing s) foreign =
        (ap (λ n. waiting n s rest) (omega arith), foreign)
    waiting-passed _ _ _ _ left rest (timed_out timers happenings s last more) foreign =
        let (waits, stays) = waiting-passed timers happenings s last left rest more foreign in
        let counted : suc timers + left ≡ suc (timers + left) = omega arith in
        (
          ap (λ n. waiting n s (timer ∷ happenings ++ rest)) counted
              ∙ waiting-timer (timers + left) s (happenings ++ rest) foreign
              ∙ waits,
          stays,
        )
    waiting-passed _ _ _ _ left rest
          (elsewhere timers sync_id delivered command happenings s last h more) foreign =
        let (waits, stays) =
          waiting-passed timers happenings (apply s command).0 last left rest more
            (ap (owned_by self.node_id) (get_owner-elsewhere s command workflow_id h) ∙ foreign) in
        (
          waiting-entry (timers + left) sync_id delivered command s (happenings ++ rest)
                (nothing_taken delivered _ (passed_over workflow_id extractor s command h))
              ∙ waits,
          stays,
        )
    waiting-passed _ _ _ _ left rest (untaken timers sync_id key value happenings s last h more)
          foreign =
        let (waits, stays) =
          waiting-passed timers happenings (apply s (set_checkpoint workflow_id key value)).0 last
            left rest more (unfold apply get_owner in foreign) in
        (
          waiting-entry (timers + left) sync_id true (set_checkpoint workflow_id key value) s
                (happenings ++ rest) (not_taken workflow_id extractor s key value h)
              ∙ waits,
          stays,
        )
    waiting-passed _ _ _ _ left rest (missed timers sync_id command happenings s last still more)
          foreign =
        let (waits, stays) =
          waiting-passed timers happenings (apply s command).0 last left rest more still in
        (
          waiting-entry (timers + left) sync_id false command s (happenings ++ rest) refl ∙ waits,
          stays,
        )

    owns_after :
        (s : WorkflowStateMachine) (old_owner : ℕ) (reason : OwnerChangeReason)
        → let change = owner_change workflow_id old_owner self.node_id reason in
          owned_by self.node_id (get_owner (apply s change).0 workflow_id) ≡ true
    unfolding apply get_owner
    owns_after s old_owner reason =
        ap (owned_by self.node_id) (
          get-insert workflow_id workflow_id self.node_id s.ownership
          ∙ ap (λ b. if b then some self.node_id else get workflow_id s.ownership)
              (beq_refl workflow_id))
        ∙ ground arith

    own_timer :
        (left : ℕ) (s : WorkflowStateMachine) (rest : List Happening)
        → owned_by self.node_id (get_owner s workflow_id) ≡ true
        → waiting (suc left) s (timer ∷ rest)
          ≡ owner_operation (record { replica = s; future = rest })
    unfolding waiting wait_for_event is_workflow_owner
    own_timer left s rest own = rw own (attempts-owner (suc left) s rest own)

    -- The attempt that notices that this node was made the owner.
    waiting-owner :
        (left sync_id old_owner : ℕ) (delivered : Bool) (reason : OwnerChangeReason)
        (s : WorkflowStateMachine) (rest : List Happening)
        → (is_last left ≡ false) ⊎ (delivered ≡ true)
        → let change = owner_change workflow_id old_owner self.node_id reason in
          waiting left s (applied sync_id delivered change ∷ noticed delivered rest) ≡ (
            if is_last left
            then (record { replica = (apply s change).0; future = rest }, some (err timeout))
            else owner_operation (record { replica = (apply s change).0; future = rest }))
    unfolding waiting is_workflow_owner
    waiting-owner left sync_id old_owner true reason s rest h =
        rw
          (sees_owner_change workflow_id extractor (if is_last left then passive_timeout else true)
            sync_id old_owner self.node_id reason s rest)
          (attempts-owner left _ rest (owns_after s old_owner reason))
    waiting-owner zero sync_id old_owner false reason s rest h = ground arith
    waiting-owner (suc left) sync_id old_owner false reason s rest h =
        waiting-entry (suc left) sync_id false
          (owner_change workflow_id old_owner self.node_id reason) s (timer ∷ rest) refl
        ∙ own_timer left _ rest (owns_after s old_owner reason)

    -- A node that waits for the owner of a workflow executes the operation of the owner once it is made
    -- the owner itself and notices it, in the state that the change of the owner leaves: at the event of
    -- the change, or, where it misses that event, when the wait times out. Before, other workflows may
    -- commit what they want, and of this one checkpoints that the node does not wait for, and entries
    -- whose events it misses and that leave another owner; and up to eight waits may have timed out.
    -- Where nine have, and the event is seen, the operation is not executed but ends with a timeout.
    pub execute_owner_or_wait-failover :
        (timers : ℕ) (happenings rest : List Happening) (s last : WorkflowStateMachine)
        (owner old_owner sync_id : ℕ) (delivered : Bool) (reason : OwnerChangeReason)
        → get_owner s workflow_id ≡ some owner
        → owner ≢ self.node_id
        → IsPassed self.node_id workflow_id extractor timers happenings s last
        → IsInTime timers delivered
        → let change = owner_change workflow_id old_owner self.node_id reason in
          let after : World = record { replica = (apply last change).0; future = rest } in
          execute_owner_or_wait self workflow_id owner_operation extractor passive_timeout (record {
            replica = s;
            future = happenings ++ applied sync_id delivered change ∷ noticed delivered rest;
          })
          ≡ (if ltb timers 9 then owner_operation after else (after, some (err timeout)))
    unfolding execute_owner_or_wait IsForeign
    execute_owner_or_wait-failover timers happenings rest s last owner old_owner sync_id delivered
          reason owned differs passed in_time =
        let foreign : IsForeign s = ap (owned_by self.node_id) owned ∙ ground arith in
        let change = owner_change workflow_id old_owner self.node_id reason in
        let future = applied sync_id delivered change ∷ noticed delivered rest in
        let total : timers + (9 - timers) ≡ 9 = omega arith in
        attempts-foreign 9 s (happenings ++ future) foreign
        ∙ ap (λ n. waiting n s (happenings ++ future)) (sym total)
        ∙ (waiting-passed timers happenings s last (9 - timers) future passed foreign).0
        ∙ waiting-owner (9 - timers) sync_id old_owner delivered reason last rest
            (some_left timers (9 - timers) delivered total in_time)
        ∙ by_left timers (9 - timers) _ _ total
