-- ===== src/Workflow/StateMachine/Queues.antt =====
-- The transient queues of checkpoints: one queue for each key, and the history behind it.
pub mod History
pub mod Fifo
use raftoral.Prelude.{
  ℕ, zero, suc, ◌≡◌, Option, none, some, Bool, true, false, not, arith, refl, ap, sym, ◌∙◌,
  if◌then◌else◌, List, [], ◌∷◌, ◌++◌, length, is_empty, first, Bool-cases, inl, inr,
}
use raftoral.Prelude.Eq.{Text, text_eq, ◌==◌}
use raftoral.Prelude.HashMap.{HashMap, get, insert, retain, get-insert, get-retain}
use raftoral.StateMachine.{Bytes}
use raftoral.Workflow.StateMachine.{
  WorkflowStateMachine, WorkflowCommand, workflow_start, workflow_end, set_checkpoint, owner_change,
  apply, pop_queued_checkpoint, has_queued_checkpoint, make_queue_key, push_back, or_new,
  starts_with, Queue, new, colon,
}

-- The values that wait under a composite key, the next one first.
unfoldable pub queue_at : Text → WorkflowStateMachine → Queue
queue_at k s = or_new (get k s.checkpoint_queues)

unfoldable pub history_at : Text → WorkflowStateMachine → Queue
history_at k s = or_new (get k s.checkpoint_history)

abbrev pub tail_of : Queue → Queue
tail_of [] = []
tail_of (v ∷ q) = q

or_new-push_back :
    (k j : Text) (v : Bytes) (m : HashMap Text Queue)
    → or_new (get k (push_back j v m))
      ≡ (if j == k then or_new (get k m) ++ v ∷ [] else or_new (get k m))
unfolding push_back
or_new-push_back k j v m =
    ground (arith, get-insert j k (or_new (get j m) ++ v ∷ []) m, text_eq.beq_iff j k)

module _ (s : WorkflowStateMachine) (w key : Text) where
  -- `has_queued_checkpoint` tells whether a value waits, and `pop_queued_checkpoint` takes the first
  -- one off, if there is one, and touches no other key and no history.
  pub pop_queued_checkpoint_lem :
      (k : Text)
      → (has_queued_checkpoint s w key ≡ not (is_empty (queue_at (make_queue_key w key) s)))
        × ((pop_queued_checkpoint s w key).1 ≡ first (queue_at (make_queue_key w key) s))
        × (queue_at k (pop_queued_checkpoint s w key).0
            ≡ (if make_queue_key w key == k then tail_of (queue_at k s) else queue_at k s))
        × ((pop_queued_checkpoint s w key).0.checkpoint_history ≡ s.checkpoint_history)
  unfolding has_queued_checkpoint pop_queued_checkpoint queue_at
  pop_queued_checkpoint_lem k = go (get (make_queue_key w key) s.checkpoint_queues) refl
    where
      qk : Text
      qk = make_queue_key w key

      go :
          (o : Option Queue)
          → get (make_queue_key w key) s.checkpoint_queues ≡ o
          → (has_queued_checkpoint s w key ≡ not (is_empty (queue_at (make_queue_key w key) s)))
            × ((pop_queued_checkpoint s w key).1 ≡ first (queue_at (make_queue_key w key) s))
            × (queue_at k (pop_queued_checkpoint s w key).0
                ≡ (if make_queue_key w key == k then tail_of (queue_at k s) else queue_at k s))
            × ((pop_queued_checkpoint s w key).0.checkpoint_history ≡ s.checkpoint_history)
      go none e = (
        ground arith,
        ground arith,
        ground (arith, text_eq.beq_iff (make_queue_key w key) k),
        ground arith,
      )
      go (some []) e = (
        ground arith,
        ground arith,
        ground (arith, text_eq.beq_iff (make_queue_key w key) k),
        ground arith,
      )
      go (some (v ∷ q)) e = (
        ground arith,
        ground arith,
        ground (
          arith,
          text_eq.beq_iff (make_queue_key w key) k,
          get-insert (make_queue_key w key) k q s.checkpoint_queues,
        ),
        ground arith,
      )

  pub pop_queued_checkpoint-empty :
      queue_at (make_queue_key w key) s ≡ [] → pop_queued_checkpoint s w key ≡ (s, none)
  unfolding pop_queued_checkpoint queue_at
  pop_queued_checkpoint-empty = by_queue (get (make_queue_key w key) s.checkpoint_queues) refl
    where
      by_queue :
          (o : Option Queue)
          → get (make_queue_key w key) s.checkpoint_queues ≡ o
          → or_new (get (make_queue_key w key) s.checkpoint_queues) ≡ []
          → pop_queued_checkpoint s w key ≡ (s, none)
      by_queue none e h = rw (e, pop_queued_checkpoint)
      by_queue (some []) e h = rw (e, pop_queued_checkpoint)
      by_queue (some (v ∷ q)) e h = absurd (cc (sym (ap or_new e) ∙ h))
