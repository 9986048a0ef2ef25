-- ===== src/Workflow/StateMachine/Queues/Fifo.antt =====
-- Checkpoints of one key are consumed in the order in which they were set.
use mathlib.Core.Path.{ap₂}
use mathlib.Core.List.{append_assoc, append-nil}
use raftoral.Prelude.{
  ℕ, zero, suc, ◌≡◌, arith, refl, ap, sym, ◌∙◌, List, [], ◌∷◌, ◌++◌, Option, some, length, first,
  map,
}
use raftoral.Prelude.Eq.{Text, text_eq, beq_refl}
use raftoral.Prelude.HashMap.{get}
use raftoral.StateMachine.{Bytes}
use raftoral.Workflow.StateMachine.{
  WorkflowStateMachine, set_checkpoint, apply, pop_queued_checkpoint, make_queue_key, Queue, or_new,
}
use raftoral.Workflow.StateMachine.Queues.{
  queue_at, history_at, tail_of, or_new-push_back, pop_queued_checkpoint_lem,
}

module _ (w key : Text) where
  -- The checkpoints of one key, committed one after another.
  pub set_all : WorkflowStateMachine → Queue → WorkflowStateMachine
  set_all s [] = s
  set_all s (v ∷ vs) = set_all (apply s (set_checkpoint w key v)).0 vs

  -- `n` pops of one key, and what they return.
  pub pop_all : ℕ → WorkflowStateMachine → List (Option Bytes)
  pop_all zero s = []
  pop_all (suc n) s =
      (pop_queued_checkpoint s w key).1 ∷ pop_all n (pop_queued_checkpoint s w key).0

  -- What waits under the key.
  unfoldable pub queue : WorkflowStateMachine → Queue
  queue s = queue_at (make_queue_key w key) s

  pub queue-set :
      (s : WorkflowStateMachine) (v : Bytes)
      → queue (apply s (set_checkpoint w key v)).0 ≡ queue s ++ v ∷ []
  unfolding apply queue queue_at
  queue-set s v = ground (
    arith,
    or_new-push_back (make_queue_key w key) (make_queue_key w key) v s.checkpoint_queues,
    beq_refl (make_queue_key w key),
  )

  pub history-set :
      (s : WorkflowStateMachine) (v : Bytes)
      → history_at (make_queue_key w key) (apply s (set_checkpoint w key v)).0
        ≡ history_at (make_queue_key w key) s ++ v ∷ []
  unfolding apply history_at
  history-set s v = ground (
    arith,
    or_new-push_back (make_queue_key w key) (make_queue_key w key) v s.checkpoint_history,
    beq_refl (make_queue_key w key),
  )

  pub history-pop :
      (s : WorkflowStateMachine) (k : Text)
      → history_at k (pop_queued_checkpoint s w key).0 ≡ history_at k s
  unfolding history_at
  history-pop s k = ap (λ m. or_new (get k m)) ((pop_queued_checkpoint_lem s w key k).3)

  queue-set_all : (s : WorkflowStateMachine) (vs : Queue) → queue (set_all s vs) ≡ queue s ++ vs
  unfolding set_all
  queue-set_all s [] = sym (append-nil (queue s))
  queue-set_all s (v ∷ vs) =
      queue-set_all (apply s (set_checkpoint w key v)).0 vs
      ∙ ap (λ q. q ++ vs) (queue-set s v)
      ∙ append_assoc (queue s) (v ∷ []) vs

  pub queue-pop :
      (s : WorkflowStateMachine) → queue (pop_queued_checkpoint s w key).0 ≡ tail_of (queue s)
  unfolding queue
  queue-pop s = ground (
    arith,
    (pop_queued_checkpoint_lem s w key (make_queue_key w key)).2,
    beq_refl (make_queue_key w key),
  )

  pub first-queue :
      {v : Bytes} {q : Queue} (s : WorkflowStateMachine)
      → queue s ≡ v ∷ q
      → (pop_queued_checkpoint s w key).1 ≡ some v
  unfolding queue
  first-queue s e = (pop_queued_checkpoint_lem s w key (make_queue_key w key)).1 ∙ ap first e

  pop_all-queue :
      (q : Queue) (s : WorkflowStateMachine) → queue s ≡ q → pop_all (length q) s ≡ map some q
  unfolding pop_all
  pop_all-queue [] s e = refl
  pop_all-queue (v ∷ q) s e =
      ap₂ (λ x xs. x ∷ xs) (first-queue s e)
        (pop_all-queue q (pop_queued_checkpoint s w key).0 (queue-pop s ∙ ap tail_of e))

  -- What waits under a key and what is then set under it is popped in that order, each value once.
  pub pop_all-set_all :
      (s : WorkflowStateMachine) (vs : Queue)
      → pop_all (length (queue_at (make_queue_key w key) s ++ vs)) (set_all s vs)
        ≡ map some (queue_at (make_queue_key w key) s ++ vs)
  unfolding queue
  pop_all-set_all s vs = pop_all-queue _ (set_all s vs) (queue-set_all s vs)
