-- ===== src/Workflow/StateMachine/QueueKey.antt =====
-- The composite keys of the checkpoints, and what the end of a workflow cleans up.
use raftoral.Prelude.{
  ◌≡◌, List, [], ◌∷◌, ◌++◌, true, false, not, if◌then◌else◌, arith, none, refl, nat_beq_iff,
}
use raftoral.Prelude.Eq.{Text, text_beq, nat_eq, text_eq, ◌==◌}
use raftoral.Prelude.HashMap.{get, get-retain}
use raftoral.Prelude.HashMap
use raftoral.Prelude.Sets.{contains}
use raftoral.Workflow.StateMachine.{
  WorkflowStateMachine, apply, workflow_end, make_queue_key, starts_with, colon, Queue,
}
use raftoral.StateMachine.{Bytes}
use mathlib.Core.List.{append_assoc}

-- The prefix of an ended workflow is a prefix of its own keys and of no other workflow's, if no
-- workflow id contains a colon.
starts_with-queue_key :
    (a b key : Text)
    → contains colon a ≡ false
    → contains colon b ≡ false
    → starts_with (make_queue_key b key) (a ++ colon ∷ []) ≡ (a == b)
unfolding starts_with make_queue_key contains text_beq
starts_with-queue_key [] [] key ha hb = refl
starts_with-queue_key [] (d ∷ b) key ha hb = ground arith
starts_with-queue_key (c ∷ a) [] key ha hb = ground (arith, nat_beq_iff c colon)
starts_with-queue_key (c ∷ a) (d ∷ b) key ha hb =
    ground (arith, nat_beq_iff c d, nat_beq_iff d c, starts_with-queue_key a b key)

starts_with_split : (a rest : Text) → starts_with (a ++ colon ∷ rest) (a ++ colon ∷ []) ≡ true
unfolding starts_with
starts_with_split [] rest = refl
starts_with_split (c ∷ a) rest = ground (arith, nat_beq_iff c c, starts_with_split a rest)

module _ (s : WorkflowStateMachine) (a : Text) (r : Bytes) where
  -- If workflow ids contain no colon, the end of workflow `a` drops the queued and the historical
  -- checkpoints of `a` and leaves those of every other workflow as they were.
  pub workflow_end-checkpoints :
      (b key : Text)
      → contains colon a ≡ false
      → contains colon b ≡ false
      → (get (make_queue_key b key) (apply s (workflow_end a r)).0.checkpoint_queues
          ≡ (if a == b then none else get (make_queue_key b key) s.checkpoint_queues))
        × (get (make_queue_key b key) (apply s (workflow_end a r)).0.checkpoint_history
            ≡ (if a == b then none else get (make_queue_key b key) s.checkpoint_history))
  unfolding apply
  workflow_end-checkpoints b key ha hb = (kept s.checkpoint_queues, kept s.checkpoint_history)
    where
      kept :
          (m : List (Text × Queue))
          → get
              (make_queue_key b key)
              (HashMap.retain (λ k. not (starts_with k (a ++ colon ∷ []))) m)
            ≡ (if a == b then none else get (make_queue_key b key) m)
      kept m = ground (
        arith,
        starts_with-queue_key a b key ha hb,
        get-retain (λ k. not (starts_with k (a ++ colon ∷ []))) (make_queue_key b key) m,
      )

  -- The end of workflow `a` also drops every checkpoint of each other workflow whose id goes on from
  -- `a` with a colon.
  pub workflow_end-drops_longer_ids :
      (suffix key : Text)
      → (get
            (make_queue_key (a ++ colon ∷ suffix) key)
            (apply s (workflow_end a r)).0.checkpoint_queues
          ≡ none)
        × (get
              (make_queue_key (a ++ colon ∷ suffix) key)
              (apply s (workflow_end a r)).0.checkpoint_history
            ≡ none)
  unfolding apply make_queue_key
  workflow_end-drops_longer_ids suffix key = (gone s.checkpoint_queues, gone s.checkpoint_history)
    where
      prefixed : starts_with (make_queue_key (a ++ colon ∷ suffix) key) (a ++ colon ∷ []) ≡ true
      prefixed = rw append_assoc (starts_with_split a (suffix ++ colon ∷ key))

      gone :
          (m : List (Text × Queue))
          → get
              (make_queue_key (a ++ colon ∷ suffix) key)
              (HashMap.retain (λ k. not (starts_with k (a ++ colon ∷ []))) m)
            ≡ none
      gone m = ground (
        arith,
        prefixed,
        get-retain (λ k. not (starts_with k (a ++ colon ∷ [])))
            (make_queue_key (a ++ colon ∷ suffix) key) m,
      )

-- Two checkpoints share a queue only if they are the same key of the same workflow, if no workflow
-- id contains a colon. Without that they may: the keys of `a:b` and `c`, and of `a` and `b:c`, are
-- one.
pub make_queue_key-injective :
    (a b k l : Text)
    → contains colon a ≡ false
    → contains colon b ≡ false
    → make_queue_key a k ≡ make_queue_key b l
    → (a ≡ b) × (k ≡ l)
unfolding make_queue_key contains
make_queue_key-injective [] [] k l ha hb e = (refl, cc)
make_queue_key-injective [] (d ∷ b) k l ha hb e = absurd (ground (arith, nat_beq_iff d colon))
make_queue_key-injective (c ∷ a) [] k l ha hb e = absurd (ground (arith, nat_beq_iff c colon))
make_queue_key-injective (c ∷ a) (d ∷ b) k l ha hb e =
    let (same, keys) =
      make_queue_key-injective a b k l (ground arith) (ground arith) (ground arith) in
    (ground arith, keys)

make_queue_key-collision :
    (a b c : Text) → make_queue_key a (b ++ colon ∷ c) ≡ make_queue_key (a ++ colon ∷ b) c
unfolding make_queue_key
make_queue_key-collision a b c = rw append_assoc
