-- ===== src/Workflow/StateMachine/Queues/History.antt =====
-- The queues against the history, over commands and pops in any order.
use mathlib.Core.List.{append_assoc}
use raftoral.Prelude.{
  ◌≡◌, Bool, true, false, not, Option, none, some, first, arith, refl, ap, sym, ◌∙◌, if◌then◌else◌,
  List, [], ◌∷◌, ◌++◌,
}
use raftoral.Prelude.Eq.{Text, text_eq, ◌==◌}
use raftoral.Prelude.HashMap.{HashMap, get, retain, get-retain}
use raftoral.StateMachine.{Bytes}
use raftoral.Workflow.StateMachine.{
  WorkflowStateMachine, WorkflowCommand, workflow_start, workflow_end, set_checkpoint, owner_change,
  apply, pop_queued_checkpoint, make_queue_key, or_new, starts_with, Queue, new, colon,
}
use raftoral.Workflow.StateMachine.Queues.{
  queue_at, history_at, tail_of, or_new-push_back, pop_queued_checkpoint_lem,
}

-- What changes a state machine: a committed command, or a pop by the runtime.
pub data Operation : Type 0 where
  command : WorkflowCommand → Operation
  pop : (workflow_id key : Text) → Operation

unfoldable pub step : WorkflowStateMachine → Operation → WorkflowStateMachine
step s (command c) = (apply s c).0
step s (pop w key) = (pop_queued_checkpoint s w key).0

unfoldable pub run : WorkflowStateMachine → List Operation → WorkflowStateMachine
run s [] = s
run s (o ∷ os) = run (step s o) os

-- What the end of a workflow leaves of a list of values under a composite key: it clears the keys
-- that start with the id of the workflow and a colon.
abbrev pub left_by : Text → WorkflowCommand → Queue → Queue
left_by k (workflow_end id result) values = if starts_with k (id ++ colon ∷ []) then [] else values
left_by k c values = values

-- The values that were set under a key since it was last cleared, after those `before`.
unfoldable pub written : Text → List Operation → (before : Queue) → Queue
written k [] before = before
written k (command (set_checkpoint w key v) ∷ os) before =
    written k os (if make_queue_key w key == k then before ++ v ∷ [] else before)
written k (command c ∷ os) before = written k os (left_by k c before)
written k (pop w key ∷ os) before = written k os before

abbrev pub returned : Option Bytes → Queue
returned none = []
returned (some v) = v ∷ []

-- The values that pops of a key returned since it was last cleared, after those `before`.
unfoldable pub consumed : Text → WorkflowStateMachine → List Operation → (before : Queue) → Queue
consumed k s [] before = before
consumed k s (command c ∷ os) before = consumed k (step s (command c)) os (left_by k c before)
consumed k s (pop w key ∷ os) before = consumed k (step s (pop w key)) os (
    if make_queue_key w key == k
    then before ++ returned (pop_queued_checkpoint s w key).1
    else before)

-- The history `h` is what is in the state, and it is `taken` followed by what waits.
abbrev Splits : Text → WorkflowStateMachine → (h taken : Queue) → Type 0
Splits k s h taken = (history_at k s ≡ h) × (h ≡ taken ++ queue_at k s)

or_new-retain :
    (p : Text → Bool) (k : Text) (m : HashMap Text Queue)
    → or_new (get k (retain p m)) ≡ (if p k then or_new (get k m) else [])
or_new-retain p k m = ground (arith, get-retain p k m)

Splits-set :
    (s : WorkflowStateMachine) (w key : Text) (v : Bytes) (k : Text) (h taken : Queue)
    → Splits k s h taken
    → Splits k
        (step s (command (set_checkpoint w key v)))
        (if make_queue_key w key == k then h ++ v ∷ [] else h)
        taken
unfolding step apply queue_at history_at
Splits-set s w key v k h taken (same, split) =
    rw or_new-push_back (rw or_new-push_back (by_key (make_queue_key w key == k)))
  where
    by_key :
        (b : Bool)
        → ((if b
              then or_new (get k s.checkpoint_history) ++ v ∷ []
              else or_new (get k s.checkpoint_history))
            ≡ (if b then h ++ v ∷ [] else h))
          × ((if b then h ++ v ∷ [] else h)
              ≡ taken
                ++ (if b
                    then or_new (get k s.checkpoint_queues) ++ v ∷ []
                    else or_new (get k s.checkpoint_queues)))
    by_key true = (
      ap (λ l. l ++ v ∷ []) same,
      ap (λ l. l ++ v ∷ []) split
          ∙ append_assoc taken (or_new (get k s.checkpoint_queues)) (v ∷ []),
    )
    by_key false = (same, split)

Splits-end :
    (s : WorkflowStateMachine) (id : Text) (result : Bytes) (k : Text) (h taken : Queue)
    → Splits k s h taken
    → let c = workflow_end id result in
      Splits k (step s (command c)) (left_by k c h) (left_by k c taken)
unfolding step apply queue_at history_at
Splits-end s id result k h taken (same, split) =
    rw or_new-retain (rw or_new-retain (by_key (starts_with k (id ++ colon ∷ []))))
  where
    by_key :
        (b : Bool)
        → ((if not b then or_new (get k s.checkpoint_history) else []) ≡ (if b then [] else h))
          × ((if b then [] else h)
              ≡ (if b then [] else taken)
                ++ (if not b then or_new (get k s.checkpoint_queues) else []))
    by_key true = (refl, refl)
    by_key false = (same, split)

first_and_rest : (q : Queue) → q ≡ returned (first q) ++ tail_of q
first_and_rest [] = refl
first_and_rest (v ∷ q) = refl

Splits-pop :
    (s : WorkflowStateMachine) (w key k : Text) (h taken : Queue)
    → Splits k s h taken
    → Splits k (step s (pop w key)) h (
        if make_queue_key w key == k
        then taken ++ returned (pop_queued_checkpoint s w key).1
        else taken)
unfolding step history_at
Splits-pop s w key k h taken (same, split) =
    let (_, value, queue, history) = pop_queued_checkpoint_lem s w key k in
    (
      ap (λ m. or_new (get k m)) history ∙ same,
      rw (value, queue)
          (by_key (make_queue_key w key == k) ((text_eq.beq_iff (make_queue_key w key) k).0)),
    )
  where
    by_key :
        (b : Bool)
        → (b ≡ true → make_queue_key w key ≡ k)
        → h
          ≡ (if b then taken ++ returned (first (queue_at (make_queue_key w key) s)) else taken)
            ++ (if b then tail_of (queue_at k s) else queue_at k s)
    by_key true same_key =
        split
        ∙ ap (λ q. taken ++ q) (first_and_rest (queue_at k s))
        ∙ sym (append_assoc taken (returned (first (queue_at k s))) (tail_of (queue_at k s)))
        ∙ ap (λ j. (taken ++ returned (first (queue_at j s))) ++ tail_of (queue_at k s))
            (sym (same_key refl))
    by_key false same_key = split

run-Splits :
    (k : Text) (os : List Operation) (s : WorkflowStateMachine) (h taken : Queue)
    → Splits k s h taken
    → Splits k (run s os) (written k os h) (consumed k s os taken)
unfolding run written consumed
run-Splits k [] s h taken e = e
run-Splits k (command (set_checkpoint w key v) ∷ os) s h taken e =
    run-Splits k os (step s (command (set_checkpoint w key v))) _ taken
      (Splits-set s w key v k h taken e)
run-Splits k (command (workflow_end id result) ∷ os) s h taken e =
    run-Splits k os (step s (command (workflow_end id result))) _ _
      (Splits-end s id result k h taken e)
run-Splits k (command (workflow_start id type version input owner) ∷ os) s h taken e =
    run-Splits k os (step s (command (workflow_start id type version input owner))) h taken
      (unfold step apply queue_at history_at in e)
run-Splits k (command (owner_change id old next reason) ∷ os) s h taken e =
    run-Splits k os (step s (command (owner_change id old next reason))) h taken
      (unfold step apply queue_at history_at in e)
run-Splits k (pop w key ∷ os) s h taken e =
    run-Splits k os (step s (pop w key)) h _ (Splits-pop s w key k h taken e)

-- After any commands and pops from the empty state machine, the history of every key is what was set
-- under it since it was last cleared, and that is what the pops of the key returned since then, in
-- order, followed by what still waits in its queue.
pub run-history :
    (os : List Operation) (k : Text)
    → (history_at k (run new os) ≡ written k os [])
      × (written k os [] ≡ consumed k new os [] ++ queue_at k (run new os))
run-history os k = run-Splits k os new [] [] (unfold queue_at history_at get in (refl, refl))
