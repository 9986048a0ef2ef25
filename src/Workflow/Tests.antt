-- ===== src/Workflow/Tests.antt =====
-- The theorems on workflows at concrete states, with a concrete encoding.
use raftoral.Prelude.{
  ℕ, ◌≡◌, refl, ap, sym, ◌∙◌, List, [], ◌∷◌, ◌++◌, none, some, map, length, take, drop, take-length,
  drop-length, arith,
}
use raftoral.Prelude.Eq.{Text, text_eq, text_beq, codes}
use raftoral.Prelude.HashMap.{HashMap, get, insert}
use raftoral.Prelude.Result.{Result, ok, err, ok-injective}
use raftoral.StateMachine.{Bytes, Serde}
use raftoral.Workflow.Event.{WorkflowStatus}
use raftoral.Workflow.StateMachine.{
  WorkflowStateMachine, workflow_start, workflow_end, set_checkpoint, Queue, Snapshot, new, colon,
  make_queue_key, push_back, apply, pop_queued_checkpoint, snapshot, restore, get_workflow_status,
  get_input, get_result, get_owner,
}
use raftoral.Workflow.StateMachine.QueueKey.{workflow_end-drops_longer_ids}
use raftoral.Workflow.StateMachine.Queues.{queue_at, history_at}
use raftoral.Workflow.StateMachine.Queues.History.{
  Operation, command, pop, step, run, written, consumed, run-history,
}
use raftoral.Workflow.StateMachine.Queues.Fifo.{set_all, pop_all, pop_all-set_all}
use raftoral.Workflow.StateMachine.Lifecycle.{IsConsistent, IsConsistent-new, apply-IsConsistent}
use raftoral.Workflow.StateMachine.Snapshots.{DistinctKeys, SameSnapshot, restore-snapshot}

abbrev w : Text
w = codes "w"

abbrev key : Text
key = codes "k"

-- A workflow with one checkpoint that is not consumed.
abbrev waiting : WorkflowStateMachine
waiting = record new {
  checkpoint_queues = (codes "w:k", (1 ∷ []) ∷ []) ∷ [];
  checkpoint_history = (codes "w:k", (1 ∷ []) ∷ []) ∷ [];
}

workflow_end-drops_longer_ids_example :
    (get
        (make_queue_key (w ++ colon ∷ w) key)
        (apply waiting (workflow_end w [])).0.checkpoint_queues
      ≡ none)
    × (get
          (make_queue_key (w ++ colon ∷ w) key)
          (apply waiting (workflow_end w [])).0.checkpoint_history
        ≡ none)
workflow_end-drops_longer_ids_example = workflow_end-drops_longer_ids waiting w [] w key

abbrev operations : List Operation
operations =
    command (set_checkpoint w key (1 ∷ []))
    ∷ pop w key
    ∷ command (set_checkpoint w key (2 ∷ []))
    ∷ []

run-history_example :
    (history_at (make_queue_key w key) (run new operations) ≡ (1 ∷ []) ∷ (2 ∷ []) ∷ [])
    × (◌≡◌ {A = Queue}
        ((1 ∷ []) ∷ (2 ∷ []) ∷ [])
        ((1 ∷ []) ∷ queue_at (make_queue_key w key) (run new operations)))
unfolding written consumed step apply pop_queued_checkpoint text_beq make_queue_key get push_back
    insert
run-history_example = run-history operations (make_queue_key w key)

pop_all-set_all_example :
    pop_all w key
      (length (queue_at (make_queue_key w key) waiting ++ (2 ∷ []) ∷ []))
      (set_all w key waiting ((2 ∷ []) ∷ []))
    ≡ map some (queue_at (make_queue_key w key) waiting ++ (2 ∷ []) ∷ [])
pop_all-set_all_example = pop_all-set_all w key waiting ((2 ∷ []) ∷ [])

apply-IsConsistent_example : IsConsistent (apply new (workflow_start w w 1 [] 3)).0 w
apply-IsConsistent_example =
    apply-IsConsistent new (workflow_start w w 1 [] 3) w (IsConsistent-new w)

abbrev of_history : HashMap Text Queue → Snapshot
of_history history = record {
  workflows = [];
  inputs = [];
  results = [];
  checkpoint_history = history;
  ownership = [];
}

-- An encoding of the snapshots that have nothing but the history of one key with one value.
abbrev encode_history : HashMap Text Queue → Result Text Bytes
encode_history ((k, v ∷ []) ∷ []) = ok (length k ∷ k ++ v)
encode_history _ = err (codes "too large")

abbrev encode :
    HashMap Text WorkflowStatus
    → HashMap Text Bytes
    → HashMap Text Bytes
    → HashMap Text ℕ
    → HashMap Text Queue
    → Result Text Bytes
encode [] [] [] [] history = encode_history history
encode _ _ _ _ _ = err (codes "too large")

abbrev decode : Bytes → HashMap Text Queue
decode [] = []
decode (n ∷ bytes) = (take n bytes, drop n bytes ∷ []) ∷ []

decode-encode_history :
    (history : HashMap Text Queue) (bytes : Bytes)
    → encode_history history ≡ ok bytes
    → decode bytes ≡ history
decode-encode_history [] bytes h = ground arith
decode-encode_history ((k, []) ∷ []) bytes h = ground arith
decode-encode_history ((k, v ∷ []) ∷ []) bytes h =
    ap decode (sym (ok-injective h))
    ∙ ap (λ t. (t, drop (length k) (k ++ v) ∷ []) ∷ []) (take-length k v)
    ∙ ap (λ t. (k, t ∷ []) ∷ []) (drop-length k v)
decode-encode_history ((k, _ ∷ _ ∷ _) ∷ []) bytes h = ground arith
decode-encode_history (_ ∷ _ ∷ _) bytes h = ground arith

decode-Distinct : (bytes : Bytes) → DistinctKeys (decode bytes)
unfolding get
decode-Distinct [] = tt
decode-Distinct (n ∷ bytes) = (refl, tt)

encode-history :
    (a : HashMap Text WorkflowStatus) (b c : HashMap Text Bytes) (d : HashMap Text ℕ)
    (history : HashMap Text Queue) (bytes : Bytes)
    → encode a b c d history ≡ ok bytes
    → (a ≡ []) × (b ≡ []) × (c ≡ []) × (d ≡ []) × (encode_history history ≡ ok bytes)
encode-history [] [] [] [] history bytes h = (refl, refl, refl, refl, h)
encode-history (_ ∷ _) b c d history bytes h = ground arith
encode-history [] (_ ∷ _) c d history bytes h = ground arith
encode-history [] [] (_ ∷ _) d history bytes h = ground arith
encode-history [] [] [] (_ ∷ _) history bytes h = ground arith

decode-encode :
    (s : Snapshot) (bytes : Bytes)
    → encode s.workflows s.inputs s.results s.ownership s.checkpoint_history ≡ ok bytes
    → SameSnapshot s (of_history (decode bytes))
decode-encode s bytes h =
    let (a, b, c, d, history) =
      encode-history s.workflows s.inputs s.results s.ownership s.checkpoint_history bytes h in
    record {
      workflows = λ k. ap (get k) a;
      inputs = λ k. ap (get k) b;
      results = λ k. ap (get k) c;
      ownership = λ k. ap (get k) d;
      checkpoint_history =
          λ k. ap (get k) (sym (decode-encode_history s.checkpoint_history bytes history));
      distinct = decode-Distinct bytes;
    }

abbrev serde : Serde Snapshot SameSnapshot
serde = record {
  to_vec = λ s. encode s.workflows s.inputs s.results s.ownership s.checkpoint_history;
  from_slice = λ bytes. ok (of_history (decode bytes));
  from_slice-to_vec = λ s bytes h. (of_history (decode bytes), refl, decode-encode s bytes h);
}

abbrev bytes : Bytes
bytes = 3 ∷ codes "w:k" ++ 1 ∷ []

restore-snapshot_example :
    ((restore serde new bytes).1 ≡ ok tt)
    × (get_workflow_status (restore serde new bytes).0 (codes "w:k")
        ≡ get_workflow_status waiting (codes "w:k"))
    × (get_input (restore serde new bytes).0 (codes "w:k") ≡ get_input waiting (codes "w:k"))
    × (get_result (restore serde new bytes).0 (codes "w:k") ≡ get_result waiting (codes "w:k"))
    × (get_owner (restore serde new bytes).0 (codes "w:k") ≡ get_owner waiting (codes "w:k"))
    × (get (codes "w:k") (restore serde new bytes).0.checkpoint_history
        ≡ get (codes "w:k") waiting.checkpoint_history)
    × (get (codes "w:k") (restore serde new bytes).0.checkpoint_queues
        ≡ get (codes "w:k") waiting.checkpoint_history)
restore-snapshot_example =
    restore-snapshot serde waiting new bytes (codes "w:k") (unfold snapshot in refl)
