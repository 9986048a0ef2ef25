-- ===== src/Workflow/StateMachine/Snapshots.antt =====
-- A replica that restores a snapshot, and the queues that it rebuilds from the history.
use mathlib.Core.List.{append_assoc, append-nil}
use raftoral.Prelude.{◌≡◌, arith, refl, sym, ◌∙◌, [], ◌∷◌, ◌++◌, Option, none, some}
use raftoral.Prelude.Eq.{Text, text_eq}
use raftoral.Prelude.HashMap.{HashMap, SameMap, get, insert, get-insert}
use raftoral.Prelude.Result.{ok}
use raftoral.StateMachine.{Bytes, Serde}
use raftoral.Workflow.StateMachine.{
  WorkflowStateMachine, Snapshot, Queue, push_all, rebuild_queues, snapshot, restore,
  get_workflow_status, get_input, get_result, get_owner, to_snapshot,
}

-- A `HashMap` holds a key once.
abbrev pub DistinctKeys : HashMap Text Queue → Type 0
DistinctKeys [] = Unit
DistinctKeys ((k, v) ∷ m) = (get k m ≡ none) × DistinctKeys m

-- The same snapshot, up to the order in which its maps iterate.
pub record SameSnapshot (a b : Snapshot) : Type 0 where
  pub workflows : SameMap a.workflows b.workflows
  pub inputs : SameMap a.inputs b.inputs
  pub results : SameMap a.results b.results
  pub checkpoint_history : SameMap a.checkpoint_history b.checkpoint_history
  pub ownership : SameMap a.ownership b.ownership
  pub distinct : DistinctKeys b.checkpoint_history

push_all_lem : (q h : Queue) → push_all q h ≡ q ++ h
unfolding push_all
push_all_lem q [] = sym (append-nil q)
push_all_lem q (v ∷ h) = push_all_lem (q ++ v ∷ []) h ∙ append_assoc q (v ∷ []) h

abbrev over : Option Queue → Option Queue → Option Queue
over none before = before
over (some q) before = some q

get-rebuild_queues :
    (m queues : HashMap Text Queue) (k : Text)
    → DistinctKeys m
    → get k (rebuild_queues queues m) ≡ over (get k m) (get k queues)
unfolding rebuild_queues get
get-rebuild_queues [] queues k d = refl
get-rebuild_queues ((j, h) ∷ m) queues k d = ground (
  arith,
  get-rebuild_queues m (insert j (push_all [] h) queues) k d.1,
  get-insert j k (push_all [] h) queues,
  push_all_lem [] h,
  text_eq.beq_iff j k,
  d.0,
)

over-none : (o : Option Queue) → over o none ≡ o
over-none none = refl
over-none (some q) = refl

module _ (serde : Serde Snapshot SameSnapshot) where
  -- A replica in any state `t` that restores a snapshot of `s` has the status, input, result and
  -- owner of every workflow, and the whole checkpoint history of every key, and every queue is filled
  -- with that history again, whatever of it `s` has already consumed.
  pub restore-snapshot :
      (s t : WorkflowStateMachine) (bytes : Bytes) (w : Text)
      → snapshot serde s ≡ ok bytes
      → ((restore serde t bytes).1 ≡ ok tt)
        × (get_workflow_status (restore serde t bytes).0 w ≡ get_workflow_status s w)
        × (get_input (restore serde t bytes).0 w ≡ get_input s w)
        × (get_result (restore serde t bytes).0 w ≡ get_result s w)
        × (get_owner (restore serde t bytes).0 w ≡ get_owner s w)
        × (get w (restore serde t bytes).0.checkpoint_history ≡ get w s.checkpoint_history)
        × (get w (restore serde t bytes).0.checkpoint_queues ≡ get w s.checkpoint_history)
  unfolding snapshot restore get_workflow_status get_input get_result get_owner get
  restore-snapshot s t bytes w h =
      let (b, read, same) = serde.from_slice-to_vec (to_snapshot s) bytes h in
      rw (read, restore)
        (
          refl,
          sym (same.workflows w),
          sym (same.inputs w),
          sym (same.results w),
          sym (same.ownership w),
          sym (same.checkpoint_history w),
          get-rebuild_queues b.checkpoint_history [] w same.distinct
              ∙ over-none (get w b.checkpoint_history)
              ∙ sym (same.checkpoint_history w),
        )
