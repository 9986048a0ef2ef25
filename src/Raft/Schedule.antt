-- ===== src/Raft/Schedule.antt =====
-- What a runtime on top of a node sees of the cluster: its local state machine, and what happens to it
-- next. Raft/ProposalRouter/Forwarding and Raft/Node/Completion show how the entry of a proposal
-- completes it.
use raftoral.Prelude.{ℕ, List, [], ◌∷◌, ◌++◌, Option, none, some, Bool, if◌then◌else◌, nat_beq}
use raftoral.Prelude.Eq.{Text, codes}
use raftoral.Prelude.Result.{Result, ok, err}
use raftoral.Raft.ProposalRouter.{ProposalError, failed}

-- An entry is applied, whose events a subscriber gets, or misses since it lags; the event channel is
-- closed; the timer of a wait goes off; the completion channel of a proposal is dropped.
pub data Occurrence (C : Type 0) : Type 0 where
  applied : (sync_id : ℕ) (delivered : Bool) → C → Occurrence C
  closed timer : Occurrence C
  dropped : (sync_id : ℕ) → Occurrence C

-- The state machine of this node, and what happens from now on, in order.
pub record Timeline (S C : Type 0) : Type 0 where
  pub replica : S
  pub future : List (Occurrence C)

module _ {S C E V : Type 0} (apply : S → C → S × Result E V) (error_text : E → Text) where
  abbrev pub reply_of : Result E V → Result ProposalError (Unit {0})
  reply_of (ok events) = ok tt
  reply_of (err e) = err (failed (codes "Apply failed: " ++ error_text e))

  -- Waiting for the completion of a proposal while entries are applied: `none` where it never comes.
  unfoldable pub await_reply :
      (sync_id : ℕ)
      → (replica : S) → List (Occurrence C)
      → Timeline S C × Option (Result ProposalError (Unit {0}))
  await_reply id replica [] = (record { replica = replica; future = [] }, none)
  await_reply id replica (applied sync_id delivered command ∷ future) =
      let (after, r) = apply replica command in
      let rest = await_reply id after future in
      if nat_beq sync_id id
      then (record { replica = after; future = future }, some (reply_of r))
      else rest
  await_reply id replica (dropped sync_id ∷ future) =
      let rest = await_reply id replica future in
      if nat_beq sync_id id
      then (
        record { replica = replica; future = future },
        some (err (failed (codes "Proposal channel closed"))),
      )
      else rest
  await_reply id replica (closed ∷ future) = await_reply id replica future
  await_reply id replica (timer ∷ future) = await_reply id replica future

  abbrev pub submitted :
      Timeline S C × Result ProposalError ℕ
      → Timeline S C × Option (Result ProposalError (Unit {0}))
  submitted (w, ok id) = await_reply id w.replica w.future
  submitted (w, err e) = (w, some (err e))

  -- `ProposalRouter::propose_and_wait`, for the `propose` of a router.
  unfoldable pub propose_and_wait :
      (propose : C → Timeline S C → Timeline S C × Result ProposalError ℕ)
      → C
      → Timeline S C
      → Timeline S C × Option (Result ProposalError (Unit {0}))
  unfolding await_reply
  propose_and_wait propose command w = submitted (propose command w)
