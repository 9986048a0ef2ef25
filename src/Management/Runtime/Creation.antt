-- ===== src/Management/Runtime/Creation.antt =====
-- src/management/runtime.rs, `create_sub_cluster` when another node creates a sub-cluster too.
use raftoral.Prelude.{ℕ, ◌≡◌, ◌≢◌, refl, List, ◌∷◌, some, true, false, nat_beq, arith}
use raftoral.Prelude.Eq.{Text, nat_eq}
use raftoral.Prelude.Result.{ok}
use raftoral.Raft.ProposalRouter.{ProposalError}
use raftoral.Raft.Schedule
use raftoral.Raft.Schedule.{Occurrence, applied}
use raftoral.Management.StateMachine.{ManagementCommand, ManagementError, create_sub_cluster, apply}
use raftoral.Management.Runtime.Commands.{ManagementWorld, Propose, create, await_created}

same_id : (n : ℕ) → nat_beq n n ≡ true
same_id n = ground arith

module _ (error_text : ProposalError → Text) (machine_text : ManagementError → Text)
    (propose : Propose) where
  -- Where the sub-cluster of somebody else is created between the proposal and its own commit,
  -- `create_sub_cluster` returns the id of that other sub-cluster, and not its own, which is the next id.
  pub create-other :
      (ids others : List ℕ) (w w₁ : ManagementWorld) (sync_id other_id : ℕ)
      (rest : List (Occurrence ManagementCommand))
      → propose (create_sub_cluster ids) w ≡ (w₁, ok sync_id)
      → w₁.future
        ≡ applied other_id true (create_sub_cluster others)
          ∷ applied sync_id true (create_sub_cluster ids)
          ∷ rest
      → other_id ≢ sync_id
      → let both =
          (apply (apply w₁.replica (create_sub_cluster others)).0 (create_sub_cluster ids)).0 in
        create error_text machine_text propose ids w
        ≡ (record { replica = both; future = rest }, some (ok w₁.replica.next_cluster_id))
  unfolding create await_created Schedule.await_reply apply
  create-other ids others w w₁ sync_id other_id rest proposed scheduled differ =
      let other : nat_beq other_id sync_id ≡ false = ground arith in
      rw (proposed, scheduled, other, same_id sync_id) refl
