-- ===== src/Raft/Node/Completion.antt =====
-- node.rs: the id of a proposal travels in the context of its entry, and completes it.
use raftoral.Prelude.{
  ℕ, zero, suc, ◌*◌, ◌/◌, ◌<◌, ◌≡◌, refl, ap, ◌∙◌, List, [], ◌∷◌, ◌++◌, Option, none, some,
  if◌then◌else◌, arith, nat_beq,
}
use raftoral.Prelude.Eq.{Text, nat_eq}
use raftoral.Prelude.HashMap.{get, get-remove}
use raftoral.Prelude.Result.{Result, ok, err}
use raftoral.Raft.Types.{Entry}
use raftoral.Raft.RocksDbStorage.{u64_mod}
use raftoral.Raft.Node.{Env, Node, u64_from_le_bytes, complete, send_result}
use raftoral.Raft.Node.Proposals.{le_bytes, u64_to_le_bytes}
use raftoral.Raft.Node.Entries.{sync_id_of, run_command, apply_normal, applied}

-- The numbers of `count` bytes are below it.
abbrev capacity : ℕ → ℕ
capacity zero = 1
capacity (suc count) = 256 * capacity count

u64_from_le_bytes-le_bytes :
    (count n : ℕ) → n < capacity count → u64_from_le_bytes (le_bytes count n) ≡ n
u64_from_le_bytes-le_bytes zero n h = omega arith
u64_from_le_bytes-le_bytes (suc count) n h =
    omega (arith, u64_from_le_bytes-le_bytes count (n / 256) (omega arith))

-- The id of a proposal is what the entry with its context is completed under.
pub sync_id_of-u64_to_le_bytes : (id : ℕ) → id < u64_mod → sync_id_of (u64_to_le_bytes id) ≡ some id
sync_id_of-u64_to_le_bytes id h = ap some (u64_from_le_bytes-le_bytes 8 id h)

module _ (env : Env) where
  applied-pending :
      (r : env.machine.State × Result env.machine.Error (List env.machine.Event)) (n : Node env)
      → ((applied env r n).0.pending_proposals ≡ n.pending_proposals)
        × ((applied env r n).0.sent ≡ n.sent)
  applied-pending (s, ok events) n = (refl, refl)
  applied-pending (s, err e) n = (refl, refl)

  run_command-pending :
      (c : Result Text env.machine.Command) (n : Node env)
      → ((run_command env c n).0.pending_proposals ≡ n.pending_proposals)
        × ((run_command env c n).0.sent ≡ n.sent)
  run_command-pending (ok c) n = applied-pending _ n
  run_command-pending (err e) n = (refl, refl)

  complete-tracked :
      (o : Option ℕ) (result : Result Text (Unit {0})) (m : Node env) (id tx : ℕ)
      → o ≡ some id
      → get id m.pending_proposals ≡ some tx
      → complete env o result m ≡ send_result env id (some tx) result m
  complete-tracked o result m id tx h k =
      ap (λ o. complete env o result m) h ∙ ap (λ t. send_result env id t result m) k

  -- Applying the entry of a tracked proposal, whatever its command does, sends the result to the
  -- channel of that proposal alone and tracks it no longer; the other proposals stay as they were.
  pub apply_normal_complete :
      (entry : Entry) (n : Node env) (id tx other_id : ℕ)
      → id < u64_mod
      → entry.context ≡ u64_to_le_bytes id
      → get id n.pending_proposals ≡ some tx
      → ((apply_normal env entry n).sent
          ≡ n.sent ++ (tx, (run_command env (env.decode_command entry.payload) n).1) ∷ [])
        × (get other_id (apply_normal env entry n).pending_proposals
            ≡ (if nat_beq id other_id then none else get other_id n.pending_proposals))
  unfolding apply_normal
  apply_normal_complete entry n id tx other_id room context tracked =
      let (m, result) = run_command env (env.decode_command entry.payload) n in
      let (pending, sent) = run_command-pending (env.decode_command entry.payload) n in
      let done =
        complete-tracked (sync_id_of entry.context) result m id tx
          (ap sync_id_of context ∙ sync_id_of-u64_to_le_bytes id room)
          (ap (get id) pending ∙ tracked) in
      (
        ap (λ p. p.sent) done ∙ ap (λ l. l ++ (tx, result) ∷ []) sent,
        ap (λ p. get other_id p.pending_proposals) done
            ∙ get-remove id other_id m.pending_proposals
            ∙ ap (λ l. if nat_beq id other_id then none else get other_id l) pending,
      )
