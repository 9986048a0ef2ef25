-- ===== src/Raft/ProposalRouter/Forwarding.antt =====
-- proposal_router.rs and node.rs: a proposal that is forwarded to the leader and comes back committed.
use raftoral.Prelude.{
  ℕ, ◌<◌, ◌≡◌, refl, ap, ◌∙◌, [], ◌∷◌, ◌++◌, some, arith, nat_beq, if◌then◌else◌, true, false, none,
}
use raftoral.Prelude.Eq.{Text, nat_eq}
use raftoral.Prelude.HashMap.{get, get-insert}
use raftoral.Prelude.Result.{Result, ok, err}
use raftoral.StateMachine.{Bytes}
use raftoral.Raft.Types.{Entry}
use raftoral.Raft.RocksDbStorage.{u64_mod}
use raftoral.Raft.Node.{Env, Node}
use raftoral.Raft.Node.Proposals.{u64_to_le_bytes, register_forwarded_proposal}
use raftoral.Raft.Node.Entries.{apply_normal, run_command}
use raftoral.Raft.Node.Completion.{apply_normal_complete}
use raftoral.Raft.Node.Mailbox.{handle_raft_message, context_of}
use raftoral.Raft.ProposalRouter.{ProposalRouter, forward_message, forward_to_leader, forwarded}

not_zero : (n : ℕ) → 0 < n → nat_beq n 0 ≡ false
not_zero n positive = ground arith

same : (n : ℕ) → nat_beq n n ≡ true
same n = ground arith

context_of-positive : (sync_id : ℕ) → 0 < sync_id → context_of sync_id ≡ u64_to_le_bytes sync_id
context_of-positive sync_id positive =
    ap (λ b. if b then [] else u64_to_le_bytes sync_id) (not_zero sync_id positive)

module _ (env : Env) where
  forwarded-node :
      (tx : ℕ) (self : ProposalRouter env) (r : env.Transport × Result Text (Unit {0}))
      → (forwarded env tx self r).0.node ≡ record self.node { transport = r.0 }
  forwarded-node tx self (transport, ok a) = refl
  forwarded-node tx self (transport, err e) = refl

  -- The node after its command was forwarded.
  abbrev node_after : (sync_id tx leader cluster_id : ℕ) → Bytes → Node env → Node env
  node_after sync_id tx leader cluster_id bytes n =
      record (register_forwarded_proposal env sync_id tx n) {
        transport =
            (env.send_message leader (forward_message env cluster_id sync_id bytes) n.transport).0;
      }

  forward_to_leader-node :
      (sync_id tx leader : ℕ) (command : env.machine.Command) (bytes : Bytes)
      (self : ProposalRouter env)
      → env.encode_command command ≡ ok bytes
      → (forward_to_leader env sync_id tx leader command self).0.node
        ≡ node_after sync_id tx leader self.cluster_id bytes self.node
  unfolding forward_to_leader register_forwarded_proposal
  forward_to_leader-node sync_id tx leader command bytes self encoded = rw encoded (
      forwarded-node tx
        (record self { node = register_forwarded_proposal env sync_id tx self.node }) _)

  handle-forward_message :
      (cluster_id sync_id : ℕ) (bytes : Bytes) (peer : Node env)
      → 0 < sync_id
      → handle_raft_message env (forward_message env cluster_id sync_id bytes) peer ≡ (
        record peer {
          raw_node = (env.raw_propose (u64_to_le_bytes sync_id) bytes peer.raw_node).0;
        },
        (env.raw_propose (u64_to_le_bytes sync_id) bytes peer.raw_node).1,
      )
  unfolding handle_raft_message
  handle-forward_message cluster_id sync_id bytes peer positive =
      ap
        (λ c. (
          record peer { raw_node = (env.raw_propose c bytes peer.raw_node).0 },
          (env.raw_propose c bytes peer.raw_node).1,
        ))
        (context_of-positive sync_id positive)

  -- A command that is forwarded to the leader is tracked and sent under one id. Whatever node handles
  -- the message proposes that command to its raft-rs under that id, and once the entry of this proposal
  -- is applied here, the channel of the proposal gets the result of the command, and it is tracked no
  -- longer. The id is not 0 and below 2 ^ 64, and the command can be serialized.
  pub forward_to_leader_complete :
      (sync_id tx leader : ℕ) (command : env.machine.Command) (bytes : Bytes)
      (self : ProposalRouter env) (peer : Node env) (entry : Entry)
      → 0 < sync_id
      → sync_id < u64_mod
      → env.encode_command command ≡ ok bytes
      → entry.context ≡ u64_to_le_bytes sync_id
      → entry.payload ≡ bytes
      → let message = forward_message env self.cluster_id sync_id bytes in
        let here = (forward_to_leader env sync_id tx leader command self).0.node in
        let (raw, proposed) = env.raw_propose (u64_to_le_bytes sync_id) bytes peer.raw_node in
        (here.transport ≡ (env.send_message leader message self.node.transport).0)
        × (handle_raft_message env message peer ≡ (record peer { raw_node = raw }, proposed))
        × ((apply_normal env entry here).sent
            ≡ self.node.sent ++ (tx, (run_command env (env.decode_command bytes) here).1) ∷ [])
        × (get sync_id (apply_normal env entry here).pending_proposals ≡ none)
  unfolding register_forwarded_proposal
  forward_to_leader_complete sync_id tx leader command bytes self peer entry positive room encoded
        context payload =
      let here = (forward_to_leader env sync_id tx leader command self).0.node in
      let after = forward_to_leader-node sync_id tx leader command bytes self encoded in
      let tracked : get sync_id here.pending_proposals ≡ some tx =
        ap (λ n. get sync_id n.pending_proposals) after
        ∙ get-insert sync_id sync_id tx self.node.pending_proposals
        ∙ ap (λ b. if b then some tx else get sync_id self.node.pending_proposals) (same sync_id) in
      let (sent, pending) =
        apply_normal_complete env entry here sync_id tx sync_id room context tracked in
      (
        ap (λ n. n.transport) after,
        handle-forward_message self.cluster_id sync_id bytes peer positive,
        sent
            ∙ ap
                (λ n.
                  n.sent ++ (tx, (run_command env (env.decode_command entry.payload) here).1) ∷ [])
                after
            ∙ ap (λ p. self.node.sent ++ (tx, (run_command env (env.decode_command p) here).1) ∷ [])
                payload,
        pending ∙ ap (λ b. if b then none else get sync_id here.pending_proposals) (same sync_id),
      )
