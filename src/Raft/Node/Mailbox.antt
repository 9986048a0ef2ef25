-- ===== src/Raft/Node/Mailbox.antt =====
-- node.rs: the mailbox of a node and its two event loops.
pub mod Failures
use raftoral.Prelude.{
  ℕ, List, [], ◌∷◌, ◌++◌, Option, none, some, Bool, true, false, if◌then◌else◌, nat_beq,
}
use raftoral.Prelude.Eq.{Text, codes}
use raftoral.Prelude.Result.{Result, ok, err, map_err}
use raftoral.Prelude.Action.{lift, ◌>>=◌, ◌>>◌}
use raftoral.StateMachine.{Bytes}
use raftoral.Raft.Types.{GenericMessage, GenericBody, raft_message, propose_message}
use raftoral.Raft.Node.{StateRole, leader, Env, Node, Step}
use raftoral.Raft.Node.Proposals.{u64_to_le_bytes}
use raftoral.Raft.Node.OnReady.{on_ready}

-- What wakes the loop of `run`.
pub data Wakeup : Type 0 where
  ticked closed : Wakeup
  received : GenericMessage → Wakeup

-- One round of `run_from_arc`: what `try_recv` gives until the mailbox is empty or disconnected.
pub record Round : Type 0 where
  pub messages : List GenericMessage
  pub disconnected : Bool
  pub now : ℕ

-- The context of a forwarded proposal, where the id 0 stands for none.
abbrev pub context_of : (sync_id : ℕ) → Bytes
context_of sync_id = if nat_beq sync_id 0 then [] else u64_to_le_bytes sync_id

module _ (env : Env) where
  -- `INVALID_ID` is 0.
  unfoldable pub leader_id : Node env → Option ℕ
  leader_id n =
      if nat_beq (env.leader_id n.raw_node) 0 then none else some (env.leader_id n.raw_node)

  abbrev leads : StateRole → Bool
  leads leader = true
  leads _ = false

  unfoldable pub is_leader : Node env → Bool
  is_leader n = leads n.current_role

  abbrev with_raw_node :
      Node env → env.RawNode × Result Text (Unit {0}) → Node env × Result Text (Unit {0})
  with_raw_node n (raw, r) = (record n { raw_node = raw }, r)

  unfoldable pub campaign : Step env
  campaign n =
      let (raw, r) = env.campaign n.raw_node in
      (record n { raw_node = raw }, map_err (λ e. codes "Failed to campaign: " ++ e) r)

  abbrev pub handle_body : GenericBody → Step env
  handle_body (raft_message bytes) n =
      (do
        raft_msg ← lift (env.decode_message bytes)
        (λ m. with_raw_node m (env.step raft_msg m.raw_node)))
        n
  handle_body (propose_message msg) n =
      with_raw_node n (env.raw_propose (context_of msg.sync_id) msg.command_json n.raw_node)
  handle_body _ n = (n, ok tt)

  abbrev pub handle_message : Option GenericBody → Step env
  handle_message none n = (n, err (codes "GenericMessage missing message field"))
  handle_message (some body) n = handle_body body n

  unfoldable pub handle_raft_message : GenericMessage → Step env
  handle_raft_message generic_msg n = handle_message generic_msg.message n

  abbrev tick : Node env → Node env
  tick n = record n { raw_node = env.tick n.raw_node }

  -- The loop over what wakes it, each with the time of the work that follows.
  unfoldable pub run : List (Wakeup × ℕ) → Step env
  unfolding handle_raft_message
  run [] n = (n, ok tt)
  run ((ticked, now) ∷ ws) n = (on_ready env now >> run ws) (tick n)
  run ((received msg, now) ∷ ws) n = (handle_raft_message msg >> (on_ready env now >> run ws)) n
  run ((closed, now) ∷ ws) n = (n, ok tt)

  abbrev pub receive_all : List GenericMessage → Step env
  receive_all [] n = (n, ok tt)
  receive_all (msg ∷ msgs) n = (handle_raft_message msg >> receive_all msgs) n

  unfoldable pub run_from_arc : List Round → Step env
  unfolding handle_raft_message
  run_from_arc [] n = (n, ok tt)
  run_from_arc (round ∷ rounds) n =
      let others = run_from_arc rounds in
      (receive_all round.messages
          >> (if round.disconnected then (λ m. (m, ok tt)) else on_ready env round.now >> others))
        (tick n)
