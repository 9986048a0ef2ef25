-- ===== src/Raft/Node/Proposals.antt =====
-- node.rs: `propose`, `add_node`, `remove_node` and `register_forwarded_proposal`. The random id and
-- the completion channel of a proposal are arguments; the channel's receiver is what the caller gets.
use raftoral.Prelude.{ℕ, zero, suc, ◌/◌, ◌%◌, [], ◌∷◌, ◌++◌}
use raftoral.Prelude.Eq.{Text, codes, nat_eq}
use raftoral.Prelude.HashMap.{insert, remove}
use raftoral.Prelude.Result.{Result, ok, err}
use raftoral.Prelude.Action.{lift, ◌>>=◌, ◌>>◌}
use raftoral.StateMachine.{Bytes}
use raftoral.Raft.Node.{ConfChange, add_node, remove_node, Env, Node, Step}

-- The `count` bytes of a number, the lowest first.
abbrev pub le_bytes : (count n : ℕ) → Bytes
le_bytes zero n = []
le_bytes (suc count) n = n % 256 ∷ le_bytes count (n / 256)

-- `u64::to_le_bytes`
abbrev pub u64_to_le_bytes : ℕ → Bytes
u64_to_le_bytes n = le_bytes 8 n

module _ (env : Env) where
  unfoldable pub register_forwarded_proposal : (sync_id tx : ℕ) → Node env → Node env
  register_forwarded_proposal sync_id tx n = record n {
    pending_proposals = insert sync_id tx n.pending_proposals;
  }

  abbrev encoded : Text → Result Text Bytes → Result Text Bytes
  encoded message (ok bytes) = ok bytes
  encoded message (err e) = err (message ++ e)

  -- A proposal that raft-rs refuses is no longer tracked; the source removes it in a task of its own.
  abbrev submitted :
      Text → ℕ → Node env → env.RawNode × Result Text (Unit {0}) → Node env × Result Text (Unit {0})
  submitted message sync_id n (raw, ok a) = (record n { raw_node = raw }, ok a)
  submitted message sync_id n (raw, err e) = (
    record n { raw_node = raw; pending_proposals = remove sync_id n.pending_proposals },
    err (message ++ e),
  )

  abbrev pub submit : (sync_id : ℕ) → Bytes → Step env
  submit sync_id payload n =
      submitted (codes "Failed to propose: ") sync_id n
        (env.raw_propose (u64_to_le_bytes sync_id) payload n.raw_node)

  abbrev pub submit_conf_change : (sync_id : ℕ) → ConfChange → Step env
  submit_conf_change sync_id change n =
      submitted (codes "Failed to propose conf change: ") sync_id n
        (env.raw_propose_conf_change change n.raw_node)

  unfoldable pub propose : (sync_id tx : ℕ) → env.machine.Command → Step env
  unfolding register_forwarded_proposal
  propose sync_id tx command n =
      (do
        payload ←
            lift (encoded (codes "Failed to serialize command: ") (env.encode_command command))
        submit sync_id payload)
        (register_forwarded_proposal sync_id tx n)

  unfoldable pub add_peer_node : (sync_id tx node_id : ℕ) → (address : Text) → Step env
  unfolding register_forwarded_proposal
  add_peer_node sync_id tx node_id address n =
      (do
        metadata ←
            lift (encoded (codes "Failed to serialize metadata: ") (env.encode_metadata address))
        submit_conf_change sync_id (record {
          change_type = add_node;
          node_id = node_id;
          context = u64_to_le_bytes sync_id ++ metadata;
        })
        (λ m. (record m { transport = env.add_peer node_id address m.transport }, ok tt)))
        (register_forwarded_proposal sync_id tx n)

  unfoldable pub remove_peer_node : (sync_id tx node_id : ℕ) → Step env
  unfolding register_forwarded_proposal
  remove_peer_node sync_id tx node_id n =
      submit_conf_change sync_id
        (record { change_type = remove_node; node_id = node_id; context = u64_to_le_bytes sync_id })
        (register_forwarded_proposal sync_id tx n)
