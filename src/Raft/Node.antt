-- ===== src/Raft/Node.antt =====
-- src/raft/generic/node.rs: the state of a `RaftNode`, and what it uses of raft-rs, of the transport
-- and of serde_json. The locks order the accesses and hold no data.
pub mod Proposals
pub mod Completion
pub mod Entries
pub mod Committed
pub mod SnapshotCreation
pub mod Followers
pub mod FailedNodes
pub mod OnReady
pub mod Mailbox
pub mod Construction
pub mod Sample
mod Tests
use raftoral.Prelude.{ℕ, ◌+◌, ◌*◌, List, [], ◌∷◌, ◌++◌, Option, none, some, Bool}
use raftoral.Prelude.Eq.{Text, nat_eq}
use raftoral.Prelude.HashMap.{HashMap, get, remove}
use raftoral.Prelude.Result.{Result, ok, err}
use raftoral.Prelude.Action.{Action}
use raftoral.StateMachine.{Bytes, StateMachine}
use raftoral.Raft.Types.{Entry, HardState, ConfState, Snapshot, GenericMessage}
use raftoral.Raft.RocksDb.{RocksDb}
use raftoral.Raft.RocksDbStorage.{Storage, StorageError}

pub data ConfChangeType : Type 0 where
  add_node remove_node add_learner_node : ConfChangeType

pub record ConfChange : Type 0 where
  pub change_type : ConfChangeType
  pub node_id : ℕ
  pub context : Bytes

pub data StateRole : Type 0 where
  follower candidate leader pre_candidate : StateRole

pub data RoleChange : Type 0 where
  became_follower became_candidate became_leader : RoleChange

-- raft-rs hands out the work of one round as a `Ready` and, after it is persisted, a `LightReady`.
pub record Ready (M : Type 0) : Type 0 where
  pub snapshot : Option Snapshot
  pub committed_entries : List Entry
  pub entries : List Entry
  pub hs : Option HardState
  pub ss : Option StateRole
  pub messages : List (ℕ × M)
  pub persisted_messages : List (ℕ × M)

pub record LightReady (M : Type 0) : Type 0 where
  pub commit_index : Option ℕ
  pub messages : List (ℕ × M)
  pub committed_entries : List Entry

-- What the node relies on: its state machine and its database, raft-rs, the transport, and the
-- decoders. The raft-rs node reads the store that is passed to it.
pub record Env : Type 1 where
  pub machine : StateMachine
  pub rocks : RocksDb
  pub RawNode : Type 0
  pub Message : Type 0
  pub Transport : Type 0
  pub has_ready : RawNode → Storage rocks → Option (RawNode × Ready Message)
  pub advance_append : RawNode → Storage rocks → RawNode × LightReady Message
  pub advance_apply : RawNode → Storage rocks → RawNode
  pub raw_propose : (context payload : Bytes) → RawNode → RawNode × Result Text (Unit {0})
  pub raw_propose_conf_change : ConfChange → RawNode → RawNode × Result Text (Unit {0})
  pub raw_apply_conf_change : RawNode → ConfChange → RawNode × Result Text ConfState
  pub committed : RawNode → ℕ
  pub progress : RawNode → HashMap ℕ ℕ
  pub step : Message → RawNode → RawNode × Result Text (Unit {0})
  pub tick : RawNode → RawNode
  pub campaign : RawNode → RawNode × Result Text (Unit {0})
  pub leader_id : RawNode → ℕ
  pub send_message : ℕ → GenericMessage → Transport → Transport × Result Text (Unit {0})
  pub add_peer : ℕ → Text → Transport → Transport
  pub remove_peer : ℕ → Transport → Transport
  pub encode_message : Message → Bytes
  pub decode_message : Bytes → Result Text Message
  pub encode_command : machine.Command → Result Text Bytes
  pub encode_metadata : Text → Result Text Bytes
  pub decode_command : Bytes → Result Text machine.Command
  pub decode_conf_change : Bytes → Result Text ConfChange
  pub decode_metadata : Bytes → Result Text Text
  pub error_text : machine.Error → Text
  pub storage_error_text : StorageError → Text

-- `u64::from_le_bytes`
abbrev pub u64_from_le_bytes : Bytes → ℕ
u64_from_le_bytes [] = 0
u64_from_le_bytes (b ∷ bytes) = b + 256 * u64_from_le_bytes bytes

module _ (env : Env) where
  -- `published` is what the event bus was given and `sent` what the completion channels were, in order.
  -- A completion channel is a number.
  pub record Node : Type 0 where
    pub node_id : ℕ
    pub cluster_id : ℕ
    pub snapshot_interval : ℕ
    pub failure_detection_timeout : ℕ
    pub raw_node : env.RawNode
    pub store : Storage env.rocks
    pub transport : env.Transport
    pub state_machine : env.machine.State
    pub published : List env.machine.Event
    pub current_role : StateRole
    pub role_changes : List RoleChange
    pub pending_proposals : HashMap ℕ ℕ
    pub sent : List (ℕ × Result Text (Unit {0}))
    pub committed_index : ℕ
    pub last_snapshot_index : ℕ
    pub cached_conf_state : ConfState
    pub follower_progress : HashMap ℕ (ℕ × ℕ)

  abbrev pub Step : Type 0
  Step = Action Node Text (Unit {0})

  abbrev pub send_result : ℕ → Option ℕ → Result Text (Unit {0}) → Node → Node
  send_result id none result n = n
  send_result id (some tx) result n = record n {
    pending_proposals = remove id n.pending_proposals;
    sent = n.sent ++ (tx, result) ∷ [];
  }

  -- A tracked proposal leaves the map and its channel gets the result.
  abbrev pub complete : Option ℕ → Result Text (Unit {0}) → Node → Node
  complete none result n = n
  complete (some id) result n = send_result id (get id n.pending_proposals) result n

  -- `publish_batch`. The node calls it where there are events; without events it changes nothing.
  abbrev pub publish_batch : List env.machine.Event → Node → Node
  publish_batch events n = record n { published = n.published ++ events }
