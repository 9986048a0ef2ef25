-- ===== src/Raft/Types.antt =====
-- The messages of raft-rs and those between nodes (proto/raftoral.proto), by the fields that the
-- code reads and writes.
use raftoral.Prelude.{ℕ, List, [], Option}
use raftoral.StateMachine.{Bytes}

pub data EntryType : Type 0 where
  entry_normal entry_conf_change entry_conf_change_v2 : EntryType

pub record Entry : Type 0 where
  pub entry_type : EntryType
  pub term : ℕ
  pub index : ℕ
  pub payload : Bytes
  pub context : Bytes

pub record HardState : Type 0 where
  pub term : ℕ
  pub vote : ℕ
  pub commit : ℕ

abbrev pub default_hard_state : HardState
default_hard_state = record { term = 0; vote = 0; commit = 0 }

pub record ConfState : Type 0 where
  pub voters : List ℕ
  pub learners : List ℕ

abbrev pub default_conf_state : ConfState
default_conf_state = record { voters = []; learners = [] }

-- A snapshot with its metadata.
pub record Snapshot : Type 0 where
  pub payload : Bytes
  pub conf_state : ConfState
  pub index : ℕ
  pub term : ℕ

pub record RaftState : Type 0 where
  pub hard_state : HardState
  pub conf_state : ConfState

pub record ProposeMessage : Type 0 where
  pub command_json : Bytes
  pub sync_id : ℕ

-- The `oneof` of a `GenericMessage`. The fields of the last ones are not read by the code.
pub data GenericBody : Type 0 where
  propose_message : ProposeMessage → GenericBody
  raft_message : Bytes → GenericBody
  conf_change_message campaign_message add_node_message remove_node_message : GenericBody

pub record GenericMessage : Type 0 where
  pub cluster_id : ℕ
  pub message : Option GenericBody
