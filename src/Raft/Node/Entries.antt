-- ===== src/Raft/Node/Entries.antt =====
-- node.rs: committed entries and configuration changes, as `on_ready` applies them.
use raftoral.Prelude.{
  ℕ, List, [], ◌∷◌, ◌++◌, Option, none, some, if◌then◌else◌, length, is_empty, take, drop, nat_beq,
  leb, ltb,
}
use raftoral.Prelude.Eq.{Text, codes}
use raftoral.Prelude.Result.{Result, ok, err}
use raftoral.Prelude.Action.{◌>>◌}
use raftoral.StateMachine.{Bytes}
use raftoral.Raft.Types.{
  Entry, ConfState, EntryType, entry_normal, entry_conf_change, entry_conf_change_v2,
}
use raftoral.Raft.Node.{
  ConfChange, ConfChangeType, add_node, remove_node, add_learner_node, Env, Node, Step, complete,
  publish_batch, u64_from_le_bytes,
}

-- The id of the proposal, in the context of an entry.
abbrev pub sync_id_of : Bytes → Option ℕ
sync_id_of context = if nat_beq (length context) 8 then some (u64_from_le_bytes context) else none

-- The id and where the metadata starts, in the context of a configuration change.
abbrev pub split_context : Bytes → Option ℕ × ℕ
split_context context =
    if leb 8 (length context) then (some (u64_from_le_bytes (take 8 context)), 8) else (none, 0)

module _ (env : Env) where
  abbrev pub applied :
      env.machine.State × Result env.machine.Error (List env.machine.Event)
      → Node env
      → Node env × Result Text (Unit {0})
  applied (s, ok events) n = (publish_batch env events (record n { state_machine = s }), ok tt)
  applied (s, err e) n =
      (record n { state_machine = s }, err (codes "Apply failed: " ++ env.error_text e))

  abbrev pub run_command :
      Result Text env.machine.Command → Node env → Node env × Result Text (Unit {0})
  run_command (ok command) n = applied (env.machine.apply n.state_machine command) n
  run_command (err e) n = (n, err (codes "Deserialization failed: " ++ e))

  unfoldable pub apply_normal : Entry → Node env → Node env
  apply_normal entry n =
      let (m, apply_result) = run_command (env.decode_command entry.payload) n in
      record (complete env (sync_id_of entry.context) apply_result m) {
        committed_index = entry.index;
      }

  abbrev pub add_peer_of : ℕ → Result Text Text → Node env → Node env × Result Text (Unit {0})
  add_peer_of node_id (ok address) n =
      (record n { transport = env.add_peer node_id address n.transport }, ok tt)
  add_peer_of node_id (err e) n = (n, err (codes "Failed to deserialize node metadata: " ++ e))

  unfoldable pub change_peers :
      ConfChangeType → ConfChange → ℕ → Node env → Node env × Result Text (Unit {0})
  change_peers add_node cc metadata_start n =
      if ltb metadata_start (length cc.context)
      then add_peer_of cc.node_id (env.decode_metadata (drop metadata_start cc.context)) n
      else (n, ok tt)
  change_peers remove_node cc metadata_start n =
      (record n { transport = env.remove_peer cc.node_id n.transport }, ok tt)
  change_peers add_learner_node cc metadata_start n = (n, ok tt)

  abbrev pub conf_changed : ConfChange → Node env → Node env
  conf_changed cc n =
      let (sync_id, metadata_start) = split_context cc.context in
      let (m, conf_change_result) = change_peers cc.change_type cc metadata_start n in
      complete env sync_id conf_change_result m

  abbrev pub raw_changed :
      ConfChange
      → Node env
      → env.RawNode × Result Text ConfState
      → Node env × Result Text (Unit {0})
  raw_changed cc n (raw, ok cs) =
      (conf_changed cc (record n { raw_node = raw; cached_conf_state = cs }), ok tt)
  raw_changed cc n (raw, err e) = (record n { raw_node = raw }, err e)

  abbrev pub conf_change_of : Result Text ConfChange → Step env
  conf_change_of (ok cc) n = raw_changed cc n (env.raw_apply_conf_change n.raw_node cc)
  conf_change_of (err e) n = (n, err e)

  unfoldable pub apply_conf_change : Entry → Step env
  apply_conf_change entry n = conf_change_of (env.decode_conf_change entry.payload) n

  -- An entry without data is the one of an election.
  unfoldable pub apply_entry : EntryType → Entry → Step env
  unfolding apply_normal apply_conf_change
  apply_entry entry_normal entry n = (apply_normal entry n, ok tt)
  apply_entry entry_conf_change entry n = apply_conf_change entry n
  apply_entry entry_conf_change_v2 entry n = apply_conf_change entry n

  abbrev pub apply_one : Entry → Step env
  apply_one entry n =
      if is_empty entry.payload then (n, ok tt) else apply_entry entry.entry_type entry n

  unfoldable pub apply_committed : List Entry → Step env
  apply_committed [] n = (n, ok tt)
  apply_committed (entry ∷ entries) n = (apply_one entry >> apply_committed entries) n
