-- ===== src/Raft/Node/OnReady.antt =====
-- node.rs, `on_ready`: one round of work that raft-rs hands out, in the order of the source.
pub mod PreVote
use raftoral.Prelude.{
  List, [], ◌∷◌, ◌++◌, Option, none, some, Bool, true, false, if◌then◌else◌, is_empty, ℕ,
}
use raftoral.Prelude.Eq.{Text}
use raftoral.Prelude.Result.{Result, ok, err, map_err}
use raftoral.Prelude.Action.{Action, pure, ◌>>=◌, ◌>>◌}
use raftoral.Raft.Types.{Entry, HardState, Snapshot, GenericMessage, raft_message}
use raftoral.Raft.RocksDbStorage.{
  Storage, StorageError, St, append, apply_snapshot, store_hard_state, update_commit,
}
use raftoral.Raft.Node.{
  Env, Node, Step, Ready, LightReady, StateRole, follower, candidate, leader, pre_candidate,
  RoleChange, became_follower, became_candidate, became_leader,
}
use raftoral.Raft.Node.Entries.{apply_committed}
use raftoral.Raft.Node.SnapshotCreation.{maybe_create_snapshot}
use raftoral.Raft.Node.Followers.{check_follower_progress}

abbrev pub same_role : StateRole → StateRole → Bool
same_role follower follower = true
same_role candidate candidate = true
same_role leader leader = true
same_role pre_candidate pre_candidate = true
same_role _ _ = false

-- The change that is announced; the role before an election has none.
abbrev pub role_change : StateRole → Option RoleChange
role_change follower = some became_follower
role_change candidate = some became_candidate
role_change leader = some became_leader
role_change pre_candidate = none

module _ (env : Env) where
  abbrev pub on_store : St env.rocks (Unit {0}) → Step env
  on_store action n =
      let (store, r) = action n.store in
      (record n { store = store }, map_err env.storage_error_text r)

  -- An empty snapshot is `none`. Failures to restore and to store the snapshot are only logged.
  abbrev pub restore_snapshot : Option Snapshot → Node env → Node env
  restore_snapshot none n = n
  restore_snapshot (some snapshot) n =
      let (s, _) = env.machine.restore n.state_machine snapshot.payload in
      let (store, _) = apply_snapshot env.rocks snapshot n.store in
      record n {
        state_machine = s;
        cached_conf_state = snapshot.conf_state;
        last_snapshot_index = snapshot.index;
        store = store;
      }

  abbrev pub append_entries : List Entry → Step env
  append_entries entries n =
      if is_empty entries then (n, ok tt) else on_store (append env.rocks entries) n

  abbrev pub set_hardstate : Option HardState → Step env
  set_hardstate none n = (n, ok tt)
  set_hardstate (some hs) n = on_store (store_hard_state env.rocks hs) n

  abbrev pub announce : StateRole → Option RoleChange → Node env → Node env × Bool
  announce role none n = (n, true)
  announce role (some change) n =
      (record n { current_role = role; role_changes = n.role_changes ++ change ∷ [] }, false)

  -- Whether `on_ready` returns here.
  abbrev pub change_role : Option StateRole → Node env → Node env × Bool
  change_role none n = (n, false)
  change_role (some role) n =
      if same_role role n.current_role then (n, false) else announce role (role_change role) n

  -- A message of raft-rs with the node that it is for.
  abbrev pub send_raft_message : ℕ × env.Message → Step env
  send_raft_message (target_node, msg) n =
      let generic_msg : GenericMessage = record {
        cluster_id = n.cluster_id;
        message = some (raft_message (env.encode_message msg));
      } in
      let (transport, r) = env.send_message target_node generic_msg n.transport in
      (record n { transport = transport }, r)

  abbrev pub send_messages : List (ℕ × env.Message) → Step env
  send_messages [] n = (n, ok tt)
  send_messages (message ∷ messages) n = (send_raft_message message >> send_messages messages) n

  abbrev pub commit_light : Option ℕ → Step env
  commit_light none n = (n, ok tt)
  commit_light (some commit) n = on_store (update_commit env.rocks commit) n

  abbrev pub advance_apply : Step env
  advance_apply n = (record n { raw_node = env.advance_apply n.raw_node n.store }, ok tt)

  abbrev pub on_light_ready : (now : ℕ) → LightReady env.Message → Step env
  on_light_ready now light = do
    commit_light light.commit_index
    send_messages light.messages
    apply_committed env light.committed_entries
    advance_apply
    maybe_create_snapshot env
    check_follower_progress env now

  abbrev pub advance_append : (now : ℕ) → Step env
  advance_append now n =
      let (raw, light) = env.advance_append n.raw_node n.store in
      on_light_ready now light (record n { raw_node = raw })

  abbrev pub after_role : (now : ℕ) → Ready env.Message → Bool → Step env
  after_role now ready true n = (n, ok tt)
  after_role now ready false n =
      (do send_messages ready.messages; send_messages ready.persisted_messages; advance_append now)
        n

  abbrev pub role_and_after : (now : ℕ) → Ready env.Message → Step env
  role_and_after now ready n =
      let (m, returns) = change_role ready.ss n in after_role now ready returns m

  abbrev pub handle_ready : (now : ℕ) → Ready env.Message → Step env
  handle_ready now ready n =
      (do
        apply_committed env ready.committed_entries
        append_entries ready.entries
        set_hardstate ready.hs
        role_and_after now ready)
        (restore_snapshot ready.snapshot n)

  abbrev pub given : (now : ℕ) → Option (env.RawNode × Ready env.Message) → Step env
  given now none n = (n, ok tt)
  given now (some (raw, ready)) n = handle_ready now ready (record n { raw_node = raw })

  unfoldable pub on_ready : (now : ℕ) → Step env
  on_ready now n = given now (env.has_ready n.raw_node n.store) n
