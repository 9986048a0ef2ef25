-- ===== src/Raft/Node/Construction.antt =====
-- node.rs: the configuration of a node and its constructors, and the choice of the storage.
pub mod Voters
use raftoral.Prelude.{ℕ, [], ◌∷◌, Option, none, some, Bool, true}
use raftoral.Prelude.Eq.{Text}
use raftoral.Prelude.Result.{Result, ok, err, ◌>>=◌}
use raftoral.Raft.Types.{ConfState, default_conf_state}
use raftoral.Raft.RocksDbStorage.{Storage, StorageError, open_or_create}
use raftoral.Raft.Node.{Env, Node, follower}

-- Durations are in milliseconds.
pub record RaftNodeConfig : Type 0 where
  pub node_id : ℕ
  pub cluster_id : ℕ
  pub election_tick : ℕ
  pub heartbeat_tick : ℕ
  pub check_quorum : Bool
  pub pre_vote : Bool
  pub tick_interval : ℕ
  pub snapshot_interval : ℕ
  pub failure_detection_timeout : ℕ
  pub storage_path : Option Text

abbrev pub default_config : RaftNodeConfig
default_config = record {
  node_id = 1;
  cluster_id = 0;
  election_tick = 10;
  heartbeat_tick = 3;
  check_quorum = true;
  pre_vote = true;
  tick_interval = 100;
  snapshot_interval = 1000;
  failure_detection_timeout = 30000;
  storage_path = none;
}

-- What raft-rs is configured with.
pub record RaftConfig : Type 0 where
  pub id : ℕ
  pub election_tick : ℕ
  pub heartbeat_tick : ℕ
  pub check_quorum : Bool
  pub pre_vote : Bool

abbrev pub raft_config : RaftNodeConfig → RaftConfig
raft_config config = record {
  id = config.node_id;
  election_tick = config.election_tick;
  heartbeat_tick = config.heartbeat_tick;
  check_quorum = config.check_quorum;
  pre_vote = config.pre_vote;
}

-- What raft-rs and the file system do for a new node: a database is opened at a path, a storage in
-- memory is seen as one over the same database interface.
pub record Startup (env : Env) : Type 0 where
  pub cluster_directory : (storage_path : Text) (cluster_id : ℕ) → Text
  pub open_database : (path : Text) → Result Text env.rocks.Db
  pub mem_storage : ConfState → Storage env.rocks
  pub raw_node_new : RaftConfig → Storage env.rocks → Result Text env.RawNode

module _ {env : Env} (startup : Startup env) where
  abbrev opened :
      Storage env.rocks × Result StorageError (Unit {0}) → Result Text (Storage env.rocks)
  opened (storage, ok a) = ok storage
  opened (storage, err e) = err (env.storage_error_text e)

  abbrev pub open_path : Option Text → RaftNodeConfig → ConfState → Result Text (Storage env.rocks)
  open_path none config conf_state = ok (startup.mem_storage conf_state)
  open_path (some storage_path) config conf_state = do
    db ← startup.open_database (startup.cluster_directory storage_path config.cluster_id)
    opened (open_or_create env.rocks db config.node_id conf_state)

  -- With the feature for persistent storage.
  unfoldable pub create_storage : RaftNodeConfig → ConfState → Result Text (Storage env.rocks)
  create_storage config conf_state = open_path config.storage_path config conf_state

  abbrev pub initial_node :
      RaftNodeConfig
      → env.Transport
      → env.machine.State
      → ConfState
      → Storage env.rocks
      → env.RawNode
      → Node env
  initial_node config transport state_machine conf_state storage raw_node = record {
    node_id = config.node_id;
    cluster_id = config.cluster_id;
    snapshot_interval = config.snapshot_interval;
    failure_detection_timeout = config.failure_detection_timeout;
    raw_node = raw_node;
    store = storage;
    transport = transport;
    state_machine = state_machine;
    published = [];
    current_role = follower;
    role_changes = [];
    pending_proposals = [];
    sent = [];
    committed_index = 0;
    last_snapshot_index = 0;
    cached_conf_state = conf_state;
    follower_progress = [];
  }

  unfoldable pub new_with_conf_state :
      RaftNodeConfig → env.Transport → env.machine.State → ConfState → Result Text (Node env)
  unfolding create_storage
  new_with_conf_state config transport state_machine conf_state = do
    storage ← create_storage config conf_state
    raw_node ← startup.raw_node_new (raft_config config) storage
    ok (initial_node config transport state_machine conf_state storage raw_node)

  unfoldable pub new_multi_node :
      RaftNodeConfig → env.Transport → env.machine.State → Result Text (Node env)
  unfolding new_with_conf_state
  new_multi_node config transport state_machine =
      new_with_conf_state config transport state_machine default_conf_state

  -- The only voter is the node itself.
  unfoldable pub new_single_node :
      RaftNodeConfig → env.Transport → env.machine.State → Result Text (Node env)
  unfolding create_storage
  new_single_node config transport state_machine =
      let conf_state : ConfState = record { voters = config.node_id ∷ []; learners = [] } in
      do
        storage ← create_storage config conf_state
        raw_node ← startup.raw_node_new (raft_config config) storage
        ok (initial_node config transport state_machine conf_state storage raw_node)
