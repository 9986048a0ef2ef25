-- ===== src/Raft/Node/Sample.antt =====
-- A node that adds up numbers, for the tests.
use raftoral.Prelude.{ℕ, ◌+◌, List, [], ◌∷◌, ◌++◌, none, some}
use raftoral.Prelude.Eq.{Text, codes, nat_eq}
use raftoral.Prelude.Result.{Result, ok, err}
use raftoral.StateMachine.{Bytes, StateMachine}
use raftoral.Raft.Types.{Entry, entry_normal, default_conf_state, GenericMessage}
use raftoral.Raft.Memory.{memory}
use raftoral.Raft.Node.{Env, Node, Ready, follower, pre_candidate}
use raftoral.Raft.Node.Proposals.{u64_to_le_bytes}

abbrev pub sum : StateMachine
sum = record {
  State = ℕ;
  Command = ℕ;
  Event = ℕ;
  Error = Text;
  apply = λ s c. (s + c, ok (c ∷ []));
  snapshot = λ s. ok (s ∷ []);
  restore = λ s bytes. (s, ok tt);
  on_follower_failed = λ s id. (s, []);
}

abbrev pub number : Bytes → Result Text ℕ
number [] = err (codes "empty")
number (n ∷ _) = ok n

-- A round before an election that has a message for node 2.
abbrev pub round : Ready ℕ
round = record {
  snapshot = none;
  committed_entries = [];
  entries = [];
  hs = none;
  ss = some pre_candidate;
  messages = (2, 5) ∷ [];
  persisted_messages = [];
}

-- raft-rs counts its advances, and the transport lists what was sent.
abbrev pub env : Env
env = record {
  machine = sum;
  rocks = memory;
  RawNode = ℕ;
  Message = ℕ;
  Transport = List (ℕ × GenericMessage);
  has_ready = λ raw store. some (raw, round);
  advance_append =
      λ raw store. (raw + 1, record { commit_index = none; messages = []; committed_entries = [] });
  advance_apply = λ raw store. raw + 1;
  raw_propose = λ context payload raw. (raw, ok tt);
  raw_propose_conf_change = λ change raw. (raw, ok tt);
  raw_apply_conf_change = λ raw change. (raw, ok default_conf_state);
  committed = λ raw. 9;
  progress = λ raw. [];
  step = λ message raw. (raw + message, ok tt);
  tick = λ raw. raw + 1;
  campaign = λ raw. (raw, ok tt);
  leader_id = λ raw. 2;
  send_message = λ to message sent. (sent ++ (to, message) ∷ [], ok tt);
  encode_message = λ message. message ∷ [];
  decode_message = number;
  add_peer = λ id address sent. sent;
  remove_peer = λ id sent. sent;
  encode_command = λ n. ok (n ∷ []);
  encode_metadata = λ address. ok address;
  decode_command = number;
  decode_conf_change = λ bytes. err (codes "none");
  decode_metadata = λ bytes. ok bytes;
  error_text = λ e. e;
  storage_error_text = λ e. codes "storage";
}

abbrev pub node : Node env
node = record {
  node_id = 1;
  cluster_id = 3;
  snapshot_interval = 2;
  failure_detection_timeout = 5;
  raw_node = 0;
  store = record { db = []; first_index_cache = 1; last_index_cache = 0 };
  transport = [];
  state_machine = 10;
  published = [];
  current_role = follower;
  role_changes = [];
  pending_proposals = (7, 70) ∷ (8, 80) ∷ [];
  sent = [];
  committed_index = 3;
  last_snapshot_index = 0;
  cached_conf_state = default_conf_state;
  follower_progress = (2, (4, 0)) ∷ [];
}

abbrev pub entry : ℕ → Entry
entry index = record {
  entry_type = entry_normal;
  term = 1;
  index = index;
  payload = index ∷ [];
  context = u64_to_le_bytes 7;
}
