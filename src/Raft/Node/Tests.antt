-- ===== src/Raft/Node/Tests.antt =====
-- The theorems on the node at a node that adds up numbers.
use raftoral.Prelude.{◌-◌, ◌≤◌, ◌<◌, ◌≡◌, refl, ap, [], ◌∷◌, some, arith, map, filter_by}
use raftoral.Prelude.Eq.{codes, nat_eq}
use raftoral.Prelude.HashMap.{get}
use raftoral.Prelude.Result.{ok, err}
use raftoral.Raft.Types.{default_conf_state}
use raftoral.Raft.RocksDbStorage.{apply_snapshot, store_conf_state, store_index, set_first_cache}
use raftoral.Raft.Node.{Env, Node, follower, pre_candidate}
use raftoral.Raft.Node.Entries.{apply_normal, apply_committed}
use raftoral.Raft.Node.Completion.{apply_normal_complete}
use raftoral.Raft.Node.Committed.{
  replica, replay, IsNormal, apply_committed-replay, apply_committed-normal,
}
use raftoral.Raft.Node.SnapshotCreation.{
  maybe_create_snapshot, maybe_create_snapshot-interval, maybe_create_snapshot-wraps,
}
use raftoral.Raft.Node.Followers.{check_peers}
use raftoral.Raft.Node.FailedNodes.{Distinct, has_stalled, check_peers_lem}
use raftoral.Raft.Node.OnReady.{on_ready}
use raftoral.Raft.Types.{ProposeMessage, propose_message}
use raftoral.Raft.Node.Mailbox.{run, received, ticked}
use raftoral.Raft.Node.Mailbox.Failures.{run-refused}
use raftoral.Raft.Node.OnReady.PreVote.{outside, on_ready-pre_candidate}
use raftoral.Raft.Node.Sample.{env, node, entry, round}

apply_normal_complete_example :
    ((apply_normal env (entry 4) node).sent ≡ (70, ok tt) ∷ [])
    × (get 8 (apply_normal env (entry 4) node).pending_proposals ≡ get 8 node.pending_proposals)
apply_normal_complete_example =
    apply_normal_complete env (entry 4) node 7 70 8 (omega arith) refl (unfold get in refl)

apply_committed-normal_example :
    ((apply_committed env (entry 4 ∷ entry 5 ∷ []) node).1 ≡ ok tt)
    × (replica env (apply_committed env (entry 4 ∷ entry 5 ∷ []) node).0
        ≡ replay env (entry 4 ∷ entry 5 ∷ []) (replica env node))
apply_committed-normal_example =
    apply_committed-normal env (entry 4 ∷ entry 5 ∷ []) node (unfold IsNormal in (refl, (refl, tt)))

abbrev after : Node env
after = (apply_committed env (entry 4 ∷ entry 5 ∷ []) node).0

after-ok : apply_committed env (entry 4 ∷ entry 5 ∷ []) node ≡ (after, ok tt)
after-ok =
    ap (λ r. (after, r))
      ((apply_committed-normal env (entry 4 ∷ entry 5 ∷ []) node
        (unfold IsNormal in (refl, (refl, tt)))).0)

apply_committed-replay_example :
    replica env after ≡ replay env (entry 4 ∷ entry 5 ∷ []) (replica env node)
apply_committed-replay_example =
    apply_committed-replay env (entry 4 ∷ entry 5 ∷ []) node after after-ok

abbrev snapped : Node env
snapped = (maybe_create_snapshot env node).0

snapped-ok : maybe_create_snapshot env node ≡ (snapped, ok tt)
unfolding maybe_create_snapshot apply_snapshot store_conf_state store_index set_first_cache
snapped-ok = refl

maybe_create_snapshot-interval_example :
    (snapped.committed_index ≡ 3)
    × (snapped.last_snapshot_index ≤ snapped.committed_index)
    × (snapped.committed_index - snapped.last_snapshot_index < 2)
maybe_create_snapshot-interval_example =
    maybe_create_snapshot-interval env node snapped (10 ∷ []) (omega arith) (omega arith)
      (omega arith) refl snapped-ok

-- A node that restored a snapshot above its committed index.
abbrev restored : Node env
restored = record node { last_snapshot_index = 6 }

abbrev rewound : Node env
rewound = (maybe_create_snapshot env restored).0

rewound-ok : maybe_create_snapshot env restored ≡ (rewound, ok tt)
unfolding maybe_create_snapshot apply_snapshot store_conf_state store_index set_first_cache
rewound-ok = refl

maybe_create_snapshot-wraps_example :
    (rewound.last_snapshot_index ≡ 3) × (rewound.last_snapshot_index < 6)
maybe_create_snapshot-wraps_example =
    maybe_create_snapshot-wraps env restored rewound (10 ∷ []) (omega arith) (omega arith)
      (omega arith) (omega arith) refl rewound-ok

check_peers_lem_example :
    (check_peers 9 5 6 1 ((2, 4) ∷ (3, 6) ∷ []) node.follower_progress).1
    ≡ map (λ q. q.0) (filter_by (has_stalled 9 5 6 1 node.follower_progress) ((2, 4) ∷ (3, 6) ∷ []))
check_peers_lem_example =
    check_peers_lem 9 5 6 1 ((2, 4) ∷ (3, 6) ∷ []) node.follower_progress
      (unfold Distinct in ((refl, tt), (tt, tt)))

on_ready-pre_candidate_example :
    outside env (on_ready env 0 node).0 ≡ record { transport = []; raw_node = 0; role = follower }
on_ready-pre_candidate_example = on_ready-pre_candidate env 0 node 0 round refl refl refl refl

-- A node whose raft-rs refuses every proposal.
abbrev refusing : Env
refusing = record env { raw_propose = λ context payload raw. (raw, err (codes "dropped")) }

abbrev follower_node : Node refusing
follower_node = record {
  node_id = 1;
  cluster_id = 3;
  snapshot_interval = 0;
  failure_detection_timeout = 5;
  raw_node = 0;
  store = record { db = []; first_index_cache = 1; last_index_cache = 0 };
  transport = [];
  state_machine = 10;
  published = [];
  current_role = pre_candidate;
  role_changes = [];
  pending_proposals = [];
  sent = [];
  committed_index = 3;
  last_snapshot_index = 0;
  cached_conf_state = default_conf_state;
  follower_progress = [];
}

abbrev seven : ProposeMessage
seven = record { command_json = 7 ∷ []; sync_id = 9 }

run-refused_example :
    run refusing
      ((received (record { cluster_id = 3; message = some (propose_message seven) }), 4)
        ∷ (ticked, 5)
        ∷ [])
      follower_node
    ≡ (follower_node, err (codes "dropped"))
run-refused_example =
    run-refused refusing [] ((ticked, 5) ∷ []) follower_node follower_node 0 (codes "dropped") 3 4
      seven tt (unfold run in refl) refl
