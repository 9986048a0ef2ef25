-- ===== src/Raft/Node/Followers.antt =====
-- node.rs, `check_follower_progress`: which followers have stopped to make progress.
use raftoral.Prelude.{
  ℕ, ◌-◌, List, [], ◌∷◌, Option, none, some, Bool, true, false, if◌then◌else◌, is_empty, nat_beq,
  leb, ltb,
}
use raftoral.Prelude.Eq.{nat_eq}
use raftoral.Prelude.HashMap.{HashMap, get, insert, remove}
use raftoral.Prelude.Result.{ok}
use raftoral.Raft.Node.{StateRole, leader, Env, Node, Step, publish_batch}

-- The last matched index of each follower, with the time at which it was seen.
abbrev pub Progress : Type 0
Progress = HashMap ℕ (ℕ × ℕ)

-- A follower that lags: whether it made progress, and if not whether the timeout has passed.
abbrev pub lagging : (now timeout matched : ℕ) → Option (ℕ × ℕ) → Bool × Bool
lagging now timeout matched none = (true, false)
lagging now timeout matched (some (last_matched, last_update)) =
    if ltb last_matched matched then (true, false) else (false, ltb timeout (now - last_update))

-- One peer of the leader: whether its progress is recorded, and whether it has failed.
abbrev pub judge : (now timeout commit_index matched : ℕ) → Option (ℕ × ℕ) → Bool × Bool
judge now timeout commit_index matched seen =
    if leb commit_index matched then (true, false) else lagging now timeout matched seen

abbrev pub next_progress : (mine recorded : Bool) → ℕ → ℕ × ℕ → Progress → Progress
next_progress mine recorded peer seen progress =
    if mine then progress else if recorded then insert peer seen progress else progress

-- The round over the peers: the failed ones, and the progress that is recorded.
unfoldable pub check_peers :
    (now timeout commit_index node_id : ℕ) → HashMap ℕ ℕ → Progress → Progress × List ℕ
check_peers now timeout commit_index node_id [] progress = (progress, [])
check_peers now timeout commit_index node_id ((peer, matched) ∷ prs) progress =
    let (recorded, failed) = judge now timeout commit_index matched (get peer progress) in
    let mine = nat_beq peer node_id in
    let (final, rest) =
      check_peers now timeout commit_index node_id prs
        (next_progress mine recorded peer (matched, now) progress) in
    (final, if mine then rest else if failed then peer ∷ rest else rest)

module _ (env : Env) where
  abbrev followed : ℕ → env.machine.State × List env.machine.Event → Node env → Node env
  followed peer (s, events) n =
      let m : Node env = record n { state_machine = s } in
      let published = if is_empty events then m else publish_batch env events m in
      record published { follower_progress = remove peer published.follower_progress }

  -- The state machine says what a failure means; the follower is no longer tracked.
  unfoldable pub handle_failed : List ℕ → Node env → Node env
  handle_failed [] n = n
  handle_failed (peer ∷ peers) n =
      handle_failed peers (followed peer (env.machine.on_follower_failed n.state_machine peer) n)

  abbrev is_leader_role : StateRole → Bool
  is_leader_role leader = true
  is_leader_role _ = false

  unfoldable pub check_follower_progress : (now : ℕ) → Step env
  unfolding check_peers handle_failed
  check_follower_progress now n =
      if nat_beq n.failure_detection_timeout 0
      then (n, ok tt)
      else if is_leader_role n.current_role
      then (let (progress, failed) =
            check_peers now n.failure_detection_timeout (env.committed n.raw_node) n.node_id
              (env.progress n.raw_node) n.follower_progress in
          (handle_failed failed (record n { follower_progress = progress }), ok tt))
      else (n, ok tt)
