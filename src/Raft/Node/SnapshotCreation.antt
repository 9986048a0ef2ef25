-- ===== src/Raft/Node/SnapshotCreation.antt =====
-- node.rs, `maybe_create_snapshot`, and the snapshot part of `on_ready`.
use raftoral.Prelude.{
  ℕ, ◌+◌, ◌-◌, ◌%◌, ◌≤◌, ◌<◌, ◌≡◌, sym, ap, Bool, true, false, if◌then◌else◌, arith, nat_beq, ltb,
}
use raftoral.Prelude.Eq.{Text}
use raftoral.Prelude.Result.{Result, ok, err}
use raftoral.StateMachine.{Bytes}
use raftoral.Raft.Types.{Snapshot}
use raftoral.Raft.RocksDbStorage.{Storage, StorageError, u64_mod, hard_state, apply_snapshot}
use raftoral.Raft.Node.{Env, Node, Step}

-- The difference of two `u64`, which wraps in a release build.
abbrev pub u64_sub : ℕ → ℕ → ℕ
u64_sub a b = (a + u64_mod - b) % u64_mod

module _ (env : Env) where
  abbrev pub next_snapshot : Bytes → Node env → Snapshot
  next_snapshot snapshot_data n = record {
    payload = snapshot_data;
    conf_state = n.cached_conf_state;
    index = n.committed_index;
    term = (hard_state env.rocks n.store).term;
  }

  abbrev created :
      Node env
      → Storage env.rocks × Result StorageError (Unit {0})
      → Node env × Result Text (Unit {0})
  created n (store, ok _) =
      (record n { store = store; last_snapshot_index = n.committed_index }, ok tt)
  created n (store, err e) = (record n { store = store }, err (env.storage_error_text e))

  -- A failure of the state machine is only logged.
  abbrev pub create_snapshot : Result env.machine.Error Bytes → Step env
  create_snapshot (err e) n = (n, ok tt)
  create_snapshot (ok bytes) n =
      created n (apply_snapshot env.rocks (next_snapshot bytes n) n.store)

  unfoldable pub maybe_create_snapshot : Step env
  maybe_create_snapshot n =
      if nat_beq n.snapshot_interval 0
      then (n, ok tt)
      else if ltb (u64_sub n.committed_index n.last_snapshot_index) n.snapshot_interval
      then (n, ok tt)
      else create_snapshot (env.machine.snapshot n.state_machine) n

  created_lem :
      (n n' : Node env) (r : Storage env.rocks × Result StorageError (Unit {0}))
      → created n r ≡ (n', ok tt)
      → (n'.committed_index ≡ n.committed_index) × (n'.last_snapshot_index ≡ n.committed_index)
  created_lem n n' (store, ok _) h =
      (sym (ap (λ p. p.0.committed_index) h), sym (ap (λ p. p.0.last_snapshot_index) h))
  created_lem n n' (store, err e) h = ground arith

  create_snapshot_lem :
      (b c : Bool) (n n' : Node env) (bytes : Bytes) (r : Result env.machine.Error Bytes)
      → r ≡ ok bytes
      → (if b then (n, ok tt) else if c then (n, ok tt) else create_snapshot r n) ≡ (n', ok tt)
      → (n'.committed_index ≡ n.committed_index)
        × (n'.last_snapshot_index ≡ (
            if b
            then n.last_snapshot_index
            else if c
            then n.last_snapshot_index
            else n.committed_index))
  create_snapshot_lem true c n n' bytes r e h =
      (sym (ap (λ p. p.0.committed_index) h), sym (ap (λ p. p.0.last_snapshot_index) h))
  create_snapshot_lem false true n n' bytes r e h =
      (sym (ap (λ p. p.0.committed_index) h), sym (ap (λ p. p.0.last_snapshot_index) h))
  create_snapshot_lem false false n n' bytes (ok bytes') e h = created_lem n n' _ h
  create_snapshot_lem false false n n' bytes (err x) e h = ground arith

  -- Where snapshots are enabled, the last one is not above the committed index and the state machine
  -- gives its snapshot, a successful call leaves fewer committed entries since the last snapshot than
  -- the interval, and the last snapshot not above the committed index.
  pub maybe_create_snapshot-interval :
      (n n' : Node env) (bytes : Bytes)
      → 1 ≤ n.snapshot_interval
      → n.last_snapshot_index ≤ n.committed_index
      → n.committed_index < u64_mod
      → env.machine.snapshot n.state_machine ≡ ok bytes
      → maybe_create_snapshot n ≡ (n', ok tt)
      → (n'.committed_index ≡ n.committed_index)
        × (n'.last_snapshot_index ≤ n'.committed_index)
        × (n'.committed_index - n'.last_snapshot_index < n.snapshot_interval)
  unfolding maybe_create_snapshot
  maybe_create_snapshot-interval n n' bytes enabled order room e h =
      let (c, l) =
        create_snapshot_lem (nat_beq n.snapshot_interval 0)
          (ltb (u64_sub n.committed_index n.last_snapshot_index) n.snapshot_interval) n n' bytes _ e
          h in
      (c, ground (arith, c, l), ground (arith, c, l))

  -- Where snapshots are enabled, the last one is above the committed index, their 64-bit difference
  -- wrapped around is at least the interval and the state machine gives its snapshot, a successful call
  -- moves the last snapshot back to the committed index.
  pub maybe_create_snapshot-wraps :
      (n n' : Node env) (bytes : Bytes)
      → 1 ≤ n.snapshot_interval
      → n.committed_index < n.last_snapshot_index
      → n.last_snapshot_index < u64_mod
      → n.snapshot_interval + (n.last_snapshot_index - n.committed_index) ≤ u64_mod
      → env.machine.snapshot n.state_machine ≡ ok bytes
      → maybe_create_snapshot n ≡ (n', ok tt)
      → (n'.last_snapshot_index ≡ n.committed_index)
        × (n'.last_snapshot_index < n.last_snapshot_index)
  unfolding maybe_create_snapshot
  maybe_create_snapshot-wraps n n' bytes enabled order room reached e h =
      let (c, l) =
        create_snapshot_lem (nat_beq n.snapshot_interval 0)
          (ltb (u64_sub n.committed_index n.last_snapshot_index) n.snapshot_interval) n n' bytes _ e
          h in
      (ground (arith, l), ground (arith, l))
