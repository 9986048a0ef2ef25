-- ===== src/Raft/RocksDbStorage/Snapshots.antt =====
-- rocksdb_storage.rs, `apply_snapshot`: what is read back after it.
use raftoral.Prelude.{
  ℕ, Bool, true, false, ◌+◌, ◌%◌, ◌≡◌, refl, sym, ap, ◌∙◌, Option, none, some, if◌then◌else◌,
  nat_beq_iff, ltb,
}
use raftoral.Prelude.Eq.{Text, ◌==◌}
use raftoral.Prelude.Result.{Result, ok, err, map_err}
use raftoral.Prelude.Action.{◌>>◌}
use raftoral.Raft.Types.{ConfState, Snapshot}
use raftoral.Raft.RocksDb.{
  Key, key_eq, key_hard_state, key_node_id, key_last_index, Value, number_value, conf_state_value,
  snapshot_value, RocksDb, key_first_index, key_conf_state, key_snapshot_data, entry_key,
}
use raftoral.Raft.RocksDbStorage.{
  snapshot_temporarily_unavailable, other, decoded, as_entry, open_or_create, Storage, put,
  store_index, store_conf_state, set_first_cache, apply_snapshot, get_snapshot, load_conf_state,
  load_entry, u64_mod, first_index, last_index,
}
use raftoral.Raft.RocksDbStorage.RaftStorage.{term, snapshot}
use raftoral.Raft.RocksDbStorage.Writes.{IsWrite, put-IsWrite, steps, or_else}
use raftoral.Raft.RocksDbStorage.Recovery.{IsPersisted, open_or_create-IsPersisted}

or_else_if :
    {held before before' : Result Text (Option Value)} (b : Bool) (v : Option Value)
    → held ≡ or_else (if b then some v else none) before
    → before ≡ before'
    → held ≡ (if b then ok v else before')
or_else_if true v h k = h
or_else_if false v h k = h ∙ k

module _ (rocks : RocksDb) where
  -- Where `apply_snapshot` succeeds: the indices and the contents of every key.
  apply_snapshot-IsWrite :
      (snap : Snapshot) (s s' : Storage rocks)
      → apply_snapshot rocks snap s ≡ (s', ok tt)
      → (s'.first_index_cache ≡ (snap.index + 1) % u64_mod)
        × (s'.last_index_cache ≡ s.last_index_cache)
        × ((j : Key)
            → rocks.get_cf j s'.db ≡ (
                if key_first_index == j
                then ok (some (number_value ((snap.index + 1) % u64_mod)))
                else if key_conf_state == j
                then ok (some (conf_state_value snap.conf_state))
                else if key_snapshot_data == j
                then ok (some (snapshot_value snap))
                else rocks.get_cf j s.db))
  unfolding apply_snapshot store_conf_state store_index IsWrite set_first_cache
  apply_snapshot-IsWrite snap s s' h =
      let first = (snap.index + 1) % u64_mod in
      let (t, _, h1, k1) =
        steps (put rocks key_snapshot_data (snapshot_value snap))
          (λ _.
            store_conf_state rocks snap.conf_state
            >> (store_index rocks key_first_index first >> set_first_cache rocks first))
          s s' tt h in
      let (u, _, h2, k2) =
        steps (put rocks key_conf_state (conf_state_value snap.conf_state))
          (λ _. store_index rocks key_first_index first >> set_first_cache rocks first) t s' tt
          k1 in
      let (v, _, h3, k3) =
        steps (put rocks key_first_index (number_value first)) (λ _. set_first_cache rocks first) u
          s' tt k2 in
      let (_, l1, w1) = put-IsWrite rocks key_snapshot_data _ s t h1 in
      let (_, l2, w2) = put-IsWrite rocks key_conf_state _ t u h2 in
      let (_, l3, w3) = put-IsWrite rocks key_first_index _ u v h3 in
      (
        sym (ap (λ p. p.0.first_index_cache) k3),
        sym (ap (λ p. p.0.last_index_cache) k3) ∙ l3 ∙ l2 ∙ l1,
        λ j.
            sym (ap (λ p. rocks.get_cf j p.0.db) k3)
            ∙ or_else_if (key_first_index == j) (some (number_value first)) (w3 j) (
                or_else_if (key_conf_state == j) (some (conf_state_value snap.conf_state)) (w2 j)
                  (or_else_if (key_snapshot_data == j) (some (snapshot_value snap)) (w1 j) refl)),
      )

  -- After `apply_snapshot` the snapshot is what `snapshot` answers with, up to its index, its term is
  -- the term at its index, its configuration is the one of the log, and the log starts directly after
  -- it. The last index and the entries are the ones before.
  pub apply_snapshot_lem :
      (snap : Snapshot) (s s' : Storage rocks) (request_index i : ℕ)
      → apply_snapshot rocks snap s ≡ (s', ok tt)
      → (snapshot rocks request_index s' ≡ (
          if ltb snap.index request_index then err snapshot_temporarily_unavailable else ok snap))
        × (term rocks snap.index s' ≡ ok snap.term)
        × (load_conf_state rocks s' ≡ ok snap.conf_state)
        × (first_index rocks s' ≡ ok ((snap.index + 1) % u64_mod))
        × (last_index rocks s' ≡ last_index rocks s)
        × (load_entry rocks i s' ≡ load_entry rocks i s)
  unfolding snapshot term get_snapshot load_conf_state first_index last_index load_entry
  apply_snapshot_lem snap s s' request_index i h =
      let (first, last, w) = apply_snapshot-IsWrite snap s s' h in
      (
        rw (w key_snapshot_data) refl,
        rw (w key_snapshot_data, (nat_beq_iff snap.index snap.index).1 refl) refl,
        rw (w key_conf_state) refl,
        ap ok first,
        ap ok last,
        ap (λ r. decoded (map_err other r) as_entry) (w (entry_key i)),
      )

  -- What a successful `apply_snapshot` has done is there after a restart: reopening its database,
  -- with any configuration, gives the same storage.
  pub open_or_create-apply_snapshot :
      (node_id : ℕ) (conf_state : ConfState) (snap : Snapshot) (s s' : Storage rocks)
      → IsPersisted rocks node_id s
      → apply_snapshot rocks snap s ≡ (s', ok tt)
      → open_or_create rocks s'.db node_id conf_state ≡ (s', ok tt)
  unfolding IsPersisted
  open_or_create-apply_snapshot node_id conf_state snap s s' ((v, hard), node, first, last) h =
      let (first', last', w) = apply_snapshot-IsWrite snap s s' h in
      open_or_create-IsPersisted rocks node_id conf_state s' (
        (v, w key_hard_state ∙ hard),
        w key_node_id ∙ node,
        w key_first_index ∙ ap (λ n. ok (some (number_value n))) (sym first'),
        w key_last_index ∙ last ∙ ap (λ n. ok (some (number_value n))) (sym last'),
      )
