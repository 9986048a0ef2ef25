-- ===== src/Raft/RocksDbStorage/RaftStorage.antt =====
-- src/raft/generic/rocksdb_storage.rs, the part that raft-rs calls: ranges of entries, terms and the
-- snapshot.
use raftoral.Prelude.{
  ℕ, zero, suc, ◌+◌, ◌-◌, ◌%◌, List, [], ◌∷◌, Option, none, some, Bool, false, ◌&&◌, if◌then◌else◌,
  ltb, leb, nat_beq,
}
use raftoral.Prelude.Result.{Result, ok, err, ◌>>=◌}
use raftoral.Raft.Types.{Entry, Snapshot}
use raftoral.Raft.RocksDb.{RocksDb}
use raftoral.Raft.RocksDbStorage.{
  StorageError, compacted, unavailable, snapshot_temporarily_unavailable, u64_mod, Storage,
  load_entry, get_snapshot,
}

abbrev pub ok_cons : Entry → Result StorageError (List Entry) → Result StorageError (List Entry)
ok_cons entry (ok es) = ok (entry ∷ es)
ok_cons entry (err e) = err e

-- What a read that must find an entry goes on with.
abbrev pub found {ℓ} :
    {A : Type ℓ}
    → Result StorageError (Option Entry)
    → (Entry → Result StorageError A)
    → Result StorageError A
found (err e) next = err e
found (ok none) next = err unavailable
found (ok (some entry)) next = next entry

abbrev pub exceeds : Option ℕ → ℕ → ℕ → Bool
exceeds none total size = false
exceeds (some max) total size = ltb 0 total && ltb max ((total + size) % u64_mod)

module _ (rocks : RocksDb) where
  -- `for idx in low..high` of `count` rounds, with the size of the entries before.
  abbrev pub collect :
      (encoded_len : Entry → ℕ) (max_size : Option ℕ) (count idx total_size : ℕ)
      → Storage rocks
      → Result StorageError (List Entry)
  collect encoded_len max_size zero idx total_size s = ok []
  collect encoded_len max_size (suc count) idx total_size s =
      found (load_entry rocks idx s) (λ entry.
        let size = encoded_len entry in
        let rest = collect encoded_len max_size count (idx + 1) ((total_size + size) % u64_mod) s in
        if exceeds max_size total_size size then ok [] else ok_cons entry rest)

  unfoldable pub entries :
      (encoded_len : Entry → ℕ) (low high : ℕ) (max_size : Option ℕ)
      → Storage rocks
      → Result StorageError (List Entry)
  entries encoded_len low high max_size s =
      if leb high low
      then ok []
      else if ltb low s.first_index_cache
      then err compacted
      else if ltb ((s.last_index_cache + 1) % u64_mod) high
      then err unavailable
      else collect encoded_len max_size (high - low) low 0 s

  -- The snapshot has the term at its index; without one the term at 0 is 0.
  abbrev pub snapshot_term : ℕ → Option Snapshot → Option ℕ
  snapshot_term idx none = if nat_beq idx 0 then some 0 else none
  snapshot_term idx (some snapshot) =
      if nat_beq idx snapshot.index then some snapshot.term else none

  abbrev pub or_log : Option ℕ → Result StorageError ℕ → Result StorageError ℕ
  or_log (some t) in_log = ok t
  or_log none in_log = in_log

  abbrev pub log_term : ℕ → Storage rocks → Result StorageError ℕ
  log_term idx s =
      if ltb idx s.first_index_cache
      then err compacted
      else if ltb s.last_index_cache idx
      then err unavailable
      else found (load_entry rocks idx s) (λ entry. ok entry.term)

  unfoldable pub term : ℕ → Storage rocks → Result StorageError ℕ
  term idx s = get_snapshot rocks s >>= λ stored. or_log (snapshot_term idx stored) (log_term idx s)

  abbrev pub answer : ℕ → Option Snapshot → Result StorageError Snapshot
  answer request_index none = err snapshot_temporarily_unavailable
  answer request_index (some stored) =
      if ltb stored.index request_index then err snapshot_temporarily_unavailable else ok stored

  unfoldable pub snapshot : ℕ → Storage rocks → Result StorageError Snapshot
  snapshot request_index s = get_snapshot rocks s >>= answer request_index
