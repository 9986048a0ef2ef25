-- ===== src/Raft/RocksDbStorage.antt =====
-- src/raft/generic/rocksdb_storage.rs: the persistent log, hard state, configuration and snapshot,
-- over a RocksDB database, with the two cached indices.
pub mod RaftStorage
pub mod Writes
pub mod Reads
pub mod Refusals
pub mod Append
pub mod Recovery
pub mod Snapshots
pub mod Paths
use raftoral.Prelude.{
  ℕ, zero, suc, ◌+◌, ◌-◌, ◌%◌, ◌^◌, List, [], ◌∷◌, ◌++◌, Option, none, some, Bool, true, false, not,
  ◌&&◌, if◌then◌else◌, ltb, leb, nat_beq, map,
}
use raftoral.Prelude.Eq.{Text, codes}
use raftoral.Prelude.Result.{Result, ok, err, map_err}
use raftoral.Prelude.Action.{Action, pure, raise, lift, reads, ◌>>=◌, ◌>>◌}
use raftoral.Raft.Types.{
  Entry, HardState, default_hard_state, ConfState, default_conf_state, Snapshot, RaftState,
}
use raftoral.Raft.RocksDb.{
  Key, Value, Batch, RocksDb, entry_key, key_node_id, key_hard_state, key_conf_state,
  key_first_index, key_last_index, key_snapshot_data, entry_value, number_value, hard_state_value,
  conf_state_value, snapshot_value,
}

pub data StorageError : Type 0 where
  compacted unavailable snapshot_temporarily_unavailable : StorageError
  other : Text → StorageError

abbrev pub u64_mod : ℕ
u64_mod = 2 ^ 64

-- What a stored value must be: decoding another kind fails.
abbrev pub as_entry : Option Value → Result StorageError (Option Entry)
as_entry none = ok none
as_entry (some (entry_value e)) = ok (some e)
as_entry (some _) = err (other (codes "decode"))

abbrev pub as_number : ℕ → Option Value → Result StorageError ℕ
as_number default none = ok default
as_number default (some (number_value n)) = ok n
as_number default (some _) = err (other (codes "Invalid index bytes"))

abbrev pub as_node_id : Option Value → Result StorageError (Option ℕ)
as_node_id none = ok none
as_node_id (some (number_value n)) = ok (some n)
as_node_id (some _) = err (other (codes "Invalid node_id size in storage"))

abbrev pub as_hard_state : Option Value → Result StorageError HardState
as_hard_state none = ok default_hard_state
as_hard_state (some (hard_state_value hs)) = ok hs
as_hard_state (some _) = err (other (codes "decode"))

abbrev pub as_conf_state : Option Value → Result StorageError ConfState
as_conf_state none = ok default_conf_state
as_conf_state (some (conf_state_value cs)) = ok cs
as_conf_state (some _) = err (other (codes "decode"))

abbrev pub as_snapshot : Option Value → Result StorageError (Option Snapshot)
as_snapshot none = ok none
as_snapshot (some (snapshot_value snapshot)) = ok (some snapshot)
as_snapshot (some _) = err (other (codes "decode"))

abbrev pub decoded {ℓ} :
    {A : Type ℓ}
    → Result StorageError (Option Value)
    → (Option Value → Result StorageError A)
    → Result StorageError A
decoded (ok value) decode = decode value
decoded (err e) decode = err e

abbrev pub last_of : ℕ → List Entry → ℕ
last_of default [] = default
last_of default (e ∷ es) = last_of e.index es

abbrev pub entry_batch : List Entry → Batch
entry_batch entries = map (λ e. (entry_key e.index, entry_value e)) entries

-- The indices that `append` writes, the first one with the first entries of all.
abbrev pub index_batch : (first_write : Bool) (first_index last_index : ℕ) → Batch
index_batch first_write first_index last_index =
    (key_last_index, number_value last_index)
    ∷ (if first_write then (key_first_index, number_value first_index) ∷ [] else [])

-- A database that says of which node it is must be of this one.
abbrev check_node_id : ℕ → Result StorageError (Option ℕ) → Result StorageError (Unit {0})
check_node_id node_id (ok (some stored)) =
    if nat_beq stored node_id then ok tt else err (other (codes "Node ID mismatch"))
check_node_id node_id (ok none) = ok tt
check_node_id node_id (err e) = ok tt

module _ (rocks : RocksDb) where
  -- The database and the two atomics. The locks order the calls and hold no data.
  pub record Storage : Type 0 where
    pub db : rocks.Db
    pub first_index_cache : ℕ
    pub last_index_cache : ℕ

  abbrev pub St {ℓ} : Type ℓ → Type ℓ
  St A = Action Storage StorageError A

  abbrev read_key : Key → Storage → Result StorageError (Option Value)
  read_key k s = map_err other (rocks.get_cf k s.db)

  abbrev written : Storage → Result Text rocks.Db → Storage × Result StorageError (Unit {0})
  written s (ok d) = (record s { db = d }, ok tt)
  written s (err e) = (s, err (other e))

  unfoldable pub put : Key → Value → St (Unit {0})
  put k v s = written s (rocks.put_cf k v s.db)

  unfoldable pub delete : Key → St (Unit {0})
  delete k s = written s (rocks.delete_cf k s.db)

  unfoldable pub write_batch : Batch → St (Unit {0})
  write_batch batch s = written s (rocks.write batch s.db)

  unfoldable pub store_entry : Entry → St (Unit {0})
  unfolding put
  store_entry entry = put (entry_key entry.index) (entry_value entry)

  unfoldable pub load_entry : ℕ → Storage → Result StorageError (Option Entry)
  load_entry index s = decoded (read_key (entry_key index) s) as_entry

  unfoldable pub store_hard_state : HardState → St (Unit {0})
  unfolding put
  store_hard_state hs = put key_hard_state (hard_state_value hs)

  unfoldable pub load_hard_state : Storage → Result StorageError HardState
  load_hard_state s = decoded (read_key key_hard_state s) as_hard_state

  unfoldable pub store_node_id : ℕ → St (Unit {0})
  unfolding put
  store_node_id node_id = put key_node_id (number_value node_id)

  unfoldable pub load_node_id : Storage → Result StorageError (Option ℕ)
  load_node_id s = decoded (read_key key_node_id s) as_node_id

  unfoldable pub store_conf_state : ConfState → St (Unit {0})
  unfolding put
  store_conf_state cs = put key_conf_state (conf_state_value cs)

  unfoldable pub load_conf_state : Storage → Result StorageError ConfState
  load_conf_state s = decoded (read_key key_conf_state s) as_conf_state

  unfoldable pub store_index : Key → ℕ → St (Unit {0})
  unfolding put
  store_index k value = put k (number_value value)

  unfoldable pub load_index : Key → Storage → Result StorageError ℕ
  load_index k s = decoded (read_key k s) (as_number 0)

  unfoldable pub get_snapshot : Storage → Result StorageError (Option Snapshot)
  get_snapshot s = decoded (read_key key_snapshot_data s) as_snapshot

  unfoldable pub set_first_cache : ℕ → St (Unit {0})
  set_first_cache n s = (record s { first_index_cache = n }, ok tt)

  unfoldable pub set_last_cache : ℕ → St (Unit {0})
  set_last_cache n s = (record s { last_index_cache = n }, ok tt)

  -- A fresh database gets the node's id, the default hard state, the given configuration and the
  -- indices of an empty log. One that is set up must be of the same node, if it says of which.
  abbrev set_up : ℕ → ConfState → Option Value → St (Unit {0})
  set_up node_id conf_state (some _) s = (s, check_node_id node_id (load_node_id s))
  set_up node_id conf_state none s =
      (do
        store_node_id node_id
        store_hard_state default_hard_state
        store_conf_state conf_state
        store_index key_first_index 1
        store_index key_last_index 0)
        s

  unfoldable pub initialize_if_needed : ℕ → ConfState → St (Unit {0})
  initialize_if_needed node_id conf_state = do
    stored ← reads (read_key key_hard_state)
    set_up node_id conf_state stored

  unfoldable pub reload_index_caches : St (Unit {0})
  reload_index_caches = do
    first ← reads (load_index key_first_index)
    last ← reads (load_index key_last_index)
    set_first_cache first
    set_last_cache last

  -- `open_or_create` on an opened database.
  unfoldable pub open_or_create :
      rocks.Db → ℕ → ConfState → Storage × Result StorageError (Unit {0})
  unfolding initialize_if_needed reload_index_caches
  open_or_create db node_id conf_state =
      (initialize_if_needed node_id conf_state >> reload_index_caches)
        (record { db = db; first_index_cache = 0; last_index_cache = 0 })

  -- The cache of the first index is set before the write.
  unfoldable pub append : List Entry → St (Unit {0})
  append [] s = (s, ok tt)
  append (e ∷ es) s =
      let first_write = nat_beq s.last_index_cache 0 in
      let last_index = last_of e.index es in
      (do
        if first_write then set_first_cache e.index else pure tt
        write_batch (entry_batch (e ∷ es) ++ index_batch first_write e.index last_index)
        set_last_cache last_index)
        s

  -- `for idx in first..` of `count` rounds.
  delete_from : ℕ → ℕ → St (Unit {0})
  delete_from zero idx = pure tt
  delete_from (suc count) idx = do delete (entry_key idx); delete_from count (idx + 1)

  unfoldable pub compact : ℕ → St (Unit {0})
  unfolding delete_from
  compact through_index s =
      (do
        delete_from (through_index + 1 - s.first_index_cache) s.first_index_cache
        store_index key_first_index ((through_index + 1) % u64_mod)
        set_first_cache ((through_index + 1) % u64_mod))
        s

  unfoldable pub apply_snapshot : Snapshot → St (Unit {0})
  unfolding put
  apply_snapshot snapshot = do
    put key_snapshot_data (snapshot_value snapshot)
    store_conf_state snapshot.conf_state
    store_index key_first_index ((snapshot.index + 1) % u64_mod)
    set_first_cache ((snapshot.index + 1) % u64_mod)

  unfoldable pub update_commit : ℕ → St (Unit {0})
  update_commit commit = do
    hs ← reads load_hard_state
    store_hard_state (record hs { commit = commit })

  -- `load_hard_state().unwrap_or_default()`
  unfoldable pub hard_state : Storage → HardState
  hard_state s = elim (load_hard_state s) [ ok hs ↦ hs | err e ↦ default_hard_state ]

  unfoldable pub initial_state : Storage → Result StorageError RaftState
  initial_state s = elim (load_hard_state s) [
    | err e ↦ err e
    | ok hs ↦ elim (load_conf_state s) [
      | err e ↦ err e
      | ok cs ↦ ok (record { hard_state = hs; conf_state = cs })
    ]
  ]

  unfoldable pub first_index : Storage → Result StorageError ℕ
  first_index s = ok s.first_index_cache

  unfoldable pub last_index : Storage → Result StorageError ℕ
  last_index s = ok s.last_index_cache
