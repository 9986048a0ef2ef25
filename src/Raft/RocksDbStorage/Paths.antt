-- ===== src/Raft/RocksDbStorage/Paths.antt =====
-- rocksdb_storage.rs: the look at a path for the id of the node that has stored its state there.
use raftoral.Prelude.{ℕ, Option, none, some, Bool, true, false, if◌then◌else◌}
use raftoral.Prelude.Eq.{Text}
use raftoral.Prelude.Result.{Result, ok, err}
use raftoral.Raft.RocksDb.{Value, RocksDb, key_node_id}
use raftoral.Raft.RocksDbStorage.{StorageError, as_node_id}

-- The file system, and what RocksDB finds in it.
pub record Paths (rocks : RocksDb) : Type 0 where
  pub path_exists : Text → Bool
  pub open_read_only : Text → Result Text rocks.Db
  pub has_metadata : rocks.Db → Bool

module _ {rocks : RocksDb} (paths : Paths rocks) where
  -- An error of the read counts as no id.
  abbrev stored_id : Result Text (Option Value) → Result StorageError (Option ℕ)
  stored_id (ok value) = as_node_id value
  stored_id (err e) = ok none

  abbrev looked : Result Text rocks.Db → Result StorageError (Option ℕ)
  looked (ok db) =
      if paths.has_metadata db then stored_id (rocks.get_cf key_node_id db) else ok none
  looked (err e) = ok none

  unfoldable pub load_node_id_from_path : Text → Result StorageError (Option ℕ)
  load_node_id_from_path path =
      if paths.path_exists path then looked (paths.open_read_only path) else ok none

  abbrev is_there : Result StorageError (Option ℕ) → Result StorageError Bool
  is_there (ok none) = ok false
  is_there (ok (some node_id)) = ok true
  is_there (err e) = err e

  unfoldable pub storage_exists : Text → Result StorageError Bool
  unfolding load_node_id_from_path
  storage_exists path = is_there (load_node_id_from_path path)
