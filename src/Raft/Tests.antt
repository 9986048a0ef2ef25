-- ===== src/Raft/Tests.antt =====
-- The theorems on the storage at a log of two entries in a database in memory.
use raftoral.Prelude.{◌↔◌, ℕ, ◌≤◌, ◌≡◌, refl, List, [], ◌∷◌, none, some, length, All, arith}
use raftoral.Prelude.HashMap.{get, insert}
use raftoral.Prelude.Result.{ok, err}
use raftoral.Raft.Types.{Entry, entry_normal, default_hard_state, default_conf_state, Snapshot}
use raftoral.Raft.RocksDb.{
  entry_key, key_node_id, key_hard_state, key_conf_state, key_first_index, key_last_index,
  entry_value, number_value, hard_state_value, conf_state_value, snapshot_value, key_snapshot_data,
}
use raftoral.Raft.Memory.{memory}
use raftoral.Raft.RocksDbStorage.{
  Storage, store_node_id, store_hard_state, store_conf_state, store_index, load_index,
  set_first_cache, write_batch, set_last_cache, open_or_create, append, load_entry, unavailable,
  apply_snapshot, load_conf_state, first_index, last_index,
}
use raftoral.Raft.RocksDbStorage.RaftStorage.{entries, term, snapshot}
use raftoral.Raft.RocksDbStorage.Reads.{IsRun, IsLog, IsReply, entries-IsReply}
use raftoral.Raft.RocksDbStorage.Refusals.{IsRefusal, entries-refused}
use raftoral.Raft.RocksDbStorage.Append.{append-IsLog}
use raftoral.Raft.RocksDbStorage.Recovery.{IsPersisted, open_or_create-append}
use raftoral.Raft.RocksDbStorage.Snapshots.{apply_snapshot_lem}

abbrev entry : ℕ → Entry
entry index = record {
  entry_type = entry_normal;
  term = 1;
  index = index;
  payload = [];
  context = [];
}

-- What node 7 has after it opened a new database.
abbrev fresh : Storage memory
fresh = record {
  db =
      (key_node_id, number_value 7)
      ∷ (key_hard_state, hard_state_value default_hard_state)
      ∷ (key_conf_state, conf_state_value default_conf_state)
      ∷ (key_first_index, number_value 1)
      ∷ (key_last_index, number_value 0)
      ∷ [];
  first_index_cache = 1;
  last_index_cache = 0;
}

fresh-open : open_or_create memory [] 7 default_conf_state ≡ (fresh, ok tt)
unfolding open_or_create get store_node_id store_hard_state store_conf_state store_index load_index
    insert set_first_cache set_last_cache
fresh-open = refl

-- And after it appended two entries.
abbrev two : Storage memory
two = record {
  db =
      (key_node_id, number_value 7)
      ∷ (key_hard_state, hard_state_value default_hard_state)
      ∷ (key_conf_state, conf_state_value default_conf_state)
      ∷ (key_first_index, number_value 1)
      ∷ (key_last_index, number_value 2)
      ∷ (entry_key 1, entry_value (entry 1))
      ∷ (entry_key 2, entry_value (entry 2))
      ∷ [];
  first_index_cache = 1;
  last_index_cache = 2;
}

two-append : append memory (entry 1 ∷ entry 2 ∷ []) fresh ≡ (two, ok tt)
unfolding append set_first_cache write_batch set_last_cache insert
two-append = refl

fresh-IsLog : IsLog memory fresh
unfolding IsLog
fresh-IsLog = (omega arith, omega arith, λ i a b. ground arith)

append-IsLog_example :
    IsLog memory two
    × (two.last_index_cache ≡ 2)
    × All (λ x. load_entry memory x.index two ≡ ok (some x)) (entry 1 ∷ entry 2 ∷ [])
append-IsLog_example =
    append-IsLog memory (entry 1) (entry 2 ∷ []) fresh two fresh-IsLog (unfold IsRun in (refl, tt))
      (omega arith) (omega arith) (omega arith) two-append

entries-IsReply_example :
    (es : List Entry) × (entries memory (λ e. 1) 1 3 none two ≡ ok es)
    × IsReply memory two none 1 2 es
    × (1 ≤ length es)
entries-IsReply_example =
    entries-IsReply memory (λ e. 1) two 1 3 none append-IsLog_example.0 (omega arith) (omega arith)
      (omega arith)

entries-refused_example :
    (entries memory (λ e. 1) 1 4 none two ≡ err unavailable) ↔ IsRefusal memory two 1 4 unavailable
entries-refused_example =
    entries-refused memory (λ e. 1) two 1 4 none unavailable append-IsLog_example.0

fresh-IsPersisted : IsPersisted memory 7 fresh
unfolding IsPersisted get
fresh-IsPersisted = ((hard_state_value default_hard_state, refl), refl, refl, refl)

open_or_create-append_example : open_or_create memory two.db 7 default_conf_state ≡ (two, ok tt)
open_or_create-append_example =
    open_or_create-append memory 7 default_conf_state (entry 1 ∷ entry 2 ∷ []) fresh two
      fresh-IsPersisted two-append

abbrev at_one : Snapshot
at_one = record { payload = []; conf_state = default_conf_state; index = 1; term = 1 }

-- The storage after that snapshot.
abbrev cut : Storage memory
cut = record {
  db =
      (key_node_id, number_value 7)
      ∷ (key_hard_state, hard_state_value default_hard_state)
      ∷ (key_conf_state, conf_state_value default_conf_state)
      ∷ (key_first_index, number_value 2)
      ∷ (key_last_index, number_value 2)
      ∷ (entry_key 1, entry_value (entry 1))
      ∷ (entry_key 2, entry_value (entry 2))
      ∷ (key_snapshot_data, snapshot_value at_one)
      ∷ [];
  first_index_cache = 2;
  last_index_cache = 2;
}

cut-apply_snapshot : apply_snapshot memory at_one two ≡ (cut, ok tt)
unfolding apply_snapshot store_conf_state store_index set_first_cache insert
cut-apply_snapshot = refl

apply_snapshot_lem_example :
    (snapshot memory 1 cut ≡ ok at_one)
    × (term memory 1 cut ≡ ok 1)
    × (load_conf_state memory cut ≡ ok default_conf_state)
    × (first_index memory cut ≡ ok 2)
    × (last_index memory cut ≡ last_index memory two)
    × (load_entry memory 2 cut ≡ load_entry memory 2 two)
apply_snapshot_lem_example = apply_snapshot_lem memory at_one two cut 1 2 cut-apply_snapshot

two-IsPersisted : IsPersisted memory 7 two
unfolding IsPersisted get
two-IsPersisted = ((hard_state_value default_hard_state, refl), refl, refl, refl)
