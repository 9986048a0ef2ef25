-- ===== src/Raft/RocksDb.antt =====
-- RocksDB as a parameter: keys in column families, single writes and atomic batches. Every call may
-- fail, and then nothing is written.
use raftoral.Prelude.{
  ℕ, ◌≡◌, ◌↔◌, List, [], ◌∷◌, Option, none, some, Bool, true, ◌&&◌, nat_beq, if◌then◌else◌, arith,
}
use raftoral.Prelude.Eq.{Eq, ◌==◌, Text}
use raftoral.Prelude.Result.{Result, ok}
use raftoral.Raft.Types.{Entry, HardState, ConfState, Snapshot}

-- A column family and a key in it. The key of an entry is the big-endian image of its index.
pub record Key : Type 0 where
  pub family : ℕ
  pub id : ℕ

abbrev pub key_beq : Key → Key → Bool
key_beq a b = nat_beq a.family b.family && nat_beq a.id b.id

pub key_beq_iff : (a b : Key) → (key_beq a b ≡ true) ↔ (a ≡ b)
key_beq_iff a b = (λ h. ground arith, λ h. ground arith)

instance abbrev pub key_eq : Eq Key
key_eq = record { beq = key_beq; beq_iff = key_beq_iff }

abbrev pub entry_key : ℕ → Key
entry_key index = record { family = 0; id = index }

abbrev pub key_node_id : Key
key_node_id = record { family = 1; id = 0 }

abbrev pub key_hard_state : Key
key_hard_state = record { family = 1; id = 1 }

abbrev pub key_conf_state : Key
key_conf_state = record { family = 1; id = 2 }

abbrev pub key_first_index : Key
key_first_index = record { family = 1; id = 3 }

abbrev pub key_last_index : Key
key_last_index = record { family = 1; id = 4 }

abbrev pub key_snapshot_data : Key
key_snapshot_data = record { family = 2; id = 0 }

-- The message that a stored value encodes.
pub data Value : Type 0 where
  entry_value : Entry → Value
  number_value : ℕ → Value
  hard_state_value : HardState → Value
  conf_state_value : ConfState → Value
  snapshot_value : Snapshot → Value

abbrev pub Batch : Type 0
Batch = List (Key × Value)

abbrev pub or_earlier : (later earlier : Option Value) → Option Value
or_earlier none earlier = earlier
or_earlier (some v) earlier = some v

-- What a batch writes under a key: the last of its writes there.
abbrev pub batch_get : Key → Batch → Option Value
batch_get j [] = none
batch_get j ((k, v) ∷ batch) = or_earlier (batch_get j batch) (if k == j then some v else none)

pub record RocksDb : Type 1 where
  pub Db : Type 0
  pub get_cf : Key → Db → Result Text (Option Value)
  pub put_cf : Key → Value → Db → Result Text Db
  pub delete_cf : Key → Db → Result Text Db
  pub write : Batch → Db → Result Text Db
  pub get_cf-put_cf :
      (k j : Key) (v : Value) (d d' : Db)
      → put_cf k v d ≡ ok d'
      → get_cf j d' ≡ (if k == j then ok (some v) else get_cf j d)
  pub get_cf-delete_cf :
      (k j : Key) (d d' : Db)
      → delete_cf k d ≡ ok d'
      → get_cf j d' ≡ (if k == j then ok none else get_cf j d)
  pub get_cf-write :
      (batch : Batch) (j : Key) (d d' : Db)
      → write batch d ≡ ok d'
      → get_cf j d' ≡ (elim (batch_get j batch) [ none ↦ get_cf j d | some v ↦ ok (some v) ])
