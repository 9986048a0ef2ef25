-- ===== src/Raft/RocksDbStorage/Recovery.antt =====
-- rocksdb_storage.rs: what is in memory after a successful write is what reopening the database
-- gives back.
use raftoral.Prelude.{
  ℕ, ◌≡◌, refl, sym, ap, subst, ◌∙◌, List, [], ◌∷◌, ◌++◌, Option, none, some, Bool, true, false,
  if◌then◌else◌, nat_beq, nat_beq_iff,
}
use raftoral.Prelude.Result.{ok}
use raftoral.Prelude.Action.{continue}
use raftoral.Raft.Types.{Entry, ConfState}
use raftoral.Raft.RocksDb.{
  Key, key_eq, Value, number_value, Batch, batch_get, or_earlier, RocksDb, key_first_index,
  key_last_index, key_hard_state, key_node_id,
}
use raftoral.Raft.RocksDbStorage.{
  Storage, load_index, load_node_id, append, index_batch, last_of, entry_batch, open_or_create,
  initialize_if_needed, reload_index_caches, set_first_cache, set_last_cache,
}
use raftoral.Raft.RocksDbStorage.Writes.{put_value, or_else}
use raftoral.Raft.RocksDbStorage.Append.{append-IsWrite}

or_earlier-none : (later : Option Value) → or_earlier later none ≡ later
or_earlier-none none = refl
or_earlier-none (some v) = refl

-- The entries of a batch change no metadata.
batch-metadata :
    (k : Key) (es : List Entry) (suffix : Batch)
    → nat_beq 0 k.family ≡ false
    → batch_get k (entry_batch es ++ suffix) ≡ batch_get k suffix
batch-metadata k [] suffix h = refl
batch-metadata k (e ∷ es) suffix h =
    rw (batch-metadata k es suffix h, h) (or_earlier-none (batch_get k suffix))

module _ (rocks : RocksDb) where
  -- The database is set up for the node and has the indices of the caches.
  unfoldable pub IsPersisted : ℕ → Storage rocks → Type 0
  IsPersisted node_id s =
      ((v : Value) × (rocks.get_cf key_hard_state s.db ≡ ok (some v)))
      × (rocks.get_cf key_node_id s.db ≡ ok (some (number_value node_id)))
      × (rocks.get_cf key_first_index s.db ≡ ok (some (number_value s.first_index_cache)))
      × (rocks.get_cf key_last_index s.db ≡ ok (some (number_value s.last_index_cache)))

  initialize_if_needed-IsPersisted :
      (node_id : ℕ) (conf_state : ConfState) (s : Storage rocks)
      → (v : Value) → rocks.get_cf key_hard_state s.db ≡ ok (some v)
      → rocks.get_cf key_node_id s.db ≡ ok (some (number_value node_id))
      → initialize_if_needed rocks node_id conf_state s ≡ (s, ok tt)
  unfolding initialize_if_needed load_node_id
  initialize_if_needed-IsPersisted node_id conf_state s v hard node =
      rw (hard, node, (nat_beq_iff node_id node_id).1 refl) refl

  reload_index_caches-IsPersisted :
      (s : Storage rocks) (m n : ℕ)
      → rocks.get_cf key_first_index s.db ≡ ok (some (number_value m))
      → rocks.get_cf key_last_index s.db ≡ ok (some (number_value n))
      → reload_index_caches rocks s
        ≡ (record { db = s.db; first_index_cache = m; last_index_cache = n }, ok tt)
  unfolding reload_index_caches load_index set_first_cache set_last_cache
  reload_index_caches-IsPersisted s m n first last = rw (first, last) refl

  -- Reopening a database that is set up for the node, with any configuration, gives the storage back.
  pub open_or_create-IsPersisted :
      (node_id : ℕ) (conf_state : ConfState) (s : Storage rocks)
      → IsPersisted node_id s
      → open_or_create rocks s.db node_id conf_state ≡ (s, ok tt)
  unfolding IsPersisted open_or_create
  open_or_create-IsPersisted node_id conf_state s ((v, hard), node, first, last) =
      let fresh : Storage rocks = record {
        db = s.db;
        first_index_cache = 0;
        last_index_cache = 0;
      } in
      ap (λ p. continue p.0 p.1 (λ _. reload_index_caches rocks))
        (initialize_if_needed-IsPersisted node_id conf_state fresh v hard node)
      ∙ reload_index_caches-IsPersisted fresh s.first_index_cache s.last_index_cache first last

  IsPersisted-index_batch :
      (node_id : ℕ) (b : Bool) (m n : ℕ) (s s' : Storage rocks)
      → IsPersisted node_id s
      → s'.first_index_cache ≡ (if b then m else s.first_index_cache)
      → s'.last_index_cache ≡ n
      → ((k : Key)
          → nat_beq 0 k.family ≡ false
          → rocks.get_cf k s'.db
            ≡ or_else (put_value (batch_get k (index_batch b m n))) (rocks.get_cf k s.db))
      → IsPersisted node_id s'
  unfolding IsPersisted
  IsPersisted-index_batch node_id true m n s s' ((v, hard), node, first, last) f l w = (
    (v, w key_hard_state refl ∙ hard),
    w key_node_id refl ∙ node,
    w key_first_index refl ∙ ap (λ i. ok (some (number_value i))) (sym f),
    w key_last_index refl ∙ ap (λ i. ok (some (number_value i))) (sym l),
  )
  IsPersisted-index_batch node_id false m n s s' ((v, hard), node, first, last) f l w = (
    (v, w key_hard_state refl ∙ hard),
    w key_node_id refl ∙ node,
    w key_first_index refl ∙ first ∙ ap (λ i. ok (some (number_value i))) (sym f),
    w key_last_index refl ∙ ap (λ i. ok (some (number_value i))) (sym l),
  )

  append-IsPersisted :
      (node_id : ℕ) (es : List Entry) (s s' : Storage rocks)
      → IsPersisted node_id s
      → append rocks es s ≡ (s', ok tt)
      → IsPersisted node_id s'
  unfolding append
  append-IsPersisted node_id [] s s' p h = subst (IsPersisted node_id) (ap (λ q. q.0) h) p
  append-IsPersisted node_id (e ∷ es) s s' p h =
      let (first, last, w) = append-IsWrite rocks e es s s' h in
      IsPersisted-index_batch node_id _ e.index (last_of e.index es) s s' p first last
        (λ k metadata.
          w k
          ∙ ap (λ o. or_else (put_value o) (rocks.get_cf k s.db))
              (batch-metadata k (e ∷ es) _ metadata))

  -- What a successful `append` has done is there after a restart: reopening its database, with any
  -- configuration, gives the same storage.
  pub open_or_create-append :
      (node_id : ℕ) (conf_state : ConfState) (es : List Entry) (s s' : Storage rocks)
      → IsPersisted node_id s
      → append rocks es s ≡ (s', ok tt)
      → open_or_create rocks s'.db node_id conf_state ≡ (s', ok tt)
  open_or_create-append node_id conf_state es s s' p h =
      open_or_create-IsPersisted node_id conf_state s' (append-IsPersisted node_id es s s' p h)
