-- ===== src/Raft/RocksDbStorage/Writes.antt =====
-- rocksdb_storage.rs: what one successful write changes, and sequences of writes.
use raftoral.Prelude.{
  ◌≡◌, refl, sym, ap, ◌∙◌, Option, none, some, Bool, true, false, arith, if◌then◌else◌,
}
use raftoral.Prelude.Eq.{Text, ◌==◌}
use raftoral.Prelude.Result.{Result, ok, err}
use raftoral.Prelude.Action.{Action, continue, ◌>>=◌}
use raftoral.Raft.RocksDb.{Key, key_eq, Value, Batch, batch_get, RocksDb}
use raftoral.Raft.RocksDbStorage.{Storage, written, put, delete, write_batch}

module _ {ℓ κ μ ν} {S : Type ℓ} {E : Type κ} {A : Type μ} {B : Type ν} where
  steps_of :
      (m : Action S E A) (f : A → Action S E B) (s s' : S) (b : B) (t : S) (r : Result E A)
      → m s ≡ (t, r)
      → continue t r f ≡ (s', ok b)
      → (t : S) × (a : A) × (m s ≡ (t, ok a)) × (f a t ≡ (s', ok b))
  steps_of m f s s' b t (ok a) e h = (t, a, e, h)
  steps_of m f s s' b t (err x) e h = ground arith

  -- A sequence that succeeds is two steps that do.
  pub steps :
      (m : Action S E A) (f : A → Action S E B) (s s' : S) (b : B)
      → (m >>= f) s ≡ (s', ok b)
      → (t : S) × (a : A) × (m s ≡ (t, ok a)) × (f a t ≡ (s', ok b))
  steps m f s s' b h = steps_of m f s s' b (m s).0 (m s).1 refl h

abbrev pub or_else : Option (Option Value) → Result Text (Option Value) → Result Text (Option Value)
or_else none before = before
or_else (some v) before = ok v

-- A batch deletes nothing.
abbrev pub put_value : Option Value → Option (Option Value)
put_value none = none
put_value (some v) = some (some v)

or_else-put_value :
    (written : Option Value) (before : Result Text (Option Value))
    → (elim written [ none ↦ before | some v ↦ ok (some v) ]) ≡ or_else (put_value written) before
or_else-put_value none before = refl
or_else-put_value (some v) before = refl

or_else-if :
    (b : Bool) (v : Option Value) (before : Result Text (Option Value))
    → (if b then ok v else before) ≡ or_else (if b then some v else none) before
or_else-if true v before = refl
or_else-if false v before = refl

module _ (rocks : RocksDb) where
  written-ok :
      (s s' : Storage rocks) (r : Result Text rocks.Db)
      → written rocks s r ≡ (s', ok tt)
      → (d : rocks.Db) × (r ≡ ok d) × (s' ≡ record s { db = d })
  written-ok s s' (ok d) h = (d, refl, sym (ap (λ p. p.0) h))
  written-ok s s' (err e) h = ground arith

  -- A successful write leaves the indices and puts `value` under the keys where it is one.
  unfoldable pub IsWrite : (Key → Option (Option Value)) → Storage rocks → Storage rocks → Type 0
  IsWrite value s s' =
      (s'.first_index_cache ≡ s.first_index_cache)
      × (s'.last_index_cache ≡ s.last_index_cache)
      × ((j : Key) → rocks.get_cf j s'.db ≡ or_else (value j) (rocks.get_cf j s.db))

  written-IsWrite :
      (value : Key → Option (Option Value)) (s s' : Storage rocks) (r : Result Text rocks.Db)
      → ((d : rocks.Db) (j : Key)
          → r ≡ ok d
          → rocks.get_cf j d ≡ or_else (value j) (rocks.get_cf j s.db))
      → written rocks s r ≡ (s', ok tt)
      → IsWrite value s s'
  unfolding IsWrite
  written-IsWrite value s s' r law h =
      let (d, e, q) = written-ok s s' r h in
      (
        ap (λ t. t.first_index_cache) q,
        ap (λ t. t.last_index_cache) q,
        λ j. ap (λ t. rocks.get_cf j t.db) q ∙ law d j e,
      )

  pub put-IsWrite :
      (k : Key) (v : Value) (s s' : Storage rocks)
      → put rocks k v s ≡ (s', ok tt)
      → IsWrite (λ j. if k == j then some (some v) else none) s s'
  unfolding put
  put-IsWrite k v s s' =
      written-IsWrite _ s s' _
        (λ d j e. rocks.get_cf-put_cf k j v s.db d e ∙ or_else-if (k == j) (some v) _)

  pub delete-IsWrite :
      (k : Key) (s s' : Storage rocks)
      → delete rocks k s ≡ (s', ok tt)
      → IsWrite (λ j. if k == j then some none else none) s s'
  unfolding delete
  delete-IsWrite k s s' =
      written-IsWrite _ s s' _
        (λ d j e. rocks.get_cf-delete_cf k j s.db d e ∙ or_else-if (k == j) none _)

  pub write_batch-IsWrite :
      (batch : Batch) (s s' : Storage rocks)
      → write_batch rocks batch s ≡ (s', ok tt)
      → IsWrite (λ j. put_value (batch_get j batch)) s s'
  unfolding write_batch
  write_batch-IsWrite batch s s' =
      written-IsWrite _ s s' _
        (λ d j e. rocks.get_cf-write batch j s.db d e ∙ or_else-put_value (batch_get j batch) _)
