-- ===== src/Raft/RocksDbStorage/Append.antt =====
-- rocksdb_storage.rs, `append`: it keeps a log without gaps, and what it wrote is read back.
use raftoral.Prelude.{
  ℕ, ◌+◌, ◌≤◌, ◌<◌, ◌≡◌, refl, sym, ap, subst, ◌∙◌, inl, inr, List, [], ◌∷◌, ◌++◌, none, some, Bool,
  true, false, if◌then◌else◌, arith, length, All, All-map, Bool-cases, nat_beq, ltb, ltb→lt,
}
use raftoral.Prelude.Action.{pure, ◌>>◌}
use raftoral.Prelude.Result.{ok, map_err}
use raftoral.Raft.Types.{Entry}
use raftoral.Raft.RocksDb.{Key, key_eq, entry_value, Batch, batch_get, RocksDb, entry_key}
use raftoral.Raft.RocksDbStorage.{
  Storage, other, decoded, as_entry, load_entry, append, index_batch, last_of, entry_batch, u64_mod,
  set_first_cache, set_last_cache, write_batch,
}
use raftoral.Raft.RocksDbStorage.Writes.{IsWrite, write_batch-IsWrite, steps, put_value, or_else}
use raftoral.Raft.RocksDbStorage.Reads.{IsRun, IsStored, IsLog}

last_of_lem :
    (default : ℕ) (es : List Entry)
    → IsRun (default + 1) es
    → last_of default es ≡ default + length es
unfolding IsRun
last_of_lem default [] h = omega arith
last_of_lem default (e ∷ es) h =
    omega (arith, h.0, last_of_lem e.index es (subst (λ n. IsRun (n + 1) es) (sym h.0) h.1))

run-at {κ} :
    (P : Entry → Type κ) (idx i : ℕ) (es : List Entry)
    → IsRun idx es
    → All P es
    → idx ≤ i
    → i < idx + length es
    → (e : Entry) × (e.index ≡ i) × P e
unfolding IsRun
run-at P idx i [] r h lo hi = ground arith
run-at P idx i (e ∷ es) r h lo hi = elim (Bool-cases (nat_beq idx i)) [
  | inl b ↦ (e, ground arith, h.0)
  | inr b ↦ run-at P (idx + 1) i es r.1 h.1 (ground arith) (omega arith)
]

batch-below :
    (idx i : ℕ) (es : List Entry) (suffix : Batch)
    → IsRun idx es
    → i < idx
    → batch_get (entry_key i) suffix ≡ none
    → batch_get (entry_key i) (entry_batch es ++ suffix) ≡ none
unfolding IsRun
batch-below idx i [] suffix r lo h = h
batch-below idx i (e ∷ es) suffix r lo h =
    rw (batch-below (idx + 1) i es suffix r.1 (omega arith) h) (ground arith)

batch-run :
    (idx : ℕ) (es : List Entry) (suffix : Batch)
    → IsRun idx es
    → ((i : ℕ) → batch_get (entry_key i) suffix ≡ none)
    → All (λ e. batch_get (entry_key e.index) (entry_batch es ++ suffix) ≡ some (entry_value e)) es
unfolding IsRun
batch-run idx [] suffix r h = tt
batch-run idx (e ∷ es) suffix r h = (
  rw (batch-below (idx + 1) e.index es suffix r.1 (omega arith) (h e.index)) (ground arith),
  All-map _ _ (λ x k. rw k refl) es (batch-run (idx + 1) es suffix r.1 h),
)

batch-index : (b : Bool) (m n i : ℕ) → batch_get (entry_key i) (index_batch b m n) ≡ none
batch-index true m n i = refl
batch-index false m n i = refl

first_bounds :
    (b : Bool) (start first first' : ℕ)
    → first' ≡ (if b then start else first)
    → first ≤ start
    → (first ≤ first') × (first' ≤ start)
first_bounds true start first first' h lo = (omega (arith, h), omega (arith, h))
first_bounds false start first first' h lo = (omega (arith, h), omega (arith, h))

module _ (rocks : RocksDb) where
  set_first_cache-if :
      (b : Bool) (n : ℕ) (s t : Storage rocks) (r : Unit)
      → (if b then set_first_cache rocks n else pure tt) s ≡ (t, ok r)
      → (t.first_index_cache ≡ (if b then n else s.first_index_cache)) × (t.db ≡ s.db)
  unfolding set_first_cache
  set_first_cache-if true n s t r h =
      (sym (ap (λ p. p.0.first_index_cache) h), sym (ap (λ p. p.0.db) h))
  set_first_cache-if false n s t r h =
      (sym (ap (λ p. p.0.first_index_cache) h), sym (ap (λ p. p.0.db) h))

  -- Where `append` succeeds: the new indices and the contents of every key.
  pub append-IsWrite :
      (e : Entry) (es : List Entry) (s s' : Storage rocks)
      → append rocks (e ∷ es) s ≡ (s', ok tt)
      → (s'.first_index_cache
          ≡ (if nat_beq s.last_index_cache 0 then e.index else s.first_index_cache))
        × (s'.last_index_cache ≡ last_of e.index es)
        × ((j : Key)
            → rocks.get_cf j s'.db
              ≡ or_else
                  (put_value (
                    batch_get j (
                      entry_batch (e ∷ es)
                      ++ index_batch (nat_beq s.last_index_cache 0) e.index (last_of e.index es))))
                  (rocks.get_cf j s.db))
  unfolding append IsWrite set_last_cache
  append-IsWrite e es s s' h =
      let first_write = nat_beq s.last_index_cache 0 in
      let last_index = last_of e.index es in
      let batch = entry_batch (e ∷ es) ++ index_batch first_write e.index last_index in
      let (t, r, ht, h1) =
        steps (if first_write then set_first_cache rocks e.index else pure tt)
          (λ _. write_batch rocks batch >> set_last_cache rocks last_index) s s' tt h in
      let (u, _, hu, h2) =
        steps (write_batch rocks batch) (λ _. set_last_cache rocks last_index) t s' tt h1 in
      let (f, l, w) = write_batch-IsWrite rocks batch t u hu in
      let (first, db) = set_first_cache-if first_write e.index s t r ht in
      (
        sym (ap (λ p. p.0.first_index_cache) h2) ∙ f ∙ first,
        sym (ap (λ p. p.0.last_index_cache) h2),
        λ j.
            sym (ap (λ p. rocks.get_cf j p.0.db) h2)
            ∙ w j
            ∙ ap (λ d. or_else (put_value (batch_get j batch)) (rocks.get_cf j d)) db,
      )

  load_entry-cong :
      (i : ℕ) (s s' : Storage rocks)
      → rocks.get_cf (entry_key i) s'.db ≡ rocks.get_cf (entry_key i) s.db
      → load_entry rocks i s' ≡ load_entry rocks i s
  unfolding load_entry
  load_entry-cong i s s' h = ap (λ r. decoded (map_err other r) as_entry) h

  load_entry-written :
      (i : ℕ) (x : Entry) (s : Storage rocks)
      → rocks.get_cf (entry_key i) s.db ≡ ok (some (entry_value x))
      → load_entry rocks i s ≡ ok (some x)
  unfolding load_entry
  load_entry-written i x s h = ap (λ r. decoded (map_err other r) as_entry) h

  -- A successful `append` of entries without gaps leaves the entries below them as they were.
  pub append-keeps :
      (e : Entry) (es : List Entry) (s s' : Storage rocks) (i : ℕ)
      → IsRun (e.index + 1) es
      → i < e.index
      → append rocks (e ∷ es) s ≡ (s', ok tt)
      → load_entry rocks i s' ≡ load_entry rocks i s
  unfolding IsRun
  append-keeps e es s s' i run below h =
      let (_, _, w) = append-IsWrite e es s s' h in
      load_entry-cong i s s' (
        w (entry_key i)
        ∙ ap (λ o. or_else (put_value o) (rocks.get_cf (entry_key i) s.db))
            (batch-below e.index i (e ∷ es) _ (refl, run) below
              (batch-index (nat_beq s.last_index_cache 0) e.index (last_of e.index es) i)))

  append-reads :
      (e : Entry) (es : List Entry) (s s' : Storage rocks)
      → IsRun (e.index + 1) es
      → append rocks (e ∷ es) s ≡ (s', ok tt)
      → All (λ x. load_entry rocks x.index s' ≡ ok (some x)) (e ∷ es)
  unfolding IsRun
  append-reads e es s s' run h =
      let (_, _, w) = append-IsWrite e es s s' h in
      All-map _ _
        (λ x k. load_entry-written x.index x s' (
          w (entry_key x.index)
          ∙ ap (λ o. or_else (put_value o) (rocks.get_cf (entry_key x.index) s.db)) k))
        (e ∷ es)
        (batch-run e.index (e ∷ es) _ (refl, run)
          (batch-index (nat_beq s.last_index_cache 0) e.index (last_of e.index es)))

  -- A successful `append` of entries without gaps that start in the log or directly after it keeps
  -- the log without gaps; the log then ends with the last of them, and each of them is read back.
  pub append-IsLog :
      (e : Entry) (es : List Entry) (s s' : Storage rocks)
      → IsLog rocks s
      → IsRun (e.index + 1) es
      → s.first_index_cache ≤ e.index
      → e.index ≤ s.last_index_cache + 1
      → e.index + length es + 1 < u64_mod
      → append rocks (e ∷ es) s ≡ (s', ok tt)
      → IsLog rocks s'
        × (s'.last_index_cache ≡ e.index + length es)
        × All (λ x. load_entry rocks x.index s' ≡ ok (some x)) (e ∷ es)
  unfolding IsLog IsStored IsRun
  append-IsLog e es s s' (order, room, stored) run lo hi room' h =
      let (first, last, _) = append-IsWrite e es s s' h in
      let last_eq = last ∙ last_of_lem e.index es run in
      let reads = append-reads e es s s' run h in
      let bounds =
        first_bounds (nat_beq s.last_index_cache 0) e.index s.first_index_cache s'.first_index_cache
          first lo in
      (
        (
          omega (arith, bounds),
          omega (arith, last_eq),
          λ i a b. elim (Bool-cases (ltb i e.index)) [
            | inl below ↦
                let (x, hx, ix) = stored i (omega (arith, bounds)) (ground (arith, below)) in
                (x, append-keeps e es s s' i run (ltb→lt i e.index below) h ∙ hx, ix)
            | inr above ↦
                let (x, ix, hx) =
                  run-at (λ x. load_entry rocks x.index s' ≡ ok (some x)) e.index i (e ∷ es)
                    (refl, run) reads (ground (arith, above)) (omega (arith, last_eq)) in
                (x, subst (λ j. load_entry rocks j s' ≡ ok (some x)) ix hx, ix)
          ],
        ),
        last_eq,
        reads,
      )
