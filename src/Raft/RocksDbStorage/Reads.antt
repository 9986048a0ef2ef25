-- ===== src/Raft/RocksDbStorage/Reads.antt =====
-- rocksdb_storage.rs: what the reads of the log return on a log without gaps.
use raftoral.Prelude.{
  ℕ, zero, suc, ◌+◌, ◌-◌, ◌%◌, ◌≤◌, ◌<◌, ◌≡◌, refl, ap, sym, subst, ◌∙◌, inl, inr, List, [], ◌∷◌,
  Option, none, some, true, false, arith, length, All, Bool-cases,
}
use raftoral.Prelude.Result.{Result, ok}
use raftoral.Raft.Types.{Entry}
use raftoral.Raft.RocksDb.{RocksDb}
use raftoral.Raft.RocksDbStorage.{StorageError, u64_mod, Storage, load_entry}
use raftoral.Raft.RocksDbStorage.RaftStorage.{ok_cons, exceeds, collect, entries}

-- Entries at `idx`, `idx + 1` and so on.
unfoldable pub IsRun : ℕ → List Entry → Type 0
IsRun idx [] = Unit
IsRun idx (e ∷ es) = (e.index ≡ idx) × IsRun (idx + 1) es

-- How many of `count` entries are returned: without a limit all.
unfoldable pub IsCount : Option ℕ → (count n : ℕ) → Type 0
IsCount none count n = n ≡ count
IsCount (some max) count n = n ≤ count

module _ (rocks : RocksDb) where
  unfoldable pub IsStored : Storage rocks → ℕ → Type 0
  IsStored s idx = (e : Entry) × (load_entry rocks idx s ≡ ok (some e)) × (e.index ≡ idx)

  -- The indices are those of a log, and it has all its entries.
  unfoldable pub IsLog : Storage rocks → Type 0
  IsLog s =
      (s.first_index_cache ≤ s.last_index_cache + 1)
      × (s.last_index_cache + 1 < u64_mod)
      × ((idx : ℕ) → s.first_index_cache ≤ idx → idx ≤ s.last_index_cache → IsStored s idx)

  -- A non-empty initial part of the `count` entries from `idx`; all of them where no limit is given.
  unfoldable pub IsReply : Storage rocks → Option ℕ → (idx count : ℕ) → List Entry → Type 0
  IsReply s max_size idx count es =
      IsRun idx es
      × All (λ e. load_entry rocks e.index s ≡ ok (some e)) es
      × IsCount max_size count (length es)

  ok_cons_lem :
      (e : Entry) (r : Result StorageError (List Entry)) (es : List Entry)
      → r ≡ ok es
      → ok_cons e r ≡ ok (e ∷ es)
  ok_cons_lem e r es h = ap (ok_cons e) h

  exceeds-total :
      (max_size : Option ℕ) (total size : ℕ) → exceeds max_size total size ≡ true → 1 ≤ total
  exceeds-total none total size h = ground arith
  exceeds-total (some max) total size h = ground arith

  IsCount-zero : (max_size : Option ℕ) → IsCount max_size 0 0
  unfolding IsCount
  IsCount-zero none = refl
  IsCount-zero (some max) = omega arith

  IsCount-stop :
      (max_size : Option ℕ) (count total size : ℕ)
      → exceeds max_size total size ≡ true
      → IsCount max_size (suc count) 0
  unfolding IsCount
  IsCount-stop none count total size h = ground arith
  IsCount-stop (some max) count total size h = omega arith

  IsCount-suc :
      (max_size : Option ℕ) (count n : ℕ)
      → IsCount max_size count n
      → IsCount max_size (suc count) (suc n)
  unfolding IsCount
  IsCount-suc none count n h = ap suc h
  IsCount-suc (some max) count n h = omega arith

  collect_stop :
      (encoded_len : Entry → ℕ) (max_size : Option ℕ) (count idx total : ℕ) (s : Storage rocks)
      (e : Entry)
      → load_entry rocks idx s ≡ ok (some e)
      → exceeds max_size total (encoded_len e) ≡ true
      → collect rocks encoded_len max_size (suc count) idx total s ≡ ok []
  collect_stop encoded_len max_size count idx total s e h b = rw (h, b)

  collect_more :
      (encoded_len : Entry → ℕ) (max_size : Option ℕ) (count idx total : ℕ) (s : Storage rocks)
      (e : Entry)
      → load_entry rocks idx s ≡ ok (some e)
      → exceeds max_size total (encoded_len e) ≡ false
      → collect rocks encoded_len max_size (suc count) idx total s
        ≡ ok_cons e (
            collect rocks encoded_len max_size count
              (idx + 1)
              ((total + encoded_len e) % u64_mod)
              s)
  collect_more encoded_len max_size count idx total s e h b = rw (h, b)

  collect_lem :
      (encoded_len : Entry → ℕ) (max_size : Option ℕ) (count idx total : ℕ) (s : Storage rocks)
      → ((j : ℕ) → idx ≤ j → j < idx + count → IsStored s j)
      → (es : List Entry) × (collect rocks encoded_len max_size count idx total s ≡ ok es)
        × IsReply s max_size idx count es
        × (total ≡ 0 → 1 ≤ count → 1 ≤ length es)
  unfolding IsStored IsReply IsRun
  collect_lem encoded_len max_size zero idx total s h =
      ([], refl, (tt, tt, IsCount-zero max_size), λ _ k. k)
  collect_lem encoded_len max_size (suc count) idx total s h =
      let (e, he, hi) = h idx (omega arith) (omega arith) in
      elim (Bool-cases (exceeds max_size total (encoded_len e))) [
        | inl b ↦ (
          [],
          collect_stop encoded_len max_size count idx total s e he b,
          (tt, tt, IsCount-stop max_size count total (encoded_len e) b),
          λ z _. omega (arith, exceeds-total max_size total (encoded_len e) b),
        )
        | inr b ↦
            let (es, run, (is_run, stored, counted), _) =
              collect_lem encoded_len max_size count (idx + 1) ((total + encoded_len e) % u64_mod) s
                (λ j lo hi. h j (omega arith) (omega arith)) in
            (
              e ∷ es,
              collect_more encoded_len max_size count idx total s e he b ∙ ok_cons_lem e _ es run,
              (
                (hi, is_run),
                (subst (λ j. load_entry rocks j s ≡ ok (some e)) (sym hi) he, stored),
                IsCount-suc max_size count (length es) counted,
              ),
              λ _ _. omega arith,
            )
      ]

  -- On a log without gaps every range of entries that is in it is answered: the reply is the stored
  -- entries from `low` on, in order and without gaps, at least one and at most `high - low`, and all
  -- of them where no size limit is given.
  pub entries-IsReply :
      (encoded_len : Entry → ℕ) (s : Storage rocks) (low high : ℕ) (max_size : Option ℕ)
      → IsLog s
      → low < high
      → s.first_index_cache ≤ low
      → high ≤ s.last_index_cache + 1
      → (es : List Entry) × (entries rocks encoded_len low high max_size s ≡ ok es)
        × IsReply s max_size low (high - low) es
        × (1 ≤ length es)
  unfolding IsLog entries
  entries-IsReply encoded_len s low high max_size (_, room, h) order lo hi =
      let (es, run, reply, nonempty) =
        collect_lem encoded_len max_size (high - low) low 0 s
          (λ j a b. h j (omega arith) (omega arith)) in
      (es, ground arith ∙ run, reply, nonempty refl (omega arith))
