-- ===== src/Raft/RocksDbStorage/Refusals.antt =====
-- rocksdb_storage.rs: which ranges of entries are refused on a log without gaps.
use raftoral.Prelude.{
  ℕ, ◌+◌, ◌≤◌, ◌<◌, ◌≡◌, ap, sym, ◌∙◌, ◌⊎◌, inl, inr, [], Option, true, false, arith, Bool-cases,
  ltb, leb, ltb→lt, leb→le, ◌↔◌,
}
use raftoral.Prelude.Result.{ok, err}
use raftoral.Raft.Types.{Entry}
use raftoral.Raft.RocksDb.{RocksDb}
use raftoral.Raft.RocksDbStorage.{StorageError, compacted, unavailable, u64_mod, Storage}
use raftoral.Raft.RocksDbStorage.RaftStorage.{entries}
use raftoral.Raft.RocksDbStorage.Reads.{IsLog, entries-IsReply}

module _ (rocks : RocksDb) where
  -- When a range is refused, and with which error: a range that is not empty and starts below the log
  -- as compacted, another one that ends beyond it as unavailable.
  unfoldable pub IsRefusal : Storage rocks → (low high : ℕ) → StorageError → Type 0
  IsRefusal s low high e =
      (low < high)
      × (((low < s.first_index_cache) × (e ≡ compacted))
          ⊎ ((s.first_index_cache ≤ low) × (s.last_index_cache + 1 < high) × (e ≡ unavailable)))

  entries-below :
      (encoded_len : Entry → ℕ) (s : Storage rocks) (low high : ℕ) (max_size : Option ℕ)
      → low < high
      → low < s.first_index_cache
      → entries rocks encoded_len low high max_size s ≡ err compacted
  unfolding entries
  entries-below encoded_len s low high max_size order below = ground arith

  entries-beyond :
      (encoded_len : Entry → ℕ) (s : Storage rocks) (low high : ℕ) (max_size : Option ℕ)
      → s.last_index_cache + 1 < u64_mod
      → low < high
      → s.first_index_cache ≤ low
      → s.last_index_cache + 1 < high
      → entries rocks encoded_len low high max_size s ≡ err unavailable
  unfolding entries
  entries-beyond encoded_len s low high max_size room order lo beyond = ground arith

  entries-empty :
      (encoded_len : Entry → ℕ) (s : Storage rocks) (low high : ℕ) (max_size : Option ℕ)
      → high ≤ low
      → entries rocks encoded_len low high max_size s ≡ ok []
  unfolding entries
  entries-empty encoded_len s low high max_size order = ground arith

  -- On a log without gaps a range is refused exactly if it is not empty and leaves the log: as compacted
  -- where it starts below the log, else as unavailable. Every other range is answered.
  pub entries-refused :
      (encoded_len : Entry → ℕ) (s : Storage rocks) (low high : ℕ) (max_size : Option ℕ)
      (e : StorageError)
      → IsLog rocks s
      → (entries rocks encoded_len low high max_size s ≡ err e) ↔ IsRefusal s low high e
  unfolding IsRefusal
  entries-refused encoded_len s low high max_size e log = (
    λ h. elim (Bool-cases (leb high low)) [
      | inl empty ↦
          absurd
            (cc (sym (entries-empty encoded_len s low high max_size (leb→le high low empty)) ∙ h))
      | inr order ↦
          (ground arith, by_start (ground arith) (Bool-cases (ltb low s.first_index_cache)) h)
    ],
    λ r. by_error r.0 r.1,
  )
    where
      beyond_or_in :
          low < high
          → s.first_index_cache ≤ low
          → (ltb (s.last_index_cache + 1) high ≡ true) ⊎ (ltb (s.last_index_cache + 1) high ≡ false)
          → entries rocks encoded_len low high max_size s ≡ err e
          → (s.last_index_cache + 1 < high) × (e ≡ unavailable)
      beyond_or_in order lo (inl b) h =
          let beyond = ltb→lt (s.last_index_cache + 1) high b in
          (
            beyond,
            cc (
              entries-beyond encoded_len s low high max_size (unfold IsLog in log.1) order lo
                  beyond,
              h,
            ),
          )
      beyond_or_in order lo (inr b) h =
          let (es, answered, _, _) =
            entries-IsReply rocks encoded_len s low high max_size log order lo (ground arith) in
          absurd (cc (sym answered ∙ h))

      by_start :
          low < high
          → (ltb low s.first_index_cache ≡ true) ⊎ (ltb low s.first_index_cache ≡ false)
          → entries rocks encoded_len low high max_size s ≡ err e
          → ((low < s.first_index_cache) × (e ≡ compacted))
            ⊎ ((s.first_index_cache ≤ low) × (s.last_index_cache + 1 < high) × (e ≡ unavailable))
      by_start order (inl b) h =
          let below = ltb→lt low s.first_index_cache b in
          inl (below, cc (entries-below encoded_len s low high max_size order below, h))
      by_start order (inr b) h =
          let lo : s.first_index_cache ≤ low = ground arith in
          let (beyond, same) =
            beyond_or_in order lo (Bool-cases (ltb (s.last_index_cache + 1) high)) h in
          inr (lo, beyond, same)

      by_error :
          low < high
          → ((low < s.first_index_cache) × (e ≡ compacted))
            ⊎ ((s.first_index_cache ≤ low) × (s.last_index_cache + 1 < high) × (e ≡ unavailable))
          → entries rocks encoded_len low high max_size s ≡ err e
      by_error order (inl (below, same)) =
          entries-below encoded_len s low high max_size order below ∙ ap err (sym same)
      by_error order (inr (lo, beyond, same)) =
          entries-beyond encoded_len s low high max_size (unfold IsLog in log.1) order lo beyond
          ∙ ap err (sym same)
