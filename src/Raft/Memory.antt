-- ===== src/Raft/Memory.antt =====
-- A database in memory that never fails, which shows that the laws of RocksDb can hold.
use raftoral.Prelude.{
  ◌≡◌, refl, ap, sym, ◌∙◌, [], ◌∷◌, Option, none, some, Bool, true, false, if◌then◌else◌,
}
use raftoral.Prelude.Eq.{Text, ◌==◌}
use raftoral.Prelude.HashMap.{HashMap, get, insert, remove, get-insert, get-remove}
use raftoral.Prelude.Result.{Result, ok, ok-injective}
use raftoral.Raft.RocksDb.{Key, key_eq, Value, Batch, batch_get, or_earlier, RocksDb}

abbrev pub Table : Type 0
Table = HashMap Key Value

abbrev pub write_all : Batch → Table → Table
write_all [] d = d
write_all ((k, v) ∷ batch) d = write_all batch (insert k v d)

abbrev pub found : Option Value → Result Text (Option Value)
found o = ok o

pub found-if :
    (b : Bool) (x y : Option Value) → found (if b then x else y) ≡ (if b then ok x else ok y)
found-if true x y = refl
found-if false x y = refl

-- A write before a batch is seen where the batch does not write.
found-or_earlier :
    (later : Option Value) (b : Bool) (v : Value) (x before : Option Value)
    → x ≡ (if b then some v else before)
    → (elim later [ none ↦ found x | some w ↦ found (some w) ])
      ≡ (elim (or_earlier later (if b then some v else none)) [
        | none ↦ found before
        | some w ↦ found (some w)
      ])
found-or_earlier none true v x before h = ap found h
found-or_earlier none false v x before h = ap found h
found-or_earlier (some w) b v x before h = refl

pub get-write_all :
    (batch : Batch) (j : Key) (d : Table)
    → found (get j (write_all batch d))
      ≡ (elim (batch_get j batch) [ none ↦ found (get j d) | some v ↦ found (some v) ])
get-write_all [] j d = refl
get-write_all ((k, v) ∷ batch) j d =
    get-write_all batch j (insert k v d)
    ∙ found-or_earlier (batch_get j batch) (k == j) v _ _ (get-insert k j v d)

abbrev pub memory : RocksDb
memory = record {
  Db = Table;
  get_cf = λ k d. ok (get k d);
  put_cf = λ k v d. ok (insert k v d);
  delete_cf = λ k d. ok (remove k d);
  write = λ batch d. ok (write_all batch d);
  get_cf-put_cf = λ k j v d d' h.
      ap (λ t. found (get j t)) (sym (ok-injective h))
      ∙ ap found (get-insert k j v d)
      ∙ found-if (k == j) _ _;
  get_cf-delete_cf = λ k j d d' h.
      ap (λ t. found (get j t)) (sym (ok-injective h))
      ∙ ap found (get-remove k j d)
      ∙ found-if (k == j) _ _;
  get_cf-write =
      λ batch j d d' h. ap (λ t. found (get j t)) (sym (ok-injective h)) ∙ get-write_all batch j d;
}
