-- ===== src/Kv/Tests.antt =====
-- The laws of the key-value store at a concrete log, with a concrete encoding.
use raftoral.Prelude.{
  ◌≡◌, refl, ap, sym, ◌∙◌, List, [], ◌∷◌, ◌++◌, take, drop, take-length, drop-length, length, arith,
}
use raftoral.Prelude.Eq.{Text, text_eq, codes}
use raftoral.Prelude.HashMap.{HashMap, SameMap, get}
use raftoral.Prelude.Result.{Result, ok, err, ok-injective}
use raftoral.StateMachine.{Bytes, Serde}
use raftoral.Kv.{KvStateMachine, KvCommand, set, delete, new, get_value, snapshot, restore}
use raftoral.Kv.Laws.{apply_log, get_value-restore}

-- An encoding of the maps with at most one entry.
abbrev encode : HashMap Text Text → Result Text Bytes
encode [] = ok []
encode ((k, v) ∷ []) = ok (length k ∷ k ++ v)
encode (_ ∷ _ ∷ _) = err (codes "too long")

abbrev decode : Bytes → HashMap Text Text
decode [] = []
decode (n ∷ bytes) = (take n bytes, drop n bytes) ∷ []

decode-encode : (m : HashMap Text Text) (bytes : Bytes) → encode m ≡ ok bytes → decode bytes ≡ m
decode-encode [] bytes h = ap decode (sym (ok-injective h))
decode-encode ((k, v) ∷ []) bytes h =
    ap decode (sym (ok-injective h))
    ∙ ap (λ t. (t, drop (length k) (k ++ v)) ∷ []) (take-length k v)
    ∙ ap (λ t. (k, t) ∷ []) (drop-length k v)
decode-encode (_ ∷ _ ∷ _) bytes h = ground arith

abbrev kv_serde : Serde (HashMap Text Text) SameMap
kv_serde = record {
  to_vec = encode;
  from_slice = λ bytes. ok (decode bytes);
  from_slice-to_vec =
      λ m bytes h. (decode bytes, refl, λ k. ap (get k) (sym (decode-encode m bytes h)));
}

abbrev log : List KvCommand
log = set (codes "a") (codes "1") ∷ set (codes "b") (codes "2") ∷ delete (codes "a") ∷ []

abbrev stored : KvStateMachine
stored = record { store = (codes "k", codes "v") ∷ [] }

get_value-restore_example :
    ((restore kv_serde new (1 ∷ 107 ∷ 118 ∷ [])).1 ≡ ok tt)
    × (get_value (apply_log (restore kv_serde new (1 ∷ 107 ∷ 118 ∷ [])).0 log) (codes "k")
        ≡ get_value (apply_log stored log) (codes "k"))
get_value-restore_example =
    get_value-restore kv_serde stored new (1 ∷ 107 ∷ 118 ∷ []) log (codes "k")
      (unfold snapshot in refl)
