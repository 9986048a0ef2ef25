-- ===== src/Kv/Laws.antt =====
-- The key-value store as a map from keys to values.
use raftoral.Prelude.{◌≡◌, Option, none, some, if◌then◌else◌, List, [], ◌∷◌, refl, ap, sym, ◌∙◌}
use raftoral.Prelude.Eq.{Text, text_eq, ◌==◌}
use raftoral.Prelude.HashMap.{HashMap, SameMap, get-insert, get-remove}
use raftoral.Prelude.Result.{ok}
use raftoral.StateMachine.{Bytes, Serde}
use raftoral.Kv.{KvStateMachine, KvCommand, set, delete, apply, get_value, snapshot, restore}

-- What the commands of a log leave under a key, by the last one that names it.
abbrev pub last_write : Text → List KvCommand → Option Text → Option Text
last_write k [] before = before
last_write k (set j v ∷ log) before = last_write k log (if j == k then some v else before)
last_write k (delete j ∷ log) before = last_write k log (if j == k then none else before)

-- The committed commands, applied in order.
pub apply_log : KvStateMachine → List KvCommand → KvStateMachine
apply_log self [] = self
apply_log self (c ∷ log) = apply_log (apply self c).0 log

-- After a log of commands a key holds what the last command that names the key wrote, nothing if
-- that one deleted it, and what it held before if none names it.
pub get_value-apply_log :
    (s : KvStateMachine) (log : List KvCommand) (k : Text)
    → get_value (apply_log s log) k ≡ last_write k log (get_value s k)
unfolding apply_log apply get_value
get_value-apply_log s [] k = refl
get_value-apply_log s (set j v ∷ log) k =
    get_value-apply_log (apply s (set j v)).0 log k
    ∙ ap (last_write k log) (get-insert j k v s.store)
get_value-apply_log s (delete j ∷ log) k =
    get_value-apply_log (apply s (delete j)).0 log k
    ∙ ap (last_write k log) (get-remove j k s.store)

module _ (serde : Serde (HashMap Text Text) SameMap) where
  -- A replica in any state `t` that restores a snapshot of `s` holds under every key what `s` holds,
  -- and still does when both have applied the same later log.
  pub get_value-restore :
      (s t : KvStateMachine) (bytes : Bytes) (log : List KvCommand) (k : Text)
      → snapshot serde s ≡ ok bytes
      → ((restore serde t bytes).1 ≡ ok tt)
        × (get_value (apply_log (restore serde t bytes).0 log) k ≡ get_value (apply_log s log) k)
  unfolding snapshot restore get_value
  get_value-restore s t bytes log k h =
      let (store, read, same) = serde.from_slice-to_vec s.store bytes h in
      rw (read, restore)
        (
          refl,
          get_value-apply_log (record { store = store }) log k
              ∙ ap (last_write k log) (sym (same k))
              ∙ sym (get_value-apply_log s log k),
        )
