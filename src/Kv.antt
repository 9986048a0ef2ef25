-- ===== src/Kv.antt =====
-- src/raft/generic/state_machine.rs: the key-value store, the sample state machine.
pub mod Laws
pub mod Runtime
mod Tests
use raftoral.Prelude.{ℕ, List, [], ◌∷◌, map, Option}
use raftoral.Prelude.Eq.{Text, text_eq}
use raftoral.Prelude.HashMap.{HashMap, SameMap, get, insert, remove}
use raftoral.Prelude.Result.{Result, ok, err}
use raftoral.StateMachine.{Bytes, Serde, StateMachine, default_on_follower_failed}

pub data KvCommand : Type 0 where
  set : (key value : Text) → KvCommand
  delete : (key : Text) → KvCommand

pub data KvEvent : Type 0 where
  key_set : (key value : Text) → KvEvent
  key_deleted : (key : Text) → KvEvent

pub record KvStateMachine : Type 0 where
  pub store : HashMap Text Text

abbrev pub new : KvStateMachine
new = record { store = [] }

unfoldable pub get_value : KvStateMachine → Text → Option Text
get_value self key = get key self.store

unfoldable pub keys : KvStateMachine → List Text
keys self = map (λ entry. entry.0) self.store

unfoldable pub apply : KvStateMachine → KvCommand → KvStateMachine × Result Text (List KvEvent)
apply self (set key value) =
    (record { store = insert key value self.store }, ok (key_set key value ∷ []))
apply self (delete key) = (record { store = remove key self.store }, ok (key_deleted key ∷ []))

module _ (serde : Serde (HashMap Text Text) SameMap) where
  unfoldable pub snapshot : KvStateMachine → Result Text Bytes
  snapshot self = serde.to_vec self.store

  unfoldable pub restore : KvStateMachine → Bytes → KvStateMachine × Result Text (Unit {0})
  restore self bytes = elim (serde.from_slice bytes) [
    | ok store ↦ (record { store = store }, ok tt)
    | err e ↦ (self, err e)
  ]

  -- The trait's implementation for the key-value store.
  abbrev pub kv_state_machine : StateMachine
  kv_state_machine = record {
    State = KvStateMachine;
    Command = KvCommand;
    Event = KvEvent;
    Error = Text;
    apply = apply;
    snapshot = snapshot;
    restore = restore;
    on_follower_failed = default_on_follower_failed;
  }
