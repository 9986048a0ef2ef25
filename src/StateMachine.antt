-- ===== src/StateMachine.antt =====
-- src/raft/generic/state_machine.rs: the `StateMachine` trait, and serde_json as a parameter.
use raftoral.Prelude.{ℕ, ◌≡◌, List, []}
use raftoral.Prelude.Eq.{Text}
use raftoral.Prelude.Result.{Result, ok}

-- What `serde_json::to_vec` returns and `serde_json::from_slice` reads.
abbrev pub Bytes : Type 0
Bytes = List ℕ

-- serde_json at one type. An error is its message, as in `Box<dyn Error>`. Reading back what was written gives a value that is `Same`: the order in
-- which a `HashMap` iterates is not kept.
pub record Serde (A : Type 0) (Same : A → A → Type 0) : Type 0 where
  pub to_vec : A → Result Text Bytes
  pub from_slice : Bytes → Result Text A
  pub from_slice-to_vec :
      (a : A) (bytes : Bytes) → to_vec a ≡ ok bytes → (b : A) × (from_slice bytes ≡ ok b) × Same a b

-- The trait, over a state that each method takes and returns.
pub record StateMachine : Type 1 where
  pub State : Type 0
  pub Command : Type 0
  pub Event : Type 0
  pub Error : Type 0
  pub apply : State → Command → State × Result Error (List Event)
  pub snapshot : State → Result Error Bytes
  pub restore : State → Bytes → State × Result Error (Unit {0})
  pub on_follower_failed : State → ℕ → State × List Event

-- The trait's default: no failure detection events.
unfoldable pub default_on_follower_failed : {S E : Type 0} → S → ℕ → S × List E
default_on_follower_failed s node_id = (s, [])
