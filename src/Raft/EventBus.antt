-- ===== src/Raft/EventBus.antt =====
-- src/raft/generic/event_bus.rs: the bus that gives the events of the state machine to subscribers.
-- The broadcast channel of tokio is a parameter.
use raftoral.Prelude.{ℕ, ◌+◌, List, [], ◌∷◌}
use raftoral.Prelude.Result.{Result, ok, err}

-- `broadcast`: sending gives the number of receivers, or fails where there are none.
pub record Broadcast (E : Type 0) : Type 1 where
  pub Sender : Type 0
  pub Receiver : Type 0
  pub channel : (capacity : ℕ) → Sender
  pub send : E → Sender → Sender × Result E ℕ
  pub subscribe : Sender → Sender × Receiver
  pub receiver_count : Sender → ℕ

module _ {E : Type 0} (broadcast : Broadcast E) where
  pub record EventBus : Type 0 where
    pub tx : broadcast.Sender

  abbrev pub new : (capacity : ℕ) → EventBus
  new capacity = record { tx = broadcast.channel capacity }

  abbrev pub default : EventBus
  default = new 100

  abbrev received_by : Result E ℕ → ℕ
  received_by (ok receiver_count) = receiver_count
  received_by (err event) = 0

  unfoldable pub publish : E → EventBus → EventBus × ℕ
  publish event self =
      let (tx, r) = broadcast.send event self.tx in (record { tx = tx }, received_by r)

  abbrev pub publish_from : List E → (total : ℕ) → EventBus → EventBus × ℕ
  unfolding publish
  publish_from [] total self = (self, total)
  publish_from (event ∷ events) total self =
      let (bus, count) = publish event self in publish_from events (total + count) bus

  unfoldable pub publish_batch : List E → EventBus → EventBus × ℕ
  publish_batch events self = publish_from events 0 self

  abbrev pub subscribe : EventBus → EventBus × broadcast.Receiver
  subscribe self = let (tx, rx) = broadcast.subscribe self.tx in (record { tx = tx }, rx)

  abbrev pub subscriber_count : EventBus → ℕ
  subscriber_count self = broadcast.receiver_count self.tx
