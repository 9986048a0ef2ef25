-- ===== src/Raft/ClusterRouter.antt =====
-- src/raft/generic/cluster_router.rs: incoming messages go to the mailbox of their cluster. The
-- channels of tokio are a parameter.
pub mod Routing
mod Tests
use raftoral.Prelude.{ℕ, Bool, true, false, List, [], ◌∷◌, Option, none, some, length}
use raftoral.Prelude.Eq.{Text, nat_eq}
use raftoral.Prelude.HashMap.{HashMap, get, insert, remove}
use raftoral.Prelude.Result.{Result, ok, err}
use raftoral.Raft.Types.{GenericMessage}

-- `mpsc`: sending changes the channels, and fails where the receiver is gone.
pub record Mpsc (M : Type 0) : Type 1 where
  pub Channels : Type 0
  pub Sender : Type 0
  pub send : Sender → M → Channels → Channels × Result (Unit {0}) (Unit {0})

pub data RoutingError : Type 0 where
  cluster_not_found : (cluster_id : ℕ) → RoutingError
  route_failed : (cluster_id : ℕ) (reason : Text) → RoutingError
  mailbox_full : (cluster_id : ℕ) → RoutingError
  other : Text → RoutingError

module _ (mpsc : Mpsc GenericMessage) where
  pub record ClusterRouter : Type 0 where
    pub routes : HashMap ℕ mpsc.Sender

  abbrev pub new : ClusterRouter
  new = record { routes = [] }

  unfoldable pub register_cluster : ℕ → mpsc.Sender → ClusterRouter → ClusterRouter
  register_cluster cluster_id sender self = record { routes = insert cluster_id sender self.routes }

  unfoldable pub unregister_cluster : ℕ → ClusterRouter → ClusterRouter
  unregister_cluster cluster_id self = record { routes = remove cluster_id self.routes }

  abbrev pub sent :
      ℕ
      → mpsc.Channels × Result (Unit {0}) (Unit {0})
      → mpsc.Channels × Result RoutingError (Unit {0})
  sent cluster_id (channels, ok a) = (channels, ok tt)
  sent cluster_id (channels, err e) = (channels, err (mailbox_full cluster_id))

  abbrev pub forward :
      GenericMessage
      → mpsc.Channels
      → Option mpsc.Sender
      → mpsc.Channels × Result RoutingError (Unit {0})
  forward message channels none = (channels, err (cluster_not_found message.cluster_id))
  forward message channels (some sender) =
      sent message.cluster_id (mpsc.send sender message channels)

  unfoldable pub route_message :
      GenericMessage
      → ClusterRouter
      → mpsc.Channels
      → mpsc.Channels × Result RoutingError (Unit {0})
  route_message message self channels =
      forward message channels (get message.cluster_id self.routes)

  abbrev pub cluster_count : ClusterRouter → ℕ
  cluster_count self = length self.routes

  abbrev is_there : Option mpsc.Sender → Bool
  is_there none = false
  is_there (some sender) = true

  unfoldable pub is_cluster_registered : ℕ → ClusterRouter → Bool
  is_cluster_registered cluster_id self = is_there (get cluster_id self.routes)
