-- ===== src/Raft/Transport.antt =====
-- src/raft/generic/transport.rs: the registry of peers, over a sender of messages as a parameter.
use raftoral.Prelude.{ℕ, List, [], Option, none, some, map}
use raftoral.Prelude.Eq.{Text, nat_eq}
use raftoral.Prelude.HashMap.{HashMap, get, insert, remove}
use raftoral.Prelude.Result.{Result, ok, err, map_err}
use raftoral.Raft.Types.{GenericMessage}
use raftoral.Raft.ClusterRouter.{Mpsc, RoutingError, ClusterRouter, route_message}

pub data TransportError : Type 0 where
  peer_not_found : (node_id : ℕ) → TransportError
  send_failed : (node_id : ℕ) (reason : Text) → TransportError
  serialization_error deserialization_error : (reason : Text) → TransportError
  not_initialized : TransportError
  other : Text → TransportError

-- `MessageSender`, with the network that it writes to, and the channels of the mailboxes.
pub record Network : Type 1 where
  pub Net : Type 0
  pub send : (address : Text) → GenericMessage → Net → Net × Result TransportError (Unit {0})
  pub mpsc : Mpsc GenericMessage
  pub routing_error_text : RoutingError → Text

module _ (network : Network) where
  pub record TransportLayer : Type 0 where
    pub peers : HashMap ℕ Text
    pub message_sender : network.Net
    pub cluster_router : Option (ClusterRouter network.mpsc)

  abbrev pub new : network.Net → TransportLayer
  new sender = record { peers = []; message_sender = sender; cluster_router = none }

  abbrev pub new_with_router : network.Net → ClusterRouter network.mpsc → TransportLayer
  new_with_router sender router = record {
    peers = [];
    message_sender = sender;
    cluster_router = some router;
  }

  abbrev pub set_cluster_router : ClusterRouter network.mpsc → TransportLayer → TransportLayer
  set_cluster_router router self = record self { cluster_router = some router }

  abbrev pub send_to :
      (target : ℕ)
      → GenericMessage
      → TransportLayer
      → Option Text
      → TransportLayer × Result TransportError (Unit {0})
  send_to target message self none = (self, err (peer_not_found target))
  send_to target message self (some addr) =
      let (net, r) = network.send addr message self.message_sender in
      (record self { message_sender = net }, r)

  unfoldable pub send_message :
      (target : ℕ)
      → GenericMessage
      → TransportLayer
      → TransportLayer × Result TransportError (Unit {0})
  send_message target message self = send_to target message self (get target self.peers)

  abbrev route :
      GenericMessage
      → network.mpsc.Channels
      → Option (ClusterRouter network.mpsc)
      → network.mpsc.Channels × Result TransportError (Unit {0})
  route message channels none = (channels, ok tt)
  route message channels (some router) =
      let (sent, r) = route_message network.mpsc message router channels in
      (sent, map_err (λ e. other (network.routing_error_text e)) r)

  unfoldable pub receive_message :
      GenericMessage
      → TransportLayer
      → network.mpsc.Channels
      → network.mpsc.Channels × Result TransportError (Unit {0})
  receive_message message self channels = route message channels self.cluster_router

  unfoldable pub add_peer : ℕ → Text → TransportLayer → TransportLayer
  add_peer node_id address self = record self { peers = insert node_id address self.peers }

  unfoldable pub remove_peer : ℕ → TransportLayer → TransportLayer
  remove_peer node_id self = record self { peers = remove node_id self.peers }

  abbrev pub list_peers : TransportLayer → List ℕ
  list_peers self = map (λ p. p.0) self.peers

  abbrev pub get_peer_address : ℕ → TransportLayer → Option Text
  get_peer_address node_id self = get node_id self.peers
