-- ===== src/Grpc.antt =====
-- src/grpc/server.rs: what a node answers to the others over gRPC. HTTP has the same answers.
use raftoral.Prelude.{
  ℕ, [], ◌++◌, Option, none, some, Bool, true, false, if◌then◌else◌, ltb, length,
}
use raftoral.Prelude.Eq.{Text, codes}
use raftoral.Prelude.Result.{Result, ok, err}
use raftoral.Raft.Types.{GenericMessage}
use raftoral.Raft.ClusterRouter.{ClusterRouter, RoutingError, route_message}
use raftoral.Raft.Transport.{Network, TransportLayer, get_peer_address}
use raftoral.Raft.Node.{Env}
use raftoral.Raft.ProposalRouter.{ProposalRouter}
use raftoral.Management.Runtime.{SubClusterRuntime, ManagementRuntime}
use raftoral.Management.Runtime.Commands.{ManagementWorld}
use raftoral.Management.Runtime.Queries.{is_leader, leader_id, get_management_voters}
use raftoral.Bootstrap.{DiscoveredPeer}

-- `MessageResponse` and `AddNodeResponse`
pub record Response : Type 0 where
  pub success : Bool
  pub error : Text

abbrev succeeded : Response
succeeded = record { success = true; error = [] }

abbrev refused : Text → Response
refused error = record { success = false; error = error }

abbrev address_or_empty : Option Text → Text
address_or_empty none = []
address_or_empty (some address) = address

module _ (env : Env) (sub : SubClusterRuntime) (network : Network) where
  pub record GrpcServer : Type 0 where
    pub cluster_router : ClusterRouter network.mpsc
    pub node_id : ℕ
    pub node_address : Text
    pub transport : TransportLayer network
    pub management_runtime : ManagementRuntime sub (ProposalRouter env)

  abbrev routed :
      (debug : RoutingError → Text)
      → network.mpsc.Channels × Result RoutingError (Unit {0})
      → network.mpsc.Channels × Response
  routed debug (channels, ok a) = (channels, succeeded)
  routed debug (channels, err e) = (channels, refused (debug e))

  -- `debug` prints an error as `{:?}` does.
  unfoldable pub send_message :
      (debug : RoutingError → Text)
      → GenericMessage
      → GrpcServer
      → network.mpsc.Channels
      → network.mpsc.Channels × Response
  send_message debug message self channels =
      routed debug (route_message network.mpsc message self.cluster_router channels)

  abbrev follower_view : GrpcServer → Option ℕ → ℕ × Text
  follower_view self none = (0, [])
  follower_view self (some lid) =
      (lid, address_or_empty (get_peer_address network lid self.transport))

  -- The leader by its id, 0 where it is not known, and its address.
  abbrev pub known_leader : GrpcServer → ℕ × Text
  known_leader self =
      if is_leader sub self.management_runtime
      then (self.node_id, self.node_address)
      else follower_view self (leader_id sub self.management_runtime)

  -- What a node that joins gets from this one, as the fields of `DiscoveredPeer`.
  unfoldable pub discover : GrpcServer → DiscoveredPeer
  discover self =
      let (leader_id, leader_address) = known_leader self in
      let current_voter_count = length (get_management_voters sub self.management_runtime) in
      record {
        node_id = self.node_id;
        address = self.node_address;
        highest_known_node_id = self.node_id;
        management_leader_node_id = leader_id;
        management_leader_address = leader_address;
        should_join_as_voter = ltb current_voter_count 5;
        current_voter_count = current_voter_count;
        max_voters = 5;
      }

-- What the channel of the change gave, `none` where its sender is gone. `debug` prints a text as
-- `{:?}` does, and `cancelled` the error of the channel.
abbrev pub completed :
    (debug : Text → Text) → (cancelled : Text) → Option (Result Text (Unit {0})) → Response
completed debug cancelled none = refused (codes "Operation cancelled: " ++ cancelled)
completed debug cancelled (some (ok a)) = succeeded
completed debug cancelled (some (err e)) = refused (codes "Failed to add node: " ++ debug e)

module _ (debug : Text → Text) (cancelled : Text)
    (add : (node_id : ℕ) (address : Text) → ManagementWorld → ManagementWorld × Result Text ℕ)
    (reply : (rx : ℕ) → ManagementWorld → ManagementWorld × Option (Result Text (Unit {0}))) where
  abbrev answered : ManagementWorld × Option (Result Text (Unit {0})) → ManagementWorld × Response
  answered (w, r) = (w, completed debug cancelled r)

  abbrev initiated : ManagementWorld × Result Text ℕ → ManagementWorld × Response
  initiated (w, err e) = (w, refused (codes "Failed to initiate add_node: " ++ debug e))
  initiated (w, ok rx) = answered (reply rx w)

  -- `add` is `add_node` of the management runtime, and `reply` what its receiver gives.
  unfoldable pub add_node :
      (node_id : ℕ) (address : Text) → ManagementWorld → ManagementWorld × Response
  add_node node_id address w = initiated (add node_id address w)
