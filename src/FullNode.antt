-- ===== src/FullNode.antt =====
-- src/full_node/mod.rs: a node that joins a cluster, over gRPC, as a sidecar and over HTTP, up to the
-- request with which it asks the leader to be added. Its loop and its server then run in the background.
pub mod Joining
pub mod NodeIds
mod Tests
use raftoral.Prelude.{ℕ, List, [], ◌∷◌, ◌++◌, Option, Bool, true, if◌then◌else◌, nat_beq, map}
use raftoral.Prelude.Eq.{Text, codes}
use raftoral.Prelude.Result.{Result, ok, err, ◌>>=◌}
use raftoral.Raft.ClusterRouter
use raftoral.Raft.ClusterRouter.{ClusterRouter, register_cluster}
use raftoral.Raft.Node.{Env}
use raftoral.Raft.Node.Construction.{RaftNodeConfig, default_config, Startup}
use raftoral.Raft.ProposalRouter.{ProposalRouter}
use raftoral.Raft.Transport
use raftoral.Raft.Transport.{Network, TransportLayer, add_peer}
use raftoral.Management.Runtime.{SubClusterRuntime, ManagementRuntime}
use raftoral.Management.Runtime.Start.{new_runtime, new_joining_node, new_joining_learner}
use raftoral.Bootstrap.{DiscoveredPeer, discover_peers, next_node_id}

-- The request that a node which has started sends to the leader, whose answer it only logs.
pub record AddNodeRequest : Type 0 where
  pub leader_address : Text
  pub node_id : ℕ
  pub address : Text

abbrev pub management_config : (node_id : ℕ) (storage_path : Option Text) → RaftNodeConfig
management_config node_id storage_path = record default_config {
  node_id = node_id;
  cluster_id = 0;
  snapshot_interval = 100;
  storage_path = storage_path;
}

-- The first peer that knows a leader.
abbrev pub leader_peer : List DiscoveredPeer → Result Text DiscoveredPeer
leader_peer [] = err (codes "No management leader found in discovered peers")
leader_peer (peer ∷ peers) =
    if nat_beq peer.management_leader_node_id 0 then leader_peer peers else ok peer

abbrev pub joins_as_voter : List DiscoveredPeer → Bool
joins_as_voter [] = true
joins_as_voter (peer ∷ peers) = peer.should_join_as_voter

abbrev some_peers : (error : Text) → List DiscoveredPeer → Result Text (List DiscoveredPeer)
some_peers error [] = err error
some_peers error (peer ∷ peers) = ok (peer ∷ peers)

abbrev pub http_prefix : Text
http_prefix = codes "http://"

-- `transport_of` is the transport as the node uses it, `parse` reads a socket address, and
-- `discover_peer` asks a peer.
module _ (sub : SubClusterRuntime) {env : Env} (startup : Startup env) (initial : env.machine.State)
    (network : Network) (transport_of : TransportLayer network → env.Transport)
    (parse : Text → Result Text (Unit {0})) (discover_peer : Text → Result Text DiscoveredPeer)
    (mailbox_tx : sub.mpsc.Sender) where
  pub record FullNode : Type 0 where
    pub runtime : ManagementRuntime sub (ProposalRouter env)
    pub address : Text

  abbrev pub Joined : Type 0
  Joined = FullNode × AddNodeRequest

  -- The mailbox of the management cluster.
  abbrev pub management_router : ClusterRouter sub.mpsc
  management_router = register_cluster sub.mpsc 0 mailbox_tx (ClusterRouter.new sub.mpsc)

  abbrev pub add_peers :
      (prefix : Text) → List DiscoveredPeer → TransportLayer network → TransportLayer network
  add_peers prefix [] transport = transport
  add_peers prefix (peer ∷ peers) transport =
      add_peers prefix peers (add_peer network peer.node_id (prefix ++ peer.address) transport)

  abbrev pub peer_transport : (prefix : Text) → network.Net → List DiscoveredPeer → env.Transport
  peer_transport prefix sender peers =
      transport_of (add_peers prefix peers (Transport.new network sender))

  abbrev pub started :
      (leader : DiscoveredPeer) (node_id : ℕ) (address : Text)
      → Result Text (ManagementRuntime sub (ProposalRouter env))
      → Result Text Joined
  started leader node_id address created = do
    runtime ← created
    parsed ← parse address
    ok (
        (
          record { runtime = runtime; address = address },
          record {
            leader_address = leader.management_leader_address;
            node_id = node_id;
            address = address;
          },
        ))

  -- As a voter or a learner, with the peers that were discovered as the other voters.
  abbrev pub join_runtime :
      env.Transport
      → RaftNodeConfig
      → List DiscoveredPeer
      → Result Text (ManagementRuntime sub (ProposalRouter env))
  join_runtime transport config peers =
      let existing_voters = map (λ p. p.node_id) peers in
      if joins_as_voter peers
      then new_joining_node sub startup initial transport management_router config existing_voters
      else new_joining_learner sub startup initial transport management_router config
          existing_voters

  unfoldable pub new_joining :
      (address : Text)
      → (seed_addresses : List Text) → (storage_path : Option Text) → (grpc_sender : network.Net)
      → Result Text Joined
  new_joining address seed_addresses storage_path grpc_sender = do
    peers ←
        some_peers (codes "Failed to discover any peers")
          (discover_peers discover_peer seed_addresses)
    leader ← leader_peer peers
    started leader (next_node_id peers) address (
        join_runtime (peer_transport [] grpc_sender peers)
          (management_config (next_node_id peers) storage_path) peers)

  -- The sidecar server that is started beside it does not change the node.
  unfoldable pub new_joining_sidecar :
      (raft_address : Text)
      → (seed_addresses : List Text) → (storage_path : Option Text) → (grpc_sender : network.Net)
      → Result Text Joined
  unfolding new_joining
  new_joining_sidecar raft_address = new_joining raft_address

  -- Over HTTP the runtime is created as for a new cluster.
  unfoldable pub new_joining_with_http :
      (address : Text)
      → (seed_addresses : List Text) → (storage_path : Option Text) → (http_sender : network.Net)
      → Result Text Joined
  new_joining_with_http address seed_addresses storage_path http_sender = do
    peers ←
        some_peers (codes "Failed to discover any peers via HTTP")
          (discover_peers discover_peer seed_addresses)
    leader ← leader_peer peers
    started leader (next_node_id peers) address (
        new_runtime sub startup initial (peer_transport http_prefix http_sender peers)
          management_router (management_config (next_node_id peers) storage_path))
