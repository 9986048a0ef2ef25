-- ===== src/FullNode/Joining.antt =====
-- src/full_node/mod.rs and src/grpc/bootstrap.rs: the id and the configuration that a node joins with.
use raftoral.Prelude.{
  ℕ, ◌≡◌, refl, ap, sym, ◌∙◌, List, [], ◌∷◌, Option, Bool, true, false, if◌then◌else◌, map,
}
use raftoral.Prelude.Eq.{Text}
use raftoral.Prelude.Result.{Result, ok, err, ok-injective, ◌>>=◌}
use raftoral.Raft.Types.{ConfState}
use raftoral.Raft.ClusterRouter.{ClusterRouter}
use raftoral.Raft.Node.{Env, Node}
use raftoral.Raft.Node.Construction.{RaftNodeConfig, Startup, new_single_node, new_with_conf_state}
use raftoral.Raft.Node.Construction.Voters.{
  new_with_conf_state-conf_state, new_single_node-conf_state,
}
use raftoral.Raft.ProposalRouter.{ProposalRouter}
use raftoral.Raft.Transport.{Network, TransportLayer}
use raftoral.Management.Runtime.{SubClusterRuntime, ManagementRuntime}
use raftoral.Management.Runtime.Queries.{get_management_voters}
use raftoral.Management.Runtime.Start.{
  new_from_node, new_runtime, new_joining_node, new_joining_learner, new_with,
}
use raftoral.Bootstrap.{DiscoveredPeer, discover_peers, next_node_id}
use raftoral.FullNode.{
  Joined, started, some_peers, leader_peer, joins_as_voter, join_runtime, management_config,
  management_router, peer_transport, http_prefix, new_joining, new_joining_with_http,
}

module _ (sub : SubClusterRuntime) {env : Env} (startup : Startup env) (initial : env.machine.State)
    (transport : env.Transport) (router : ClusterRouter sub.mpsc) (config : RaftNodeConfig) where
  on_node :
      (node : Result Text (Node env)) (r : ManagementRuntime sub (ProposalRouter env))
      (ids : List ℕ)
      → ((n : Node env) → node ≡ ok n → n.cached_conf_state.voters ≡ ids)
      → (do n ← node; ok (new_from_node sub startup initial transport router config n)) ≡ ok r
      → get_management_voters sub r ≡ ids
  unfolding new_from_node
  on_node (ok n) r ids known h =
      sym (ap (get_management_voters sub) (ok-injective h)) ∙ known n refl
  on_node (err e) r ids known h = absurd (cc h)

  -- The runtime of a new cluster has its own node as the only voter.
  pub new_runtime-voters :
      (r : ManagementRuntime sub (ProposalRouter env))
      → new_runtime sub startup initial transport router config ≡ ok r
      → get_management_voters sub r ≡ config.node_id ∷ []
  unfolding new_runtime
  new_runtime-voters r h =
      on_node (new_single_node startup config transport initial) r _
        (λ n e. new_single_node-conf_state startup config transport initial n e) h

  new_with-voters :
      (cs : ConfState) (r : ManagementRuntime sub (ProposalRouter env))
      → new_with sub startup initial transport router config cs ≡ ok r
      → get_management_voters sub r ≡ cs.voters
  unfolding new_with
  new_with-voters cs r h =
      on_node (new_with_conf_state startup config transport initial cs) r _
        (λ n e.
          ap (λ c. c.voters)
            (new_with_conf_state-conf_state startup config transport initial cs n e))
        h

  -- A voter or a learner that joins has the voters that it was given.
  pub joining-voters :
      (as_voter : Bool) (ids : List ℕ) (r : ManagementRuntime sub (ProposalRouter env))
      → (if as_voter
          then new_joining_node sub startup initial transport router config ids
          else new_joining_learner sub startup initial transport router config ids)
        ≡ ok r
      → get_management_voters sub r ≡ ids
  unfolding new_joining_node new_joining_learner
  joining-voters true ids r h = new_with-voters _ r h
  joining-voters false ids r h = new_with-voters _ r h

module _ (sub : SubClusterRuntime) {env : Env} (startup : Startup env) (initial : env.machine.State)
    (network : Network) (transport_of : TransportLayer network → env.Transport)
    (parse : Text → Result Text (Unit {0})) where
  -- What a join that succeeds has created, and the id in its request.
  started-ok :
      (mailbox_tx : sub.mpsc.Sender) (ask : Text → Result Text DiscoveredPeer)
      (leader : DiscoveredPeer) (id : ℕ) (address : Text)
      (created : Result Text (ManagementRuntime sub (ProposalRouter env)))
      (j : Joined sub startup initial network transport_of parse ask mailbox_tx)
      → started sub startup initial network transport_of parse ask mailbox_tx leader id address
          created
        ≡ ok j
      → (created ≡ ok j.0.runtime) × (j.1.node_id ≡ id)
  started-ok mailbox_tx ask leader id address created j h = go created (parse address) h
    where
      go :
          (created : Result Text (ManagementRuntime sub (ProposalRouter env)))
          (parsed : Result Text (Unit {0}))
          → (do
            runtime ← created
            u ← parsed
            ok (
                (
                  record { runtime = runtime; address = address },
                  record {
                    leader_address = leader.management_leader_address;
                    node_id = id;
                    address = address;
                  },
                )))
            ≡ ok j
          → (created ≡ ok j.0.runtime) × (j.1.node_id ≡ id)
      go (ok r) (ok u) h =
          (ap (λ k. ok k.0.runtime) (ok-injective h), sym (ap (λ k. k.1.node_id) (ok-injective h)))
      go (ok r) (err e) h = absurd (cc h)
      go (err e) parsed h = absurd (cc h)

  -- The runtime of a join that succeeds, and the id in its request, by the peers that were found.
  pub join-ok :
      (mailbox_tx : sub.mpsc.Sender) (ask : Text → Result Text DiscoveredPeer)
      (error address : Text) (found : List DiscoveredPeer)
      (create : List DiscoveredPeer → Result Text (ManagementRuntime sub (ProposalRouter env)))
      (j : Joined sub startup initial network transport_of parse ask mailbox_tx)
      → (do
        peers ← some_peers error found
        leader ← leader_peer peers
        started sub startup initial network transport_of parse ask mailbox_tx leader
            (next_node_id peers)
            address
            (create peers))
        ≡ ok j
      → (create found ≡ ok j.0.runtime) × (j.1.node_id ≡ next_node_id found)
  join-ok mailbox_tx ask error address [] create j h = absurd (cc h)
  join-ok mailbox_tx ask error address (peer ∷ peers) create j h = go (leader_peer (peer ∷ peers)) h
    where
      go :
          (leader : Result Text DiscoveredPeer)
          → (do
            l ← leader
            started sub startup initial network transport_of parse ask mailbox_tx l
                (next_node_id (peer ∷ peers))
                address
                (create (peer ∷ peers)))
            ≡ ok j
          → (create (peer ∷ peers) ≡ ok j.0.runtime) × (j.1.node_id ≡ next_node_id (peer ∷ peers))
      go (ok l) h = started-ok mailbox_tx ask l (next_node_id (peer ∷ peers)) address _ j h
      go (err e) h = absurd (cc h)

  -- A node that joins over gRPC starts with the peers that it discovered as the voters, whether it joins
  -- as a voter or a learner, and a node that joins over HTTP with itself as the only voter.
  pub new_joining-voters :
      (mailbox_tx : sub.mpsc.Sender) (ask : Text → Result Text DiscoveredPeer) (address : Text)
      (seeds : List Text) (storage_path : Option Text) (sender : network.Net)
      (over_grpc over_http : Joined sub startup initial network transport_of parse ask mailbox_tx)
      → new_joining sub startup initial network transport_of parse ask mailbox_tx address seeds
          storage_path sender
        ≡ ok over_grpc
      → new_joining_with_http sub startup initial network transport_of parse ask mailbox_tx address
          seeds storage_path sender
        ≡ ok over_http
      → (get_management_voters sub over_grpc.0.runtime
          ≡ map (λ p. p.node_id) (discover_peers ask seeds))
        × (get_management_voters sub over_http.0.runtime ≡ over_http.1.node_id ∷ [])
  unfolding new_joining new_joining_with_http
  new_joining-voters mailbox_tx ask address seeds storage_path sender over_grpc over_http h k =
      let peers = discover_peers ask seeds in
      let (created, id) =
        join-ok mailbox_tx ask _ address peers
          (λ ps.
            join_runtime sub startup initial network transport_of parse ask mailbox_tx
              (peer_transport sub startup initial network transport_of parse ask mailbox_tx []
                sender ps)
              (management_config (next_node_id ps) storage_path) ps)
          over_grpc h in
      let (created', id') =
        join-ok mailbox_tx ask _ address peers
          (λ ps.
            new_runtime sub startup initial
              (peer_transport sub startup initial network transport_of parse ask mailbox_tx
                http_prefix sender ps)
              (management_router sub startup initial network transport_of parse ask mailbox_tx)
              (management_config (next_node_id ps) storage_path))
          over_http k in
      (
        joining-voters sub startup initial _ _ _ (joins_as_voter peers) _ over_grpc.0.runtime
            created,
        new_runtime-voters sub startup initial _ _ _ over_http.0.runtime created'
            ∙ ap (λ id. id ∷ []) (sym id'),
      )
