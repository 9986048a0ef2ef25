-- ===== src/FullNode/Tests.antt =====
-- The theorems on joining, and what a server answers, at concrete nodes.
use raftoral.Prelude.{ℕ, ◌≡◌, refl, ◌<◌, List, [], ◌∷◌, none, All, arith}
use raftoral.Prelude.Eq.{Text, codes}
use raftoral.Prelude.HashMap.{get, insert}
use raftoral.Prelude.Result.{Result, ok, err}
use raftoral.Raft.Types.{GenericMessage}
use raftoral.Raft.ClusterRouter.{Mpsc, register_cluster}
use raftoral.Raft.Transport.{Network, TransportLayer, add_peer}
use raftoral.Raft.Node.Sample.{env, node}
use raftoral.Raft.Node.Construction.{
  Startup, create_storage, initial_node, new_single_node, new_with_conf_state,
}
use raftoral.Raft.ProposalRouter
use raftoral.Raft.Node.Mailbox
use raftoral.Management.Runtime.{SubClusterRuntime}
use raftoral.Management.Runtime.Queries.{get_management_voters}
use raftoral.Management.Runtime.Start.{new_from_node, new_runtime, new_joining_node, new_with}
use raftoral.Bootstrap.{next_node_id}
use raftoral.Grpc.{GrpcServer, discover}
use raftoral.FullNode.{Joined, management_config, new_joining, new_joining_with_http}
use raftoral.FullNode.Joining.{new_joining-voters}
use raftoral.FullNode.NodeIds.{Serving, asked, ids, new_joining-node_id}

abbrev mailboxes : Mpsc GenericMessage
mailboxes = record {
  Channels = List ℕ;
  Sender = ℕ;
  send = λ sender message channels. (sender ∷ channels, ok tt);
}

-- A network that does not answer.
abbrev silent : Network
silent = record {
  Net = ℕ;
  send = λ address message net. (net, ok tt);
  mpsc = mailboxes;
  routing_error_text = λ e. codes "refused";
}

abbrev ids_only : SubClusterRuntime
ids_only = record {
  R = ℕ;
  new_single_node = λ config. ok config.node_id;
  new_joining_node = λ config voters. ok config.node_id;
  node_id = λ r. r;
  mpsc = mailboxes;
}

abbrev startup : Startup env
startup = record {
  cluster_directory = λ path id. path;
  open_database = λ path. err (codes "no file system");
  mem_storage = λ conf_state. node.store;
  raw_node_new = λ config store. ok 0;
}

abbrev nothing_sent : TransportLayer silent → List (ℕ × GenericMessage)
nothing_sent transport = []

abbrev parsed : Text → Result Text (Unit {0})
parsed address = ok tt

-- Node 1 with the given voters.
abbrev server : List ℕ → GrpcServer env ids_only silent
server voters = record {
  cluster_router = record { routes = [] };
  node_id = 1;
  node_address = codes "a";
  transport = record { peers = []; message_sender = 0; cluster_router = none };
  management_runtime = record {
    proposal_router =
        ProposalRouter.new env
          (record node { cached_conf_state = record { voters = voters; learners = [] } }) 0 1;
    cluster_router = record { routes = [] };
    sub_clusters = [];
    node_id = 1;
    cluster_id = 0;
    storage_path = none;
  };
}

-- Every address leads to node 1.
abbrev serving : List ℕ → Serving env ids_only silent
serving voters address = ok (server voters)

abbrev seeds : List Text
seeds = codes "a" ∷ []

-- Node 2 as it has joined through node 1.
abbrev joined :
    (serving : Serving env ids_only silent) (tx : ℕ) (address : Text) (voters : List ℕ)
    → Joined ids_only startup 10 silent nothing_sent parsed (asked env ids_only silent serving) tx
joined serving tx address voters = (
  record {
    runtime = record {
      proposal_router =
          ProposalRouter.new env
            (initial_node startup (management_config 2 none) [] 10
              (record { voters = voters; learners = [] }) node.store 0)
            0 2;
      cluster_router = record { routes = (0, tx) ∷ [] };
      sub_clusters = [];
      node_id = 2;
      cluster_id = 0;
      storage_path = none;
    };
    address = address;
  },
  record { leader_address = []; node_id = 2; address = address },
)

new_joining-first :
    new_joining ids_only startup 10 silent nothing_sent parsed
      (asked env ids_only silent (serving (1 ∷ [])))
      5
      (codes "b")
      seeds
      none
      0
    ≡ ok (joined (serving (1 ∷ [])) 5 (codes "b") (1 ∷ []))
unfolding new_joining insert get discover Mailbox.is_leader Mailbox.leader_id next_node_id
    new_joining_node new_with new_from_node new_with_conf_state create_storage add_peer
    register_cluster
new_joining-first = refl

-- The second node joins when node 1 knows the first one as node 2.
new_joining-node_id_example :
    All (λ id. id < 2) (ids env ids_only silent (serving (1 ∷ [])) seeds) × (◌≡◌ {A = ℕ} 2 2)
new_joining-node_id_example =
    new_joining-node_id ids_only startup 10 silent nothing_sent parsed (serving (1 ∷ []))
      (serving (1 ∷ 2 ∷ [])) 5 6 (codes "b") (codes "c") seeds none none 0 0
      (joined (serving (1 ∷ [])) 5 (codes "b") (1 ∷ []))
      (joined (serving (1 ∷ 2 ∷ [])) 6 (codes "c") (1 ∷ [])) (λ a. refl) (omega arith, tt)
      new_joining-first
      (unfold new_joining insert get discover Mailbox.is_leader Mailbox.leader_id next_node_id
          new_joining_node new_with new_from_node new_with_conf_state create_storage add_peer
          register_cluster in
        refl)

new_joining-voters_example :
    (get_management_voters ids_only (joined (serving (1 ∷ [])) 5 (codes "b") (1 ∷ [])).0.runtime
      ≡ 1 ∷ [])
    × (get_management_voters ids_only (joined (serving (1 ∷ [])) 5 (codes "b") (2 ∷ [])).0.runtime
        ≡ 2 ∷ [])
unfolding discover
new_joining-voters_example =
    new_joining-voters ids_only startup 10 silent nothing_sent parsed 5
      (asked env ids_only silent (serving (1 ∷ []))) (codes "b") seeds none 0
      (joined (serving (1 ∷ [])) 5 (codes "b") (1 ∷ []))
      (joined (serving (1 ∷ [])) 5 (codes "b") (2 ∷ [])) new_joining-first
      (unfold new_joining_with_http insert get discover Mailbox.is_leader Mailbox.leader_id
          next_node_id new_from_node create_storage new_runtime new_single_node add_peer
          register_cluster in
        refl)
