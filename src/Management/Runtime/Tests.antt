-- ===== src/Management/Runtime/Tests.antt =====
-- The theorems on the management runtime at concrete nodes.
use raftoral.Prelude.{ℕ, ◌≡◌, refl, List, [], ◌∷◌, none, some, true, Option, arith}
use raftoral.Prelude.Eq.{codes, nat_eq}
use raftoral.Prelude.HashMap.{get, insert}
use raftoral.Prelude.Result.{Result, ok, err}
use raftoral.Prelude.Sets.{contains}
use raftoral.Raft.Types.{GenericMessage}
use raftoral.Raft.ClusterRouter.{Mpsc}
use raftoral.Raft.Node.Sample.{env, node}
use raftoral.Raft.Node.Construction.{Startup, create_storage, new_single_node, new_with_conf_state}
use raftoral.Raft.ProposalRouter.{ProposalError, ProposalRouter}
use raftoral.Raft.Schedule.{applied}
use raftoral.Workflow.Registry.{WorkflowRegistry}
use raftoral.Workflow.Runtime.{World}
use raftoral.Workflow.Runtime.Start.{NewRuntime, new_runtime, new_joining_node}
use raftoral.Management.Event.{sub_cluster_created}
use raftoral.Management.StateMachine.{
  ManagementStateMachine, ManagementCommand, create_sub_cluster, apply, new, get_sub_cluster,
}
use raftoral.Management.StateMachine.Ids.{IsAssigned-new}
use raftoral.Management.StateMachine.Members.{members}
use raftoral.Management.Runtime.{SubClusterRuntime, ManagementRuntime, observe}
use raftoral.Management.Runtime.Commands.{ManagementWorld, create}
use raftoral.Management.Runtime.Creation.{create-other}
use raftoral.Management.Runtime.Hosting.{IsHosting, apply_and_observe, apply_and_observe-IsHosting}
use raftoral.Management.Runtime.Hosting.Events.{IsStarting}
use raftoral.Management.Runtime.Voters.{workflows, voters, observe-voters}

-- A sender is a number.
abbrev mailboxes : Mpsc GenericMessage
mailboxes = record {
  Channels = List ℕ;
  Sender = ℕ;
  send = λ sender message channels. (sender ∷ channels, ok tt);
}

-- Runtimes that are the ids of their nodes.
abbrev ids_only : SubClusterRuntime
ids_only = record {
  R = ℕ;
  new_single_node = λ config. ok config.node_id;
  new_joining_node = λ config voters. ok config.node_id;
  node_id = λ r. r;
  mpsc = mailboxes;
}

abbrev manager : ManagementRuntime ids_only ℕ
manager = record {
  proposal_router = 0;
  cluster_router = record { routes = [] };
  sub_clusters = [];
  node_id = 1;
  cluster_id = 0;
  storage_path = none;
}

abbrev created : ManagementStateMachine × ManagementRuntime ids_only ℕ
created = apply_and_observe ids_only 10 true (create_sub_cluster (1 ∷ 2 ∷ [])) (new, manager)

apply_and_observe-IsHosting_example : IsHosting ids_only created.0 created.1
apply_and_observe-IsHosting_example =
    apply_and_observe-IsHosting ids_only 10 true (create_sub_cluster (1 ∷ 2 ∷ [])) new manager
      (unfold IsStarting in
        (λ config. (config.node_id, refl), λ config voters. (config.node_id, refl)))
      IsAssigned-new (unfold IsHosting members get_sub_cluster get in λ c. refl)

abbrev startup : Startup env
startup = record {
  cluster_directory = λ path id. path;
  open_database = λ path. err (codes "no file system");
  mem_storage = λ conf_state. node.store;
  raw_node_new = λ config store. ok 0;
}

abbrev no_workflows : WorkflowRegistry World
no_workflows = record { workflows = [] }

abbrev workflow_manager :
    (node_id : ℕ) → ManagementRuntime (workflows startup 10 [] no_workflows mailboxes) ℕ
workflow_manager node_id = record {
  proposal_router = 0;
  cluster_router = record { routes = [] };
  sub_clusters = [];
  node_id = node_id;
  cluster_id = 0;
  storage_path = none;
}

-- What a member hosts after the creation of the sub-cluster 4 with the nodes 1 and 2.
abbrev hosted : (node_id : ℕ) → Option (NewRuntime (ProposalRouter env))
hosted node_id =
    get 4
      (observe (workflows startup 10 [] no_workflows mailboxes) 10 new true
        (sub_cluster_created 4 (1 ∷ 2 ∷ [])) (workflow_manager node_id)).0.sub_clusters

abbrev started_with : (node_id : ℕ) → List ℕ → NewRuntime (ProposalRouter env)
started_with node_id ids = record {
  proposal_router = record {
    node = record node {
      node_id = node_id;
      cluster_id = 4;
      snapshot_interval = 100;
      failure_detection_timeout = 30000;
      committed_index = 0;
      pending_proposals = [];
      follower_progress = [];
      cached_conf_state = record { voters = ids; learners = [] };
    };
    cluster_id = 4;
    leader_id = none;
    node_id = node_id;
  };
  registry = no_workflows;
  node_id = node_id;
  cluster_id = 4;
}

hosted-first : hosted 1 ≡ some (started_with 1 (1 ∷ []))
unfolding observe contains get insert new_runtime new_single_node create_storage
hosted-first = refl

hosted-second : hosted 2 ≡ some (started_with 2 (1 ∷ 2 ∷ []))
unfolding observe contains get insert new_joining_node new_with_conf_state create_storage
hosted-second = refl

observe-voters_example :
    (voters startup 10 [] no_workflows mailboxes (started_with 1 (1 ∷ [])) ≡ 1 ∷ [])
    × (voters startup 10 [] no_workflows mailboxes (started_with 2 (1 ∷ 2 ∷ [])) ≡ 1 ∷ 2 ∷ [])
observe-voters_example =
    observe-voters startup 10 [] no_workflows mailboxes 10 10 new new true true 4 1 2 (2 ∷ [])
      (workflow_manager 1) (workflow_manager 2) (started_with 1 (1 ∷ []))
      (started_with 2 (1 ∷ 2 ∷ [])) refl refl (λ e. absurd (omega arith)) (unfold contains in refl)
      (unfold get in refl) (unfold get in refl) hosted-first hosted-second

-- Every proposal is committed at once under the id 5, behind the sub-cluster of another node.
abbrev behind_another :
    ManagementCommand → ManagementWorld → ManagementWorld × Result ProposalError ℕ
behind_another command w = (
  record w {
    future = applied 6 true (create_sub_cluster (8 ∷ [])) ∷ applied 5 true command ∷ w.future;
  },
  ok 5,
)

abbrev empty : ManagementWorld
empty = record { replica = new; future = [] }

create-other_example : create (λ e. []) (λ e. []) behind_another (1 ∷ 2 ∷ []) empty ≡ (
  record {
    replica =
        (apply (apply new (create_sub_cluster (8 ∷ []))).0 (create_sub_cluster (1 ∷ 2 ∷ []))).0;
    future = [];
  },
  some (ok 1),
)
create-other_example =
    create-other (λ e. []) (λ e. []) behind_another (1 ∷ 2 ∷ []) (8 ∷ []) empty
      (behind_another (create_sub_cluster (1 ∷ 2 ∷ [])) empty).0 5 6 [] refl refl
      (λ e. absurd (omega arith))
