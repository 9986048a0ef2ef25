-- ===== src/Management/Runtime/Start.antt =====
-- src/management/runtime.rs: the constructors of the management runtime.
use raftoral.Prelude.{ℕ, List, [], ◌∷◌}
use raftoral.Prelude.Eq.{Text}
use raftoral.Prelude.Result.{Result, ok, ◌>>=◌}
use raftoral.Raft.Types.{ConfState}
use raftoral.Raft.ClusterRouter.{ClusterRouter}
use raftoral.Raft.Node.{Env, Node}
use raftoral.Raft.Node.Construction.{RaftNodeConfig, Startup, new_single_node, new_with_conf_state}
use raftoral.Raft.ProposalRouter
use raftoral.Raft.ProposalRouter.{ProposalRouter}
use raftoral.Management.Runtime.{SubClusterRuntime, ManagementRuntime}

-- The node's state machine starts as `initial`.
module _ (sub : SubClusterRuntime) {env : Env} (startup : Startup env) (initial : env.machine.State)
    (transport : env.Transport) (cluster_router : ClusterRouter sub.mpsc) where
  abbrev pub Runtime : Type 0
  Runtime = ManagementRuntime sub (ProposalRouter env)

  unfoldable pub new_from_node : RaftNodeConfig → Node env → Runtime
  new_from_node config node = record {
    proposal_router = ProposalRouter.new env node config.cluster_id config.node_id;
    cluster_router = cluster_router;
    sub_clusters = [];
    node_id = config.node_id;
    cluster_id = config.cluster_id;
    storage_path = config.storage_path;
  }

  unfoldable pub new_runtime : RaftNodeConfig → Result Text Runtime
  unfolding new_single_node new_from_node
  new_runtime config = do
    node ← new_single_node startup config transport initial
    ok (new_from_node config node)

  unfoldable pub new_with : RaftNodeConfig → ConfState → Result Text Runtime
  unfolding new_with_conf_state new_from_node
  new_with config conf_state = do
    node ← new_with_conf_state startup config transport initial conf_state
    ok (new_from_node config node)

  unfoldable pub new_joining_node : RaftNodeConfig → (initial_voters : List ℕ) → Result Text Runtime
  unfolding new_with
  new_joining_node config initial_voters =
      new_with config (record { voters = initial_voters; learners = [] })

  -- The node itself is a learner, beside the voters that there are.
  unfoldable pub new_joining_learner :
      RaftNodeConfig → (existing_voters : List ℕ) → Result Text Runtime
  unfolding new_with
  new_joining_learner config existing_voters =
      new_with config (record { voters = existing_voters; learners = config.node_id ∷ [] })
