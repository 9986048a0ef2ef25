-- ===== src/Workflow/Runtime/Start.antt =====
-- src/workflow/runtime.rs: the constructors of the runtime, and its reads of the state machine.
use raftoral.Prelude.{ℕ, List, [], Option}
use raftoral.Prelude.Eq.{Text}
use raftoral.Prelude.Result.{Result, ok, ◌>>=◌}
use raftoral.StateMachine.{Bytes}
use raftoral.Raft.Types.{GenericMessage}
use raftoral.Raft.ClusterRouter.{Mpsc}
use raftoral.Management.Runtime.{SubClusterRuntime}
use raftoral.Raft.Node.{Env, Node}
use raftoral.Raft.Node.Construction.{RaftNodeConfig, Startup, new_single_node, new_with_conf_state}
use raftoral.Raft.ProposalRouter
use raftoral.Raft.ProposalRouter.{ProposalRouter}
use raftoral.Workflow.Event.{WorkflowStatus}
use raftoral.Workflow.StateMachine
use raftoral.Workflow.Error.{WorkflowError}
use raftoral.Workflow.Registry.{WorkflowRegistry, WorkflowKey, BoxedWorkflowFunction, register}
use raftoral.Workflow.Runtime.{World, WorkflowRuntime}

-- The runtime that a constructor gives: its router, and the registry that it shares.
pub record NewRuntime (P : Type 0) : Type 0 where
  pub proposal_router : P
  pub registry : WorkflowRegistry World
  pub node_id : ℕ
  pub cluster_id : ℕ

-- The node's state machine starts as `initial`.
module _ {env : Env} (startup : Startup env) (initial : env.machine.State) where
  abbrev pub runtime_on :
      RaftNodeConfig → WorkflowRegistry World → Node env → NewRuntime (ProposalRouter env)
  runtime_on config registry node = record {
    proposal_router = ProposalRouter.new env node config.cluster_id config.node_id;
    registry = registry;
    node_id = config.node_id;
    cluster_id = config.cluster_id;
  }

  unfoldable pub new_runtime :
      RaftNodeConfig
      → env.Transport
      → WorkflowRegistry World
      → Result Text (NewRuntime (ProposalRouter env))
  unfolding new_single_node
  new_runtime config transport registry = do
    node ← new_single_node startup config transport initial
    ok (runtime_on config registry node)

  unfoldable pub new_joining_node :
      RaftNodeConfig
      → env.Transport
      → (initial_voters : List ℕ) → WorkflowRegistry World
      → Result Text (NewRuntime (ProposalRouter env))
  unfolding new_with_conf_state
  new_joining_node config transport initial_voters registry = do
    node ←
        new_with_conf_state startup config transport initial
          (record { voters = initial_voters; learners = [] })
    ok (runtime_on config registry node)

-- `SubClusterRuntime` for `WorkflowRuntime`, with the registry as the shared configuration.
abbrev pub workflow_sub_cluster :
    {env : Env}
    → Startup env
    → env.machine.State
    → env.Transport
    → WorkflowRegistry World
    → Mpsc GenericMessage
    → SubClusterRuntime
workflow_sub_cluster {env = env} startup initial transport shared_config mpsc = record {
  R = NewRuntime (ProposalRouter env);
  new_single_node = λ config. new_runtime startup initial config transport shared_config;
  new_joining_node =
      λ config voters. new_joining_node startup initial config transport voters shared_config;
  node_id = λ runtime. runtime.node_id;
  mpsc = mpsc;
}

-- `register_workflow_closure`, of a function that is boxed already.
abbrev pub register_workflow :
    (already_registered : Text)
    → WorkflowKey
    → BoxedWorkflowFunction World
    → WorkflowRuntime
    → WorkflowRuntime × Result WorkflowError (Unit {0})
register_workflow already_registered key function self =
    let (registry, r) = register World already_registered key function self.registry in
    (record self { registry = registry }, r)

unfoldable pub get_workflow_status : (workflow_id : Text) → World → Option WorkflowStatus
get_workflow_status workflow_id w = StateMachine.get_workflow_status w.replica workflow_id

unfoldable pub get_result : (workflow_id : Text) → World → Option Bytes
get_result workflow_id w = StateMachine.get_result w.replica workflow_id
