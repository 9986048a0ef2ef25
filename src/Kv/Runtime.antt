-- ===== src/Kv/Runtime.antt =====
-- src/kv/runtime.rs: the key-value store as a replicated service.
use raftoral.Prelude.{ℕ, List, [], ◌∷◌, ◌++◌, Option, none, some}
use raftoral.Prelude.Eq.{Text}
use raftoral.Prelude.HashMap.{HashMap}
use raftoral.Prelude.Result.{Result, ok, map_err, ◌>>=◌}
use raftoral.Raft.Types.{GenericMessage}
use raftoral.Raft.ClusterRouter.{Mpsc}
use raftoral.Management.Runtime.{SubClusterRuntime}
use raftoral.Raft.Node.{Env, Node}
use raftoral.Raft.Node.Construction.{RaftNodeConfig, Startup, new_single_node, new_with_conf_state}
use raftoral.Raft.ProposalRouter
use raftoral.Raft.ProposalRouter.{ProposalRouter, ProposalError}
use raftoral.Raft.Schedule.{Timeline, propose_and_wait}
use raftoral.Kv.{KvCommand, KvStateMachine, set, delete, apply, get_value, keys}

-- `proposal_router` is the router of the node, or what stands for it.
pub record KvRuntime (P : Type 0) : Type 0 where
  pub proposal_router : P
  pub node_id : ℕ
  pub cluster_id : ℕ

-- The constructors, over a node whose state machine starts as `initial`.
module _ {env : Env} (startup : Startup env) (initial : env.machine.State) where
  abbrev pub runtime_on : RaftNodeConfig → Node env → KvRuntime (ProposalRouter env)
  runtime_on config node = record {
    proposal_router = ProposalRouter.new env node config.cluster_id config.node_id;
    node_id = config.node_id;
    cluster_id = config.cluster_id;
  }

  unfoldable pub new_runtime :
      RaftNodeConfig → env.Transport → Result Text (KvRuntime (ProposalRouter env))
  unfolding new_single_node
  new_runtime config transport = do
    node ← new_single_node startup config transport initial
    ok (runtime_on config node)

  unfoldable pub new_joining_node :
      RaftNodeConfig
      → env.Transport
      → (initial_voters : List ℕ) → Result Text (KvRuntime (ProposalRouter env))
  unfolding new_with_conf_state
  new_joining_node config transport initial_voters = do
    node ←
        new_with_conf_state startup config transport initial
          (record { voters = initial_voters; learners = [] })
    ok (runtime_on config node)

abbrev pub KvWorld : Type 0
KvWorld = Timeline KvStateMachine KvCommand

-- `none` where the answer never comes.
abbrev pub Answer : Type 0
Answer = KvWorld × Option (Result Text (Unit {0}))

module _ (error_text : ProposalError → Text)
    (self : KvRuntime (KvCommand → KvWorld → KvWorld × Result ProposalError ℕ)) where
  abbrev pub answered : KvWorld × Option (Result ProposalError (Unit {0})) → Answer
  answered (w, none) = (w, none)
  answered (w, some r) = (w, some (map_err error_text r))

  unfoldable pub set_key : (key value : Text) → KvWorld → Answer
  unfolding propose_and_wait
  set_key key value w =
      answered (propose_and_wait apply (λ e. e) self.proposal_router (set key value) w)

  unfoldable pub delete_key : (key : Text) → KvWorld → Answer
  unfolding propose_and_wait
  delete_key key w = answered (propose_and_wait apply (λ e. e) self.proposal_router (delete key) w)

unfoldable pub get_key : (key : Text) → KvWorld → Option Text
get_key key w = get_value w.replica key

abbrev pub all_keys : KvWorld → List Text
all_keys w = keys w.replica

abbrev pub entry_of : Text → Option Text → HashMap Text Text
entry_of key none = []
entry_of key (some value) = (key, value) ∷ []

abbrev pub entries_of : KvStateMachine → List Text → HashMap Text Text
entries_of sm [] = []
entries_of sm (key ∷ rest) = entry_of key (get_value sm key) ++ entries_of sm rest

unfoldable pub get_all : KvWorld → HashMap Text Text
get_all w = entries_of w.replica (keys w.replica)

-- `impl SubClusterRuntime for KvRuntime`
abbrev pub kv_sub_cluster :
    {env : Env}
    → Startup env
    → env.machine.State
    → env.Transport
    → Mpsc GenericMessage
    → SubClusterRuntime
kv_sub_cluster {env = env} startup initial transport mpsc = record {
  R = KvRuntime (ProposalRouter env);
  new_single_node = λ config. new_runtime startup initial config transport;
  new_joining_node = λ config voters. new_joining_node startup initial config transport voters;
  node_id = λ runtime. runtime.node_id;
  mpsc = mpsc;
}
