-- ===== src/Management/Runtime/Voters.antt =====
-- src/management/runtime.rs, `run_event_observer`: the configurations with which the members of a new
-- sub-cluster of workflow runtimes start.
use raftoral.Prelude.{
  ℕ, ◌≡◌, ◌≢◌, refl, ap, sym, ◌∙◌, List, [], ◌∷◌, none, some, Bool, true, false, if◌then◌else◌,
  nat_beq, arith,
}
use raftoral.Prelude.Eq.{Text, nat_eq, beq_refl}
use raftoral.Prelude.HashMap.{get, get-insert}
use raftoral.Prelude.Result.{Result, ok, err, ok-injective, ◌>>=◌}
use raftoral.Prelude.Sets.{contains}
use raftoral.Raft.Types.{ConfState, GenericMessage}
use raftoral.Raft.ClusterRouter.{Mpsc, register_cluster}
use raftoral.Raft.Node.{Env, Node}
use raftoral.Raft.Node.Construction.{RaftNodeConfig, Startup, new_single_node, new_with_conf_state}
use raftoral.Raft.Node.Construction.Voters.{
  new_with_conf_state-conf_state, new_single_node-conf_state,
}
use raftoral.Raft.ProposalRouter.{ProposalRouter}
use raftoral.Workflow.Registry.{WorkflowRegistry}
use raftoral.Workflow.Runtime.{World}
use raftoral.Workflow.Runtime.Start.{
  NewRuntime, runtime_on, new_runtime, new_joining_node, workflow_sub_cluster,
}
use raftoral.Management.Event.{sub_cluster_created}
use raftoral.Management.StateMachine.{ManagementStateMachine}
use raftoral.Management.Runtime.{
  SubClusterRuntime, ManagementRuntime, Task, observe, store_runtime, sub_config,
}

module _ {env : Env} (startup : Startup env) (initial : env.machine.State)
    (transport : env.Transport) (registry : WorkflowRegistry World)
    (mpsc : Mpsc GenericMessage) where
  abbrev pub voters : NewRuntime (ProposalRouter env) → List ℕ
  voters r = r.proposal_router.node.cached_conf_state.voters

  on_node :
      (config : RaftNodeConfig) (node : Result Text (Node env))
      (r : NewRuntime (ProposalRouter env)) (ids : List ℕ)
      → ((n : Node env) → node ≡ ok n → n.cached_conf_state.voters ≡ ids)
      → (do n ← node; ok (runtime_on startup initial config registry n)) ≡ ok r
      → voters r ≡ ids
  on_node config (ok n) r ids known h = sym (ap voters (ok-injective h)) ∙ known n refl
  on_node config (err e) r ids known h = absurd (cc h)

  new_runtime-voters :
      (config : RaftNodeConfig) (r : NewRuntime (ProposalRouter env))
      → new_runtime startup initial config transport registry ≡ ok r
      → voters r ≡ config.node_id ∷ []
  unfolding new_runtime
  new_runtime-voters config r h =
      on_node config (new_single_node startup config transport initial) r _
        (λ n e. new_single_node-conf_state startup config transport initial n e) h

  new_joining_node-voters :
      (config : RaftNodeConfig) (ids : List ℕ) (r : NewRuntime (ProposalRouter env))
      → new_joining_node startup initial config transport ids registry ≡ ok r
      → voters r ≡ ids
  unfolding new_joining_node
  new_joining_node-voters config ids r h =
      let cs : ConfState = record { voters = ids; learners = [] } in
      on_node config (new_with_conf_state startup config transport initial cs) r _
        (λ n e.
          ap (λ c. c.voters)
            (new_with_conf_state-conf_state startup config transport initial cs n e))
        h

  abbrev pub workflows : SubClusterRuntime
  workflows = workflow_sub_cluster startup initial transport registry mpsc

  module _ {P : Type 0} where
    -- A runtime that is there after the registration, and was not before, is the one that was created.
    stored :
        (tx : mpsc.Sender) (cid : ℕ) (self : ManagementRuntime workflows P) (zero : Bool)
        (res : Result Text (NewRuntime (ProposalRouter env))) (r : NewRuntime (ProposalRouter env))
        → get cid self.sub_clusters ≡ none
        → get cid
            (if◌then◌else◌ {A = ManagementRuntime workflows P × List Task} zero
              (self, [])
              (store_runtime workflows cid
                (record self { cluster_router = register_cluster mpsc cid tx self.cluster_router })
                res)).0.sub_clusters
          ≡ some r
        → res ≡ ok r
    stored tx cid self true res r before h = absurd (cc (sym before ∙ h))
    stored tx cid self false (err e) r before h = absurd (cc (sym before ∙ h))
    stored tx cid self false (ok q) r before h = cc (
        sym (
          get-insert cid cid q self.sub_clusters
          ∙ ap (λ b. if b then some q else get cid self.sub_clusters) (beq_refl cid))
        ∙ h)

    -- When a sub-cluster of workflow runtimes is created with several members, the node of the first of
    -- them starts with itself as the only voter in the configuration that it caches, and the node of every other one with
    -- all the members as voters, where each did not host the sub-cluster before and can create its runtime:
    -- the members disagree on the configuration that they start from.
    pub observe-voters :
        (tx tx' : mpsc.Sender) (sm sm' : ManagementStateMachine) (leads leads' : Bool) (cid a b : ℕ)
        (ids : List ℕ) (first second : ManagementRuntime workflows P)
        (r r' : NewRuntime (ProposalRouter env))
        → first.node_id ≡ a
        → second.node_id ≡ b
        → a ≢ b
        → contains b ids ≡ true
        → get cid first.sub_clusters ≡ none
        → get cid second.sub_clusters ≡ none
        → get cid
            (observe workflows tx sm leads (sub_cluster_created cid (a ∷ ids)) first).0.sub_clusters
          ≡ some r
        → get cid
            (observe workflows tx' sm' leads'
              (sub_cluster_created cid (a ∷ ids))
              second).0.sub_clusters
          ≡ some r'
        → (voters r ≡ a ∷ []) × (voters r' ≡ a ∷ ids)
    unfolding observe contains
    observe-voters tx tx' sm sm' leads leads' cid a b ids first second r r' own other differ member
          new new' hosted hosted' =
        let is_own : nat_beq a first.node_id ≡ true = ground arith in
        let is_other : nat_beq a second.node_id ≡ false = ground arith in
        let is_member : contains second.node_id ids ≡ true =
          ap (λ n. contains n ids) other ∙ member in
        (
          new_runtime-voters (sub_config workflows first cid) r
                (stored tx cid first (nat_beq cid 0) _ r new (rw is_own at hosted))
              ∙ ap (λ n. n ∷ []) own,
          new_joining_node-voters (sub_config workflows second cid) (a ∷ ids) r' (
              stored tx' cid second (nat_beq cid 0) _ r' new'
                (rw (is_other, is_member) at hosted')),
        )
