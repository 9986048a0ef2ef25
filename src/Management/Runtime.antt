-- ===== src/Management/Runtime.antt =====
-- src/management/runtime.rs: the runtimes of the sub-clusters that a node hosts, as it creates and drops
-- them on management events. The runtimes are a parameter, the trait `SubClusterRuntime` of
-- src/management/sub_cluster_runtime.rs.
pub mod Commands
pub mod Start
pub mod Hosting
pub mod Voters
pub mod Creation
pub mod Queries
mod Tests
use raftoral.Prelude.{
  ℕ, List, [], ◌∷◌, ◌++◌, Option, none, some, Bool, true, false, if◌then◌else◌, nat_beq, map,
}
use raftoral.Prelude.Eq.{Text, nat_eq}
use raftoral.Prelude.HashMap.{HashMap, get, insert, remove}
use raftoral.Prelude.Result.{Result, ok, err}
use raftoral.Prelude.Sets.{contains}
use raftoral.Raft.Types.{GenericMessage}
use raftoral.Raft.Node.Construction.{RaftNodeConfig, default_config}
use raftoral.Raft.ClusterRouter.{Mpsc, ClusterRouter, register_cluster}
use raftoral.Management.Event.{
  ManagementEvent, sub_cluster_created, sub_cluster_deleted, node_added_to_sub_cluster,
  node_removed_from_sub_cluster, metadata_updated, failed_node_detected,
}
use raftoral.Management.StateMachine.{
  ManagementStateMachine, SubClusterMetadata, get_sub_cluster, get_node_address,
}

-- The trait, by what the management runtime calls, and the channels of the mailboxes.
pub record SubClusterRuntime : Type 1 where
  pub R : Type 0
  pub new_single_node : RaftNodeConfig → Result Text R
  pub new_joining_node : RaftNodeConfig → (initial_voters : List ℕ) → Result Text R
  pub node_id : R → ℕ
  pub mpsc : Mpsc GenericMessage

-- A background task that the observer starts.
pub data Task : Type 0 where
  run_node : (cluster_id : ℕ) → Task
  add_node : (cluster_id node_id : ℕ) (address : Text) → Task
  handle_failed_node : (node_id : ℕ) → Task

abbrev pub is_first : ℕ → List ℕ → Bool
is_first node_id [] = false
is_first node_id (id ∷ ids) = nat_beq id node_id

abbrev pub add_task : (cluster_id node_id : ℕ) → Option Text → List Task
add_task cluster_id node_id none = []
add_task cluster_id node_id (some address) = add_node cluster_id node_id address ∷ []

module _ (sub : SubClusterRuntime) where
  -- `P` stands for the router of proposals.
  pub record ManagementRuntime (P : Type 0) : Type 0 where
    pub proposal_router : P
    pub cluster_router : ClusterRouter sub.mpsc
    pub sub_clusters : HashMap ℕ sub.R
    pub node_id : ℕ
    pub cluster_id : ℕ
    pub storage_path : Option Text

  abbrev pub create_runtime :
      RaftNodeConfig → (node_ids : List ℕ) → (is_first_node : Bool) → Result Text sub.R
  create_runtime config node_ids is_first_node =
      if is_first_node then sub.new_single_node config else sub.new_joining_node config node_ids

  module _ {P : Type 0} where
    abbrev pub sub_config : ManagementRuntime P → (cluster_id : ℕ) → RaftNodeConfig
    sub_config self cluster_id = record default_config {
      node_id = self.node_id;
      cluster_id = cluster_id;
      snapshot_interval = 100;
      storage_path = self.storage_path;
    }

    -- A runtime that was created is stored and its node runs in the background; an error is only logged.
    abbrev pub store_runtime :
        (cluster_id : ℕ) → ManagementRuntime P → Result Text sub.R → ManagementRuntime P × List Task
    store_runtime cluster_id self (err e) = (self, [])
    store_runtime cluster_id self (ok runtime) = (
      record self { sub_clusters = insert cluster_id runtime self.sub_clusters },
      run_node cluster_id ∷ [],
    )

    -- The cluster gets its mailbox before its runtime is created; the id 0 is refused.
    abbrev pub register_and_store :
        (mailbox_tx : sub.mpsc.Sender)
        → (cluster_id : ℕ) → ManagementRuntime P
        → Result Text sub.R
        → ManagementRuntime P × List Task
    register_and_store mailbox_tx cluster_id self runtime =
        if nat_beq cluster_id 0
        then (self, [])
        else store_runtime cluster_id
            (record self {
              cluster_router = register_cluster sub.mpsc cluster_id mailbox_tx self.cluster_router;
            })
            runtime

    abbrev pub join :
        (mailbox_tx : sub.mpsc.Sender)
        → (cluster_id : ℕ) → ManagementRuntime P
        → Option SubClusterMetadata
        → ManagementRuntime P × List Task
    join mailbox_tx cluster_id self none = (self, [])
    join mailbox_tx cluster_id self (some metadata) =
        register_and_store mailbox_tx cluster_id self
          (sub.new_joining_node (sub_config self cluster_id) metadata.node_ids)

    -- A node that was added: a member that hosts the cluster adds it to the configuration, and the node
    -- itself joins where it does not host the cluster.
    abbrev pub on_added :
        (mailbox_tx : sub.mpsc.Sender)
        → ManagementStateMachine
        → (cluster_id node_id : ℕ) → ManagementRuntime P
        → Option sub.R
        → ManagementRuntime P × List Task
    on_added mailbox_tx sm cluster_id node_id self (some sub_cluster) = (
      self,
      if nat_beq (sub.node_id sub_cluster) self.node_id
          then add_task cluster_id node_id (get_node_address sm node_id)
          else [],
    )
    on_added mailbox_tx sm cluster_id node_id self none =
        if nat_beq node_id self.node_id
        then join mailbox_tx cluster_id self (get_sub_cluster sm cluster_id)
        else (self, [])

    -- What the observer does on an event, with a new mailbox, the state machine that it reads, and whether
    -- this node leads; and the tasks that it starts.
    unfoldable pub observe :
        (mailbox_tx : sub.mpsc.Sender)
        → ManagementStateMachine
        → (leads : Bool) → ManagementEvent
        → ManagementRuntime P
        → ManagementRuntime P × List Task
    observe mailbox_tx sm leads (sub_cluster_created cluster_id node_ids) self =
        if contains self.node_id node_ids
        then register_and_store mailbox_tx cluster_id self
            (create_runtime (sub_config self cluster_id) node_ids (is_first self.node_id node_ids))
        else (self, [])
    observe mailbox_tx sm leads (node_added_to_sub_cluster cluster_id node_id) self =
        on_added mailbox_tx sm cluster_id node_id self (get cluster_id self.sub_clusters)
    observe mailbox_tx sm leads (node_removed_from_sub_cluster cluster_id node_id) self =
        if nat_beq node_id self.node_id
        then (record self { sub_clusters = remove cluster_id self.sub_clusters }, [])
        else (self, [])
    observe mailbox_tx sm leads (sub_cluster_deleted cluster_id) self =
        (record self { sub_clusters = remove cluster_id self.sub_clusters }, [])
    observe mailbox_tx sm leads (failed_node_detected node_id) self =
        (self, if leads then handle_failed_node node_id ∷ [] else [])
    observe mailbox_tx sm leads (metadata_updated cluster_id key value) self = (self, [])

    -- The events of one command, one after another.
    unfoldable pub observe_all :
        (mailbox_tx : sub.mpsc.Sender)
        → ManagementStateMachine
        → (leads : Bool) → List ManagementEvent
        → ManagementRuntime P
        → ManagementRuntime P × List Task
    unfolding observe
    observe_all mailbox_tx sm leads [] self = (self, [])
    observe_all mailbox_tx sm leads (event ∷ events) self =
        let (next, tasks) = observe mailbox_tx sm leads event self in
        let (last, later) = observe_all mailbox_tx sm leads events next in (last, tasks ++ later)

    abbrev pub get_sub_cluster_runtime : (cluster_id : ℕ) → ManagementRuntime P → Option sub.R
    get_sub_cluster_runtime cluster_id self = get cluster_id self.sub_clusters

    abbrev pub get_available_sub_clusters : ManagementRuntime P → List ℕ
    get_available_sub_clusters self = map (λ entry. entry.0) self.sub_clusters
