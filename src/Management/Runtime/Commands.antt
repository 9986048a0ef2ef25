-- ===== src/Management/Runtime/Commands.antt =====
-- src/management/runtime.rs: the operations that propose commands, and the actions of the cluster manager
-- that they lead to.
use raftoral.Prelude.{ℕ, List, [], ◌∷◌, ◌++◌, Option, none, some, true, false, map, filter_by}
use raftoral.Prelude.Eq.{Text, codes, nat_eq}
use raftoral.Prelude.Result.{Result, ok, err}
use raftoral.Prelude.Sets.{contains}
use raftoral.Raft.ProposalRouter.{ProposalError}
use raftoral.Raft.Schedule
use raftoral.Raft.Schedule.{Occurrence, applied, closed, timer, dropped, Timeline}
use raftoral.Management.Event.{ManagementEvent, sub_cluster_created}
use raftoral.Management.StateMachine.{
  ManagementStateMachine, ManagementCommand, ManagementError, create_sub_cluster,
  delete_sub_cluster, add_node_to_sub_cluster, remove_node_from_sub_cluster, set_metadata,
  delete_metadata, register_node_address, apply, get_all_sub_clusters,
}
use raftoral.Management.ClusterManager.{
  Float, ClusterManagerConfig, ClusterAction, add_node_to_cluster, create_cluster,
  remove_nodes_from_cluster, drain_cluster, destroy_cluster, draining_key, decide_node_placement,
  decide_splits, decide_rebalancing, decide_consolidation,
}

abbrev pub ManagementWorld : Type 0
ManagementWorld = Timeline ManagementStateMachine ManagementCommand

abbrev pub Propose : Type 0
Propose = ManagementCommand → ManagementWorld → ManagementWorld × Result ProposalError ℕ

-- `none` where the answer never comes.
abbrev pub Answer : Type 0 → Type 0
Answer A = ManagementWorld × Option (Result Text A)

-- The commands that an action is proposed as, one after another.
unfoldable pub commands_of : ClusterAction → List ManagementCommand
commands_of (add_node_to_cluster cluster_id node_id) =
    add_node_to_sub_cluster cluster_id node_id ∷ []
commands_of (create_cluster node_ids) = create_sub_cluster node_ids ∷ []
commands_of (remove_nodes_from_cluster cluster_id node_ids) =
    map (remove_node_from_sub_cluster cluster_id) node_ids
commands_of (drain_cluster cluster_id) = set_metadata cluster_id draining_key (codes "true") ∷ []
commands_of (destroy_cluster cluster_id) = delete_sub_cluster cluster_id ∷ []

abbrev pub created_id : List ManagementEvent → Option ℕ
created_id [] = none
created_id (sub_cluster_created cluster_id node_ids ∷ events) = some cluster_id
created_id (event ∷ events) = created_id events

-- `for action in actions`, whose proposals are not waited for and may fail.
unfoldable pub propose_all : Propose → List ManagementCommand → ManagementWorld → ManagementWorld
propose_all propose [] w = w
propose_all propose (command ∷ commands) w = propose_all propose commands (propose command w).0

unfoldable pub execute_actions : Propose → List ClusterAction → ManagementWorld → ManagementWorld
unfolding propose_all commands_of
execute_actions propose [] w = w
execute_actions propose (action ∷ actions) w =
    execute_actions propose actions (propose_all propose (commands_of action) w)

abbrev pub published : Result ManagementError (List ManagementEvent) → List ManagementEvent
published (ok events) = events
published (err e) = []

-- The wait of `create_sub_cluster`, for which a lag is an error as well.
unfoldable pub await_created :
    (seen : Option ℕ)
    → (replica : ManagementStateMachine) → List (Occurrence ManagementCommand)
    → Answer ℕ
await_created (some cluster_id) replica future =
    (record { replica = replica; future = future }, some (ok cluster_id))
await_created none replica [] = (record { replica = replica; future = [] }, none)
await_created none replica (applied sync_id true command ∷ future) =
    let (after, r) = apply replica command in await_created (created_id (published r)) after future
await_created none replica (applied sync_id false command ∷ future) = (
  record { replica = (apply replica command).0; future = future },
  some (err (codes "Event channel closed")),
)
await_created none replica (closed ∷ future) =
    (record { replica = replica; future = future }, some (err (codes "Event channel closed")))
await_created none replica (timer ∷ future) = await_created none replica future
await_created none replica (dropped sync_id ∷ future) = await_created none replica future

-- `error_text` prints an error of the router, `machine_text` one of the state machine.
module _ (error_text : ProposalError → Text) (machine_text : ManagementError → Text)
    (propose : Propose) where
  abbrev pub answered :
      ManagementWorld × Option (Result ProposalError (Unit {0})) → Answer (Unit {0})
  answered (w, none) = (w, none)
  answered (w, some (ok a)) = (w, some (ok tt))
  answered (w, some (err e)) = (w, some (err (error_text e)))

  unfoldable pub propose_and_wait : ManagementCommand → ManagementWorld → Answer (Unit {0})
  unfolding Schedule.propose_and_wait
  propose_and_wait command w =
      answered (Schedule.propose_and_wait apply machine_text propose command w)

  -- The subscription is older than the proposal, so the events from `w` on are read after the reply.
  abbrev pub after_reply : ManagementWorld → Answer (Unit {0}) → Answer ℕ
  after_reply w (last, none) = (last, none)
  after_reply w (last, some (err e)) = (last, some (err e))
  after_reply w (last, some (ok a)) = (last, (await_created none w.replica w.future).1)

  abbrev pub submitted : ManagementWorld × Result ProposalError ℕ → Answer ℕ
  submitted (w, err e) = (w, some (err (error_text e)))
  submitted (w, ok id) =
      after_reply w (answered (Schedule.await_reply apply machine_text id w.replica w.future))

  unfoldable pub create : (node_ids : List ℕ) → ManagementWorld → Answer ℕ
  create node_ids w = submitted (propose (create_sub_cluster node_ids) w)

  abbrev pub delete : (cluster_id : ℕ) → ManagementWorld → Answer (Unit {0})
  unfolding propose_and_wait
  delete cluster_id = propose_and_wait (delete_sub_cluster cluster_id)

  abbrev pub put_metadata :
      (cluster_id : ℕ) (key value : Text) → ManagementWorld → Answer (Unit {0})
  unfolding propose_and_wait
  put_metadata cluster_id key value = propose_and_wait (set_metadata cluster_id key value)

  abbrev pub remove_metadata : (cluster_id : ℕ) (key : Text) → ManagementWorld → Answer (Unit {0})
  unfolding propose_and_wait
  remove_metadata cluster_id key = propose_and_wait (delete_metadata cluster_id key)

  -- After a success the cluster manager decides on the state that this node has then.
  abbrev pub then_decide :
      (ManagementStateMachine → List ClusterAction) → Answer (Unit {0}) → Answer (Unit {0})
  unfolding execute_actions
  then_decide decide (w, some (ok a)) = (execute_actions propose (decide w.replica) w, some (ok a))
  then_decide decide (w, some (err e)) = (w, some (err e))
  then_decide decide (w, none) = (w, none)

  module _ (float : Float) (config : ClusterManagerConfig float.F64) where
    unfoldable pub add_to_sub_cluster :
        (cluster_id node_id : ℕ) → ManagementWorld → Answer (Unit {0})
    unfolding propose_and_wait
    add_to_sub_cluster cluster_id node_id w =
        then_decide (decide_splits config)
          (propose_and_wait (add_node_to_sub_cluster cluster_id node_id) w)

    unfoldable pub remove_from_sub_cluster :
        (cluster_id node_id : ℕ) → ManagementWorld → Answer (Unit {0})
    unfolding propose_and_wait
    remove_from_sub_cluster cluster_id node_id w =
        then_decide (decide_consolidation float config)
          (propose_and_wait (remove_node_from_sub_cluster cluster_id node_id) w)

    -- The background tasks after a node was added to, or removed from, the management cluster.
    unfoldable pub place_node : (node_id : ℕ) → ManagementWorld → ManagementWorld
    unfolding execute_actions
    place_node node_id w =
        execute_actions propose (decide_node_placement config w.replica node_id) w

    unfoldable pub rebalance : (node_id : ℕ) → ManagementWorld → ManagementWorld
    unfolding execute_actions
    rebalance node_id w = execute_actions propose (decide_rebalancing config w.replica node_id) w

    -- The configuration change is proposed by the router; its task starts where that succeeds.
    unfoldable pub add_node :
        (change : ManagementWorld → ManagementWorld × Result Text ℕ)
        → (node_id : ℕ) (address : Text) → ManagementWorld
        → ManagementWorld × Result Text ℕ
    add_node change node_id address w = change (propose (register_node_address node_id address) w).0

    abbrev pub affected_clusters : (node_id : ℕ) → ManagementStateMachine → List ℕ
    affected_clusters node_id state =
        map (λ entry. entry.0)
          (filter_by (λ entry. contains node_id entry.1.node_ids) (get_all_sub_clusters state))

    abbrev pub continue_with :
        (ManagementWorld → ManagementWorld × Option (Unit {0}))
        → Answer (Unit {0})
        → ManagementWorld × Option (Unit {0})
    continue_with next (w, none) = (w, none)
    continue_with next (w, some r) = next w

    -- A failure to remove the node from one sub-cluster is only logged.
    unfoldable pub remove_from_all :
        (node_id : ℕ) → List ℕ → ManagementWorld → ManagementWorld × Option (Unit {0})
    unfolding remove_from_sub_cluster
    remove_from_all node_id [] w = (w, some tt)
    remove_from_all node_id (cluster_id ∷ clusters) w =
        continue_with (remove_from_all node_id clusters)
          (remove_from_sub_cluster cluster_id node_id w)

    abbrev pub removed : ManagementWorld × Result Text ℕ → Answer (Unit {0})
    removed (w, ok rx) = (w, some (ok tt))
    removed (w, err e) =
        (w, some (err (codes "Failed to remove node from management cluster: " ++ e)))

    abbrev pub then_remove :
        (change : ManagementWorld → ManagementWorld × Result Text ℕ)
        → ManagementWorld × Option (Unit {0})
        → Answer (Unit {0})
    then_remove change (w, none) = (w, none)
    then_remove change (w, some a) = removed (change w)

    unfoldable pub handle_failed :
        (change : ManagementWorld → ManagementWorld × Result Text ℕ)
        → (node_id : ℕ) → ManagementWorld
        → Answer (Unit {0})
    unfolding remove_from_all
    handle_failed change node_id w =
        then_remove change (remove_from_all node_id (affected_clusters node_id w.replica) w)
