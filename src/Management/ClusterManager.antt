-- ===== src/Management/ClusterManager.antt =====
-- src/management/cluster_manager.rs: the policy that decides the topology of the sub-clusters.
pub mod NonDraining
pub mod Placement
pub mod Splits
pub mod Consolidation
pub mod Rebalancing
use raftoral.Prelude.{
  ℕ, zero, suc, ◌+◌, List, [], ◌∷◌, ◌++◌, Option, none, some, Bool, true, false, not, ◌&&◌,
  if◌then◌else◌, ltb, leb, nat_beq, length, is_empty, filter_by, take, first, map,
}
use raftoral.Prelude.Eq.{Text, text_eq, codes, ◌==◌}
use raftoral.Prelude.HashMap.{get}
use raftoral.Prelude.Sort.{sort_by, ascending, descending}
use raftoral.Management.StateMachine.{
  ManagementStateMachine, SubClusterMetadata, get_all_sub_clusters,
}

-- The operations of `f64` that the policy uses.
pub record Float : Type 1 where
  pub F64 : Type 0
  pub of_usize : ℕ → F64
  pub div : F64 → F64 → F64
  pub gt : F64 → F64 → Bool

pub record ClusterManagerConfig (F64 : Type 0) : Type 0 where
  pub target_cluster_size : ℕ
  pub min_cluster_size : ℕ
  pub max_cluster_size : ℕ
  pub split_size : ℕ
  pub drain_threshold : F64
  pub min_cluster_count : ℕ

pub data ClusterAction : Type 0 where
  add_node_to_cluster : (cluster_id node_id : ℕ) → ClusterAction
  create_cluster : (node_ids : List ℕ) → ClusterAction
  remove_nodes_from_cluster : (cluster_id : ℕ) (node_ids : List ℕ) → ClusterAction
  drain_cluster : (cluster_id : ℕ) → ClusterAction
  destroy_cluster : (cluster_id : ℕ) → ClusterAction

-- An entry of the map of sub-clusters.
abbrev pub Cluster : Type 0
Cluster = ℕ × SubClusterMetadata

abbrev pub draining_key : Text
draining_key = codes "draining"

unfoldable pub is_draining : SubClusterMetadata → Bool
is_draining metadata = elim (get draining_key metadata.metadata) [
  | none ↦ false
  | some v ↦ v == codes "true"
]

-- `meta.node_ids.len()` of an entry.
abbrev pub size : Cluster → ℕ
size cluster = length cluster.1.node_ids

abbrev pub sort_ids : List ℕ → List ℕ
sort_ids ids = sort_by (ascending (λ id. id)) ids

unfoldable pub non_draining : List Cluster → List Cluster
non_draining clusters = filter_by (λ c. not (is_draining c.1)) clusters

module _ {F64 : Type 0} (config : ClusterManagerConfig F64) where
  -- From the smallest eligible cluster, if there is one.
  place_in : List Cluster → ℕ → List ClusterAction
  place_in [] node_id = create_cluster (node_id ∷ []) ∷ []
  place_in ((cluster_id, metadata) ∷ _) node_id =
      if ltb (length metadata.node_ids) config.target_cluster_size
      then add_node_to_cluster cluster_id node_id ∷ []
      else create_cluster (node_id ∷ []) ∷ []

  unfoldable pub decide_node_placement : ManagementStateMachine → ℕ → List ClusterAction
  unfolding place_in
  decide_node_placement state node_id =
      let clusters = get_all_sub_clusters state in
      if is_empty clusters
      then create_cluster (node_id ∷ []) ∷ []
      else place_in (sort_by (ascending size) (non_draining clusters)) node_id

  -- The loop over the clusters.
  splits_of : List Cluster → List ClusterAction
  splits_of [] = []
  splits_of ((cluster_id, metadata) ∷ clusters) =
      let actions = splits_of clusters in
      if is_draining metadata
      then actions
      else if leb config.max_cluster_size (length metadata.node_ids)
      then (let nodes_to_move = take config.split_size (sort_ids metadata.node_ids) in
          create_cluster nodes_to_move
          ∷ remove_nodes_from_cluster cluster_id nodes_to_move
          ∷ actions)
      else actions

  unfoldable pub decide_splits : ManagementStateMachine → List ClusterAction
  unfolding splits_of
  decide_splits state = splits_of (get_all_sub_clusters state)

  abbrev pub is_undersized : Cluster → Bool
  is_undersized c = not (is_draining c.1) && ltb (size c) config.min_cluster_size

  abbrev pub is_oversized : Cluster → Bool
  is_oversized c = not (is_draining c.1) && ltb config.target_cluster_size (size c)

  -- The first node of the first source, if there is one.
  first_node : List Cluster → Option ℕ
  first_node [] = none
  first_node ((_, metadata) ∷ _) = first metadata.node_ids

  -- The loop over the undersized clusters.
  rebalance_from : List Cluster → List Cluster → List ClusterAction
  rebalance_from oversized [] = []
  rebalance_from oversized ((cluster_id, _) ∷ undersized) =
      let actions = rebalance_from oversized undersized in
      elim (first_node oversized) [
        | none ↦ actions
        | some node_id ↦ add_node_to_cluster cluster_id node_id ∷ actions
      ]

  unfoldable pub decide_rebalancing : ManagementStateMachine → ℕ → List ClusterAction
  unfolding rebalance_from first_node
  decide_rebalancing state removed_node_id =
      let clusters = get_all_sub_clusters state in
      rebalance_from (sort_by (descending size) (filter_by is_oversized clusters))
        (filter_by is_undersized clusters)

-- `clusters.values().map(|m| m.node_ids.len()).sum()`
unfoldable pub total_nodes : List Cluster → ℕ
total_nodes [] = 0
total_nodes (c ∷ clusters) = size c + total_nodes clusters

-- The destroy actions for the empty drained clusters.
unfoldable pub destroys_of : List Cluster → List ClusterAction
destroys_of [] = []
destroys_of ((cluster_id, metadata) ∷ clusters) =
    let actions = destroys_of clusters in
    if is_draining metadata && is_empty metadata.node_ids
    then destroy_cluster cluster_id ∷ actions
    else actions

module _ (float : Float) (config : ClusterManagerConfig float.F64) where
  -- The drain action for the smallest cluster that is not draining.
  drain_first : List Cluster → List ClusterAction
  drain_first [] = []
  drain_first ((cluster_id, _) ∷ _) = drain_cluster cluster_id ∷ []

  unfoldable pub drains_of : List Cluster → List ClusterAction
  unfolding drain_first
  drains_of clusters =
      if nat_beq (total_nodes clusters) 0
      then []
      else if leb (length clusters) config.min_cluster_count
      then []
      else if float.gt
          (float.div (float.of_usize (length clusters)) (float.of_usize (total_nodes clusters)))
          config.drain_threshold
      then (let remaining = sort_by (ascending size) (non_draining clusters) in
          if ltb config.min_cluster_count (length remaining) then drain_first remaining else [])
      else []

  unfoldable pub decide_consolidation : ManagementStateMachine → List ClusterAction
  decide_consolidation state =
      let clusters = get_all_sub_clusters state in destroys_of clusters ++ drains_of clusters
