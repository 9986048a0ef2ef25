-- ===== src/Management/ClusterManager/Placement.antt =====
-- Where a new node goes.
use mathlib.Core.List.{Mem}
use raftoral.Prelude.{
  ℕ, ◌≡◌, ◌≤◌, ◌<◌, ◌⊎◌, inl, inr, List, [], ◌∷◌, false, arith, refl, ltb, All, All-map, is_empty,
  Bool-cases, ltb→lt,
}
use raftoral.Prelude.Sort.{sort_by, ascending}
use raftoral.Prelude.Filter.{All-of-empty}
use raftoral.Management.StateMachine.{ManagementStateMachine}
use raftoral.Management.ClusterManager.{
  ClusterManagerConfig, ClusterAction, add_node_to_cluster, create_cluster, Cluster, is_draining,
  size, non_draining, place_in, decide_node_placement,
}
use raftoral.Management.ClusterManager.NonDraining.{smallest, none-Active}

-- The node joins a cluster of the state that is not draining and below the target size, and no
-- cluster that is not draining is smaller.
abbrev pub Joins :
    {F64 : Type 0} → ClusterManagerConfig F64 → ManagementStateMachine → Cluster → Type 0
Joins config s c =
    Mem c s.sub_clusters
    × (is_draining c.1 ≡ false)
    × (size c < config.target_cluster_size)
    × All (λ d. is_draining d.1 ≡ false → size c ≤ size d) s.sub_clusters

-- Every cluster that is not draining has the target size.
abbrev pub IsFull : {F64 : Type 0} → ClusterManagerConfig F64 → ManagementStateMachine → Type 0
IsFull config s =
    All (λ d. is_draining d.1 ≡ false → config.target_cluster_size ≤ size d) s.sub_clusters

module _ {F64 : Type 0} (config : ClusterManagerConfig F64) (s : ManagementStateMachine)
    (n : ℕ) where
  abbrev Placed : List ClusterAction → Type 0
  Placed actions =
      ((c : Cluster) × (actions ≡ add_node_to_cluster c.0 n ∷ []) × Joins config s c)
      ⊎ ((actions ≡ create_cluster (n ∷ []) ∷ []) × IsFull config s)

  -- The smallest of the clusters that are not draining, or none of them.
  place_in-Placed :
      (sorted : List Cluster)
      → sort_by (ascending size) (non_draining s.sub_clusters) ≡ sorted
      → Placed (place_in config sorted n)
  unfolding place_in
  place_in-Placed [] e = inr (refl, none-Active s.sub_clusters _ e)
  place_in-Placed (c ∷ rest) e =
      let (listed, active, least) = smallest s.sub_clusters c rest e in
      elim (Bool-cases (ltb (size c) config.target_cluster_size)) [
        | inl below ↦ rw below (inl (c, refl, (listed, active, ltb→lt _ _ below, least)))
        | inr full ↦ rw full (
            inr (
              refl,
              All-map (λ d. is_draining d.1 ≡ false → size c ≤ size d)
                  (λ d. is_draining d.1 ≡ false → config.target_cluster_size ≤ size d)
                  (λ d small here. ground (arith, small here)) s.sub_clusters least,
            ))
      ]

  -- A new node gets one action: it joins a smallest cluster that is not draining, if that one is
  -- below the target size, and otherwise every such cluster has the target size and the node gets a
  -- cluster of its own.
  pub decide_node_placement_lem :
      ((c : Cluster) × (decide_node_placement config s n ≡ add_node_to_cluster c.0 n ∷ [])
        × Joins config s c)
      ⊎ ((decide_node_placement config s n ≡ create_cluster (n ∷ []) ∷ []) × IsFull config s)
  unfolding decide_node_placement
  decide_node_placement_lem = elim (Bool-cases (is_empty s.sub_clusters)) [
    | inl e ↦ rw e (inr (refl, All-of-empty _ s.sub_clusters e))
    | inr e ↦ rw e (place_in-Placed _ refl)
  ]
