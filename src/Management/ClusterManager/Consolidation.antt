-- ===== src/Management/ClusterManager/Consolidation.antt =====
-- Which clusters are destroyed, and which one is drained.
use mathlib.Core.List.{Mem}
use raftoral.Prelude.{◌+◌, ◌≡◌, ◌≢◌, ◌≤◌, ◌<◌, ◌⊎◌, List, [], ◌∷◌, true, false, length, is_empty}
use raftoral.Management.ClusterManager.{
  Float, ClusterManagerConfig, ClusterAction, destroy_cluster, drain_cluster, Cluster, is_draining,
  size, non_draining, total_nodes,
}
use raftoral.Management.ClusterManager.NonDraining.{Active}

-- The destroy actions name the clusters that drain and hold no node, each once and in order.
pub data Destroys : List Cluster → List ClusterAction → Type 0 where
  done : Destroys [] []
  keep :
      {c : Cluster} {rest : List Cluster} {actions : List ClusterAction}
      → (is_draining c.1 ≡ false) ⊎ (is_empty c.1.node_ids ≡ false)
      → Destroys rest actions
      → Destroys (c ∷ rest) actions
  destroy :
      {c : Cluster} {rest : List Cluster} {actions : List ClusterAction}
      → is_draining c.1 ≡ true
      → c.1.node_ids ≡ []
      → Destroys rest actions
      → Destroys (c ∷ rest) (destroy_cluster c.0 ∷ actions)

module _ (float : Float) (config : ClusterManagerConfig float.F64) where
  -- There are nodes, the clusters outnumber the minimum, and the ratio passes the threshold.
  abbrev pub IsCrowded : List Cluster → Type 0
  IsCrowded clusters =
      (total_nodes clusters ≢ 0)
      × (config.min_cluster_count < length clusters)
      × (float.gt
            (float.div (float.of_usize (length clusters)) (float.of_usize (total_nodes clusters)))
            config.drain_threshold
          ≡ true)

  -- `c` is a smallest of the active clusters, and enough active ones remain without it.
  abbrev pub Drainable : List Cluster → Cluster → Type 0
  Drainable clusters c =
      Mem c clusters
      × (is_draining c.1 ≡ false)
      × Active (λ d. size c ≤ size d) clusters
      × (config.min_cluster_count + 1 ≤ length (non_draining clusters))

  abbrev pub Drains : List Cluster → List ClusterAction → Type 0
  Drains clusters actions =
      ((actions ≡ [])
        × ((¬ IsCrowded clusters) ⊎ (length (non_draining clusters) ≤ config.min_cluster_count)))
      ⊎ ((c : Cluster) × (actions ≡ drain_cluster c.0 ∷ [])
          × IsCrowded clusters
          × Drainable clusters c)
