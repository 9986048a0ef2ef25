-- ===== src/Management/ClusterManager/Rebalancing.antt =====
-- Which clusters get a node when one has left, and from where.
use mathlib.Core.List.{Mem}
use raftoral.Prelude.{
  ℕ, ◌≡◌, ◌≤◌, ◌<◌, ◌⊎◌, inl, inr, List, [], ◌∷◌, true, false, arith, refl, sym, subst, ltb, All,
  All-map, length, first, filter_by, some, Bool-cases, ltb→lt,
}
use raftoral.Prelude.Sort.{sort_by, descending, descending-Decides, sort_by-first, sort_by-nil}
use raftoral.Prelude.Filter.{mem-filter_by, All-of-filter}
use raftoral.Management.StateMachine.{ManagementStateMachine}
use raftoral.Management.ClusterManager.{
  ClusterManagerConfig, ClusterAction, add_node_to_cluster, Cluster, is_draining, size,
  is_undersized, is_oversized, rebalance_from, first_node, decide_rebalancing,
}
use raftoral.Management.ClusterManager.NonDraining.{Active}

first-some : (xs : List ℕ) → 0 < length xs → (n : ℕ) × (first xs ≡ some n)
first-some [] h = absurd (omega arith)
first-some (x ∷ xs) h = (x, refl)

module _ {F64 : Type 0} (config : ClusterManagerConfig F64) where
  -- Node `n` is added to each active cluster below the minimal size, in order, and to no other.
  pub data Adds (n : ℕ) : List Cluster → List ClusterAction → Type 0 where
    done : Adds n [] []
    skip :
        {c : Cluster} {rest : List Cluster} {actions : List ClusterAction}
        → (is_draining c.1 ≡ true) ⊎ (config.min_cluster_size ≤ size c)
        → Adds n rest actions
        → Adds n (c ∷ rest) actions
    add :
        {c : Cluster} {rest : List Cluster} {actions : List ClusterAction}
        → is_draining c.1 ≡ false
        → size c < config.min_cluster_size
        → Adds n rest actions
        → Adds n (c ∷ rest) (add_node_to_cluster c.0 n ∷ actions)

  -- `n` is the first node of `c`, a largest active cluster, which is above the target size.
  abbrev pub IsSource : List Cluster → Cluster → ℕ → Type 0
  IsSource clusters c n =
      Mem c clusters
      × (is_draining c.1 ≡ false)
      × (config.target_cluster_size < size c)
      × Active (λ d. size d ≤ size c) clusters
      × (first c.1.node_ids ≡ some n)

  rebalance-Adds :
      (n : ℕ) (oversized clusters : List Cluster)
      → first_node config oversized ≡ some n
      → Adds n clusters
          (rebalance_from config oversized (filter_by (is_undersized config) clusters))
  unfolding rebalance_from
  rebalance-Adds n oversized [] e = done
  rebalance-Adds n oversized (c ∷ rest) e = elim (Bool-cases (is_draining c.1)) [
    | inl d ↦ rw d (skip (inl d) (rebalance-Adds n oversized rest e))
    | inr d ↦ elim (Bool-cases (ltb (size c) config.min_cluster_size)) [
      | inl f ↦
          rw (d, f)
            (rw (e, rebalance_from) (add d (ltb→lt _ _ f) (rebalance-Adds n oversized rest e)))
      | inr f ↦ rw (d, f) (skip (inr (ground arith)) (rebalance-Adds n oversized rest e))
    ]
  ]

  rebalance-nil : (undersized : List Cluster) → rebalance_from config [] undersized ≡ []
  unfolding rebalance_from first_node
  rebalance-nil [] = refl
  rebalance-nil (c ∷ rest) = rebalance-nil rest

  oversized_lem :
      (d : Cluster)
      → is_oversized config d ≡ true
      → (is_draining d.1 ≡ false) × (config.target_cluster_size < size d)
  oversized_lem d h = (ground arith, ground arith)

  within :
      (d : Cluster)
      → is_draining d.1 ≡ false
      → ¬ (is_oversized config d ≡ true)
      → size d ≤ config.target_cluster_size
  within d active never = ground arith

  at_most :
      (d c : Cluster)
      → config.target_cluster_size < size c
      → is_draining d.1 ≡ false
      → (is_oversized config d ≡ true → size d ≤ size c)
      → size d ≤ size c
  at_most d c above active bound = ground arith

  abbrev Rebalanced : List Cluster → List ClusterAction → Type 0
  Rebalanced clusters actions =
      ((c : Cluster) × (n : ℕ) × IsSource clusters c n × Adds n clusters actions)
      ⊎ ((actions ≡ []) × Active (λ d. size d ≤ config.target_cluster_size) clusters)

  rebalance-Rebalanced :
      (clusters sorted : List Cluster)
      → sort_by (descending size) (filter_by (is_oversized config) clusters) ≡ sorted
      → Rebalanced clusters
          (rebalance_from config sorted (filter_by (is_undersized config) clusters))
  rebalance-Rebalanced clusters [] e =
      let none_pass : All (λ d. ⊥) (filter_by (is_oversized config) clusters) =
        subst (All (λ d. ⊥)) (sym (sort_by-nil (descending-Decides size) _ e)) tt in
      inr (
        rebalance-nil _,
        All-map (λ d. is_oversized config d ≡ true → ⊥)
            (λ d. is_draining d.1 ≡ false → size d ≤ config.target_cluster_size)
            (λ d never active. within d active never) clusters
            (All-of-filter (is_oversized config) (λ d. ⊥) clusters none_pass),
      )
  rebalance-Rebalanced clusters (c ∷ rest) e =
      let (passes, largest) = sort_by-first (descending-Decides size) _ c rest e in
      let (listed, over) = mem-filter_by (is_oversized config) clusters passes in
      let (active, above) = oversized_lem c over in
      let (n, found) = first-some c.1.node_ids (omega arith) in
      inl (
        c,
        n,
        (
          listed,
          active,
          above,
          All-map (λ d. is_oversized config d ≡ true → size d ≤ size c)
              (λ d. is_draining d.1 ≡ false → size d ≤ size c)
              (λ d bound here. at_most d c above here bound) clusters
              (All-of-filter (is_oversized config) (λ d. size d ≤ size c) clusters largest),
          found,
        ),
        rebalance-Adds n (c ∷ rest) clusters (unfold first_node in found),
      )

  -- Rebalancing gives each active cluster below the minimal size the same node, the first one of a
  -- largest active cluster above the target size; it acts on no other cluster, and it does nothing
  -- if no active cluster is above the target size. It never removes the node from its source.
  pub decide_rebalancing_lem :
      (s : ManagementStateMachine) (removed : ℕ)
      → ((c : Cluster) × (n : ℕ) × IsSource s.sub_clusters c n
          × Adds n s.sub_clusters (decide_rebalancing config s removed))
        ⊎ ((decide_rebalancing config s removed ≡ [])
            × Active (λ d. size d ≤ config.target_cluster_size) s.sub_clusters)
  unfolding decide_rebalancing
  decide_rebalancing_lem s removed = rebalance-Rebalanced s.sub_clusters _ refl
