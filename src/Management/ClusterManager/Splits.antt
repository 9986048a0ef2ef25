-- ===== src/Management/ClusterManager/Splits.antt =====
-- Which clusters are split, and how.
use mathlib.Core.List.{Perm}
use raftoral.Prelude.{
  ℕ, zero, suc, ◌≡◌, ◌≤◌, ◌<◌, ◌⊎◌, inl, inr, List, [], ◌∷◌, ◌++◌, true, false, arith, refl, leb,
  All, length, take, drop, take-append-drop, Bool-cases, leb→le,
}
use raftoral.Prelude.Sort.{ascending, ascending-Decides, sort_by-perm, sort_by-IsSorted, IsSorted}
use raftoral.Management.StateMachine.{ManagementStateMachine}
use raftoral.Management.ClusterManager.{
  ClusterManagerConfig, ClusterAction, create_cluster, remove_nodes_from_cluster, Cluster,
  is_draining, splits_of, decide_splits, sort_ids,
}

abbrev pub min_ℕ : ℕ → ℕ → ℕ
min_ℕ zero n = zero
min_ℕ (suc m) zero = zero
min_ℕ (suc m) (suc n) = suc (min_ℕ m n)

-- `moved` is the `k` lowest of `ids`, in order, and `kept` is the rest.
pub record IsLowest (k : ℕ) (ids moved kept : List ℕ) : Type 0 where
  pub same : Perm (moved ++ kept) ids
  pub lower : All (λ m. All (λ r. m ≤ r) kept) moved
  pub sorted : IsSorted (λ a b. a ≤ b) moved
  pub count : length moved ≡ min_ℕ k (length (moved ++ kept))

-- The actions of `decide_splits` over the clusters: an active cluster that has reached the maximal
-- size gives its lowest nodes to a new cluster and drops just these, and no other cluster acts.
pub data Splits {F64 : Type 0} (config : ClusterManagerConfig F64)
    : List Cluster → List ClusterAction → Type 0 where
  done : Splits config [] []
  skip :
      {c : Cluster} {rest : List Cluster} {actions : List ClusterAction}
      → (is_draining c.1 ≡ true) ⊎ (length c.1.node_ids < config.max_cluster_size)
      → Splits config rest actions
      → Splits config (c ∷ rest) actions
  split :
      {c : Cluster} {rest : List Cluster} {actions : List ClusterAction} {moved kept : List ℕ}
      → is_draining c.1 ≡ false
      → config.max_cluster_size ≤ length c.1.node_ids
      → IsLowest config.split_size c.1.node_ids moved kept
      → Splits config rest actions
      → Splits config
          (c ∷ rest)
          (create_cluster moved ∷ remove_nodes_from_cluster c.0 moved ∷ actions)

length-take : (k : ℕ) (xs : List ℕ) → length (take k xs) ≡ min_ℕ k (length xs)
length-take zero xs = refl
length-take (suc k) [] = refl
length-take (suc k) (x ∷ xs) = omega (arith, length-take k xs)

All-take : (P : ℕ → Type 0) (k : ℕ) (xs : List ℕ) → All P xs → All P (take k xs)
All-take P zero xs h = tt
All-take P (suc k) [] h = tt
All-take P (suc k) (x ∷ xs) h = (h.0, All-take P k xs h.1)

All-drop : (P : ℕ → Type 0) (k : ℕ) (xs : List ℕ) → All P xs → All P (drop k xs)
All-drop P zero xs h = h
All-drop P (suc k) [] h = tt
All-drop P (suc k) (x ∷ xs) h = All-drop P k xs h.1

IsSorted-take :
    (k : ℕ) (xs : List ℕ) → IsSorted (λ a b. a ≤ b) xs → IsSorted (λ a b. a ≤ b) (take k xs)
IsSorted-take zero xs h = tt
IsSorted-take (suc k) [] h = tt
IsSorted-take (suc k) (x ∷ xs) h = (All-take (λ b. x ≤ b) k xs h.0, IsSorted-take k xs h.1)

take-lower-drop :
    (k : ℕ) (xs : List ℕ)
    → IsSorted (λ a b. a ≤ b) xs
    → All (λ m. All (λ r. m ≤ r) (drop k xs)) (take k xs)
take-lower-drop zero xs h = tt
take-lower-drop (suc k) [] h = tt
take-lower-drop (suc k) (x ∷ xs) h = (All-drop (λ b. x ≤ b) k xs h.0, take-lower-drop k xs h.1)

take-IsLowest :
    (k : ℕ) (ids : List ℕ) → IsLowest k ids (take k (sort_ids ids)) (drop k (sort_ids ids))
take-IsLowest k ids =
    let sorted = sort_by-IsSorted (ascending-Decides (λ (id : ℕ). id)) ids in
    record {
      same = rw take-append-drop (sort_by-perm (ascending (λ id. id)) ids);
      lower = take-lower-drop k (sort_ids ids) sorted;
      sorted = IsSorted-take k (sort_ids ids) sorted;
      count = rw take-append-drop (length-take k (sort_ids ids));
    }

module _ {F64 : Type 0} (config : ClusterManagerConfig F64) where
  splits_of-Splits : (clusters : List Cluster) → Splits config clusters (splits_of config clusters)
  unfolding splits_of
  splits_of-Splits [] = done
  splits_of-Splits (c ∷ rest) = elim (Bool-cases (is_draining c.1)) [
    | inl e ↦ rw e (skip (inl e) (splits_of-Splits rest))
    | inr e ↦ elim (Bool-cases (leb config.max_cluster_size (length c.1.node_ids))) [
      | inl f ↦
          rw (e, f)
            (split e (leb→le _ _ f) (take-IsLowest config.split_size c.1.node_ids)
              (splits_of-Splits rest))
      | inr f ↦ rw (e, f) (skip (inr (ground arith)) (splits_of-Splits rest))
    ]
  ]

  -- The split decisions act on the active clusters that have reached the maximal size, in the order
  -- of the clusters: the `split_size` lowest nodes (all of them, if there are fewer) go to a new
  -- cluster and leave the old one, so no node is lost and none is in both.
  pub decide_splits-Splits :
      (s : ManagementStateMachine) → Splits config s.sub_clusters (decide_splits config s)
  unfolding decide_splits
  decide_splits-Splits s = splits_of-Splits s.sub_clusters
