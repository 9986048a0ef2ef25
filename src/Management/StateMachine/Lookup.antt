-- ===== src/Management/StateMachine/Lookup.antt =====
-- What a change of one sub-cluster through `get_mut` shows at each key.
use raftoral.Prelude.{
  ℕ, ◌≡◌, Option, none, some, arith, refl, if◌then◌else◌, nat_beq_iff, Bool, true, false, [], ◌∷◌,
}
use raftoral.Prelude.Eq.{nat_eq, ◌==◌}
use raftoral.Prelude.HashMap.{get, get-insert}
use raftoral.Management.Event.{ManagementEvent}
use raftoral.Management.StateMachine.{
  ManagementStateMachine, SubClusterMetadata, get_sub_cluster, with_sub_cluster,
  sub_cluster_not_found,
}
use raftoral.Prelude.Result.{ok, err}

abbrev pub map_option : {A B : Type 0} → (A → B) → Option A → Option B
map_option f none = none
map_option f (some a) = some (f a)

abbrev pub is_some : {A : Type 0} → Option A → Bool
is_some none = false
is_some (some a) = true

module _ (s : ManagementStateMachine) (cid : ℕ) (f : SubClusterMetadata → SubClusterMetadata)
    (e : ManagementEvent) where
  pub get-with_sub_cluster :
      (k : ℕ)
      → get_sub_cluster (with_sub_cluster s cid f e).0 k
        ≡ (if cid == k then map_option f (get_sub_cluster s k) else get_sub_cluster s k)
  unfolding get_sub_cluster with_sub_cluster
  get-with_sub_cluster k = go (get cid s.sub_clusters) refl
    where
      go :
          (o : Option SubClusterMetadata)
          → get cid s.sub_clusters ≡ o
          → get_sub_cluster (with_sub_cluster s cid f e).0 k
            ≡ (if cid == k then map_option f (get_sub_cluster s k) else get_sub_cluster s k)
      go none h = ground (arith, nat_beq_iff cid k)
      go (some m) h = ground (arith, nat_beq_iff cid k, get-insert cid k (f m) s.sub_clusters)

  pub next_cluster_id-with_sub_cluster :
      (with_sub_cluster s cid f e).0.next_cluster_id ≡ s.next_cluster_id
  unfolding with_sub_cluster
  next_cluster_id-with_sub_cluster = ground arith

  -- A change of one sub-cluster adds no cluster.
  pub with_sub_cluster-mem :
      (k : ℕ) (m : SubClusterMetadata)
      → get_sub_cluster (with_sub_cluster s cid f e).0 k ≡ some m
      → (old : SubClusterMetadata) × (get_sub_cluster s k ≡ some old)
  with_sub_cluster-mem k m h = go (get_sub_cluster s k) refl
    where
      go :
          (o : Option SubClusterMetadata)
          → get_sub_cluster s k ≡ o
          → (old : SubClusterMetadata) × (get_sub_cluster s k ≡ some old)
      go none p = absurd (ground (arith, get-with_sub_cluster k))
      go (some old) p = (old, p)

  pub node_addresses-with_sub_cluster :
      (with_sub_cluster s cid f e).0.node_addresses ≡ s.node_addresses
  unfolding with_sub_cluster
  node_addresses-with_sub_cluster = ground arith

  pub result-with_sub_cluster :
      (with_sub_cluster s cid f e).1
      ≡ (if is_some (get_sub_cluster s cid) then ok (e ∷ []) else err (sub_cluster_not_found cid))
  unfolding with_sub_cluster get_sub_cluster
  result-with_sub_cluster = ground arith
