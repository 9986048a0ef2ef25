-- ===== src/Management/Tests.antt =====
-- The theorems on the sub-clusters at concrete states, with a concrete encoding.
use raftoral.Prelude.{
  ℕ, ◌≡◌, ◌⊎◌, ◌≤◌, ◌/◌, ltb, refl, ap, sym, subst, List, [], ◌∷◌, Option, none, some, true, arith,
}
use raftoral.Prelude.Eq.{Text, text_eq, nat_eq, codes}
use raftoral.Prelude.HashMap.{HashMap, get}
use raftoral.Management.ClusterManager.NonDraining.{Active}
use raftoral.Prelude.Result.{Result, ok, err, ok-injective}
use raftoral.StateMachine.{Bytes, Serde}
use raftoral.Management.StateMachine.{
  ManagementStateMachine, SubClusterMetadata, ManagementCommand, create_sub_cluster,
  delete_sub_cluster, add_node_to_sub_cluster, new, apply, apply_all, snapshot, restore,
  get_sub_cluster,
}
use raftoral.Management.StateMachine.Ids.{created_ids, created_ids-apply_all, count_creates}
use raftoral.Management.StateMachine.Members.{members, step_members, members-apply}
use raftoral.Management.StateMachine.Snapshots.{SameState, SameOption, apply_all-restore}
use raftoral.Management.ClusterManager.{
  Float, ClusterManagerConfig, Cluster, size, create_cluster, add_node_to_cluster,
  decide_node_placement, decide_splits, decide_rebalancing,
}
use raftoral.Management.ClusterManager.Placement.{decide_node_placement_lem, Joins, IsFull}
use raftoral.Management.ClusterManager.Splits.{Splits, decide_splits-Splits}
use raftoral.Management.ClusterManager.Rebalancing.{IsSource, Adds, decide_rebalancing_lem}

abbrev commands : List ManagementCommand
commands =
    create_sub_cluster (1 ∷ 2 ∷ [])
    ∷ delete_sub_cluster 1
    ∷ add_node_to_sub_cluster 1 3
    ∷ create_sub_cluster (3 ∷ [])
    ∷ []

-- A state with one cluster.
abbrev one_cluster : ManagementStateMachine
one_cluster = record {
  sub_clusters = (1, record { node_ids = 4 ∷ 2 ∷ 5 ∷ []; metadata = [] }) ∷ [];
  next_cluster_id = 2;
  node_addresses = [];
}

created_ids-apply_all_example : created_ids (apply_all new commands).1 ≡ 1 ∷ 2 ∷ []
unfolding count_creates
created_ids-apply_all_example = created_ids-apply_all new commands (omega arith)

members-apply_example : members (apply one_cluster (add_node_to_sub_cluster 1 7)).0 1 7 ≡ some true
unfolding members step_members get_sub_cluster get
members-apply_example = members-apply one_cluster (add_node_to_sub_cluster 1 7) 1 7

-- An encoding of the states without addresses whose one cluster, if any, has no metadata.
abbrev encode_cluster : (next k : ℕ) → List ℕ → HashMap Text Text → Result Text Bytes
encode_cluster next k ns [] = ok (next ∷ k ∷ ns)
encode_cluster next k ns (_ ∷ _) = err (codes "metadata")

abbrev encode_parts : (next : ℕ) → HashMap ℕ SubClusterMetadata → HashMap ℕ Text → Result Text Bytes
encode_parts next [] [] = ok (next ∷ [])
encode_parts next ((k, m) ∷ []) [] = encode_cluster next k m.node_ids m.metadata
encode_parts next (_ ∷ _ ∷ _) [] = err (codes "two clusters")
encode_parts next _ (_ ∷ _) = err (codes "addresses")

abbrev encode : ManagementStateMachine → Result Text Bytes
encode s = encode_parts s.next_cluster_id s.sub_clusters s.node_addresses

abbrev decode : Bytes → ManagementStateMachine
decode [] = new
decode (n ∷ []) = record { sub_clusters = []; next_cluster_id = n; node_addresses = [] }
decode (n ∷ k ∷ ns) = record {
  sub_clusters = (k, record { node_ids = ns; metadata = [] }) ∷ [];
  next_cluster_id = n;
  node_addresses = [];
}

decode-encode_cluster :
    (next k : ℕ) (ns : List ℕ) (metadata : HashMap Text Text) (bytes : Bytes)
    → encode_cluster next k ns metadata ≡ ok bytes
    → decode bytes ≡ record {
      sub_clusters = (k, record { node_ids = ns; metadata = metadata }) ∷ [];
      next_cluster_id = next;
      node_addresses = [];
    }
decode-encode_cluster next k ns [] bytes h = ap decode (sym (ok-injective h))
decode-encode_cluster next k ns (_ ∷ _) bytes h = ground arith

decode-encode_parts :
    (next : ℕ) (clusters : HashMap ℕ SubClusterMetadata) (addresses : HashMap ℕ Text)
    (bytes : Bytes)
    → encode_parts next clusters addresses ≡ ok bytes
    → decode bytes
      ≡ record { sub_clusters = clusters; next_cluster_id = next; node_addresses = addresses }
decode-encode_parts next [] [] bytes h = ap decode (sym (ok-injective h))
decode-encode_parts next ((k, m) ∷ []) [] bytes h =
    decode-encode_cluster next k m.node_ids m.metadata bytes h
decode-encode_parts next (_ ∷ _ ∷ _) [] bytes h = ground arith
decode-encode_parts next [] (_ ∷ _) bytes h = ground arith
decode-encode_parts next (_ ∷ _) (_ ∷ _) bytes h = ground arith

SameOption-refl : (o : Option SubClusterMetadata) → SameOption o o
SameOption-refl none = tt
SameOption-refl (some m) = record { nodes = refl; entries = λ key. refl }

SameState-refl : (s t : ManagementStateMachine) → t ≡ s → SameState s t
SameState-refl s t h = subst (SameState s) (sym h) (record {
  next = refl;
  clusters = λ k. SameOption-refl (get_sub_cluster s k);
  addresses = λ n. refl;
})

abbrev serde : Serde ManagementStateMachine SameState
serde = record {
  to_vec = encode;
  from_slice = λ bytes. ok (decode bytes);
  from_slice-to_vec = λ s bytes h. (
    decode bytes,
    refl,
    SameState-refl s (decode bytes)
        (decode-encode_parts s.next_cluster_id s.sub_clusters s.node_addresses bytes h),
  );
}

abbrev bytes : Bytes
bytes = 2 ∷ 1 ∷ 4 ∷ 2 ∷ 5 ∷ []

apply_all-restore_example :
    ((restore serde new bytes).1 ≡ ok tt)
    × SameState one_cluster (restore serde new bytes).0
    × ((cs : List ManagementCommand)
        → (apply_all (restore serde new bytes).0 cs).1 ≡ (apply_all one_cluster cs).1)
apply_all-restore_example = apply_all-restore serde one_cluster new bytes (unfold snapshot in refl)

-- Numbers in place of `f64`, which rounds down.
abbrev float : Float
float = record { F64 = ℕ; of_usize = λ n. n; div = λ a b. a / b; gt = λ a b. ltb b a }

abbrev config : ClusterManagerConfig ℕ
config = record {
  target_cluster_size = 3;
  min_cluster_size = 2;
  max_cluster_size = 3;
  split_size = 1;
  drain_threshold = 0;
  min_cluster_count = 1;
}

decide_node_placement_lem_example :
    ((c : Cluster) × (decide_node_placement config one_cluster 8 ≡ add_node_to_cluster c.0 8 ∷ [])
      × Joins config one_cluster c)
    ⊎ ((decide_node_placement config one_cluster 8 ≡ create_cluster (8 ∷ []) ∷ [])
        × IsFull config one_cluster)
decide_node_placement_lem_example = decide_node_placement_lem config one_cluster 8

decide_splits-Splits_example :
    Splits config one_cluster.sub_clusters (decide_splits config one_cluster)
decide_splits-Splits_example = decide_splits-Splits config one_cluster

decide_rebalancing_lem_example :
    ((c : Cluster) × (n : ℕ) × IsSource config one_cluster.sub_clusters c n
      × Adds config n one_cluster.sub_clusters (decide_rebalancing config one_cluster 9))
    ⊎ ((decide_rebalancing config one_cluster 9 ≡ [])
        × Active (λ d. size d ≤ config.target_cluster_size) one_cluster.sub_clusters)
decide_rebalancing_lem_example = decide_rebalancing_lem config one_cluster 9
