-- ===== src/Management/StateMachine/Ids.antt =====
-- The cluster ids that `apply` assigns: in sequence from 1, 0 being reserved.
use raftoral.Prelude.{
  ℕ, zero, suc, ◌+◌, ◌≤◌, ◌<◌, ◌≡◌, some, List, [], ◌∷◌, arith, refl, nat_beq_iff, Bool, true,
  false, if◌then◌else◌,
}
use raftoral.Prelude.Eq.{nat_eq}
use raftoral.Prelude.HashMap.{get, get-insert, get-remove}
use raftoral.Management.Event.{ManagementEvent, sub_cluster_created}
use raftoral.Management.StateMachine.{
  ManagementStateMachine, ManagementCommand, SubClusterMetadata, create_sub_cluster,
  delete_sub_cluster, add_node_to_sub_cluster, remove_node_from_sub_cluster, set_metadata,
  delete_metadata, register_node_address, apply, apply_all, get_sub_cluster, with_sub_cluster, new,
  publish, u32_mod,
}
use raftoral.Management.StateMachine.Lookup.{with_sub_cluster-mem, next_cluster_id-with_sub_cluster}

-- Every cluster's id was assigned: it is at least 1 and below the next one.
pub record IsAssigned (s : ManagementStateMachine) : Type 0 where
  pub next_pos : 1 ≤ s.next_cluster_id
  pub assigned :
      (k : ℕ) (m : SubClusterMetadata)
      → get_sub_cluster s k ≡ some m
      → (1 ≤ k) × (k < s.next_cluster_id)

pub IsAssigned-new : IsAssigned new
unfolding get_sub_cluster get
IsAssigned-new = record { next_pos = omega arith; assigned = λ k m h. ground arith }

kept :
    (s : ManagementStateMachine) (cid : ℕ) (f : SubClusterMetadata → SubClusterMetadata)
    (e : ManagementEvent)
    → IsAssigned s
    → IsAssigned (with_sub_cluster s cid f e).0
kept s cid f e h = record {
  next_pos = rw next_cluster_id-with_sub_cluster h.next_pos;
  assigned = λ k m found.
      let (old, was) = with_sub_cluster-mem s cid f e k m found in
      rw next_cluster_id-with_sub_cluster (h.assigned k old was);
}

-- A command keeps the assigned ids in range, as long as the 32-bit counter does not wrap.
pub apply-IsAssigned :
    (s : ManagementStateMachine) (c : ManagementCommand)
    → s.next_cluster_id + 1 < u32_mod
    → IsAssigned s
    → IsAssigned (apply s c).0
unfolding apply get_sub_cluster
apply-IsAssigned s (create_sub_cluster ns) room h = record {
  next_pos = omega arith;
  assigned = λ k m e. ground (
    arith,
    nat_beq_iff s.next_cluster_id k,
    h.assigned k m,
    h.next_pos,
    get-insert s.next_cluster_id k (record { node_ids = ns; metadata = [] }) s.sub_clusters,
  );
}
apply-IsAssigned s (delete_sub_cluster cid) room h = record {
  next_pos = h.next_pos;
  assigned =
      λ k m e. ground (arith, nat_beq_iff cid k, h.assigned k m, get-remove cid k s.sub_clusters);
}
apply-IsAssigned s (add_node_to_sub_cluster cid n) room h = kept s cid _ _ h
apply-IsAssigned s (remove_node_from_sub_cluster cid n) room h = kept s cid _ _ h
apply-IsAssigned s (set_metadata cid key v) room h = kept s cid _ _ h
apply-IsAssigned s (delete_metadata cid key) room h = kept s cid _ _ h
apply-IsAssigned s (register_node_address n a) room h = record {
  next_pos = h.next_pos;
  assigned = h.assigned;
}

unfoldable pub count_creates : List ManagementCommand → ℕ
count_creates [] = 0
count_creates (create_sub_cluster _ ∷ cs) = suc (count_creates cs)
count_creates (_ ∷ cs) = count_creates cs

abbrev is_create : ManagementCommand → Bool
is_create (create_sub_cluster _) = true
is_create _ = false

-- The ids of the clusters that the events report as created.
pub created_ids : List ManagementEvent → List ℕ
created_ids [] = []
created_ids (sub_cluster_created cid _ ∷ es) = cid ∷ created_ids es
created_ids (_ ∷ es) = created_ids es

-- `n` numbers in a row, from `a`.
abbrev pub seq : ℕ → ℕ → List ℕ
seq a zero = []
seq a (suc n) = a ∷ seq (a + 1) n

seq_next : (a n : ℕ) → seq a (n + 1) ≡ a ∷ seq (a + 1) n
seq_next a n = ground arith

created_ids-publish :
    (s : ManagementStateMachine) (c : ManagementCommand) (later : List ManagementEvent)
    → created_ids (publish (apply s c).1 later)
      ≡ (if is_create c then s.next_cluster_id ∷ created_ids later else created_ids later)
unfolding created_ids apply with_sub_cluster
created_ids-publish s (create_sub_cluster ns) later = refl
created_ids-publish s c later = ground arith

next_cluster_id-apply :
    (s : ManagementStateMachine) (c : ManagementCommand)
    → s.next_cluster_id + 1 < u32_mod
    → (apply s c).0.next_cluster_id
      ≡ (if is_create c then s.next_cluster_id + 1 else s.next_cluster_id)
unfolding apply with_sub_cluster
next_cluster_id-apply s (create_sub_cluster ns) room = omega arith
next_cluster_id-apply s c room = ground arith

count_creates-cons :
    (c : ManagementCommand) (cs : List ManagementCommand)
    → count_creates (c ∷ cs) ≡ (if is_create c then count_creates cs + 1 else count_creates cs)
unfolding count_creates
count_creates-cons (create_sub_cluster ns) cs = omega arith
count_creates-cons c cs = refl

-- Where the next id, the number of create commands and one more stay below 2^32, the clusters that a
-- run of commands creates get the ids `next`, `next + 1`, ... in order, one for each create command,
-- whatever is deleted or fails between.
pub created_ids-apply_all :
    (s : ManagementStateMachine) (cs : List ManagementCommand)
    → s.next_cluster_id + count_creates cs + 1 < u32_mod
    → created_ids (apply_all s cs).1 ≡ seq s.next_cluster_id (count_creates cs)
unfolding apply_all
created_ids-apply_all s [] room = unfold created_ids count_creates in refl
created_ids-apply_all s (c ∷ cs) room = ground (
  arith,
  created_ids-publish s c (apply_all (apply s c).0 cs).1,
  next_cluster_id-apply s c,
  count_creates-cons c cs,
  seq_next s.next_cluster_id (count_creates cs),
  created_ids-apply_all (apply s c).0 cs,
)
