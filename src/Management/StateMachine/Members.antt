-- ===== src/Management/StateMachine/Members.antt =====
-- The abstract view of the state machine: which node is in which cluster. The view forgets the
-- order and the repetitions of `node_ids`.
use raftoral.Prelude.{
  ℕ, ◌≡◌, Option, none, some, arith, refl, ap, if◌then◌else◌, Bool, true, false, not, ◌&&◌, ◌||◌,
  nat_beq_iff, ◌++◌, [], ◌∷◌,
}
use raftoral.Prelude.Eq.{nat_eq, ◌==◌}
use raftoral.Prelude.HashMap.{get-insert, get-remove}
use raftoral.Prelude.Sets.{contains, contains-append_one, contains-without}
use raftoral.Management.StateMachine.{
  ManagementStateMachine, ManagementCommand, SubClusterMetadata, create_sub_cluster,
  delete_sub_cluster, add_node_to_sub_cluster, remove_node_from_sub_cluster, set_metadata,
  delete_metadata, register_node_address, apply, get_sub_cluster,
}
use raftoral.Management.StateMachine.Lookup.{map_option, get-with_sub_cluster}

-- `none` where there is no such cluster.
abbrev pub Members : Type 0
Members = (cluster_id node_id : ℕ) → Option Bool

unfoldable pub members : ManagementStateMachine → Members
members s k n = map_option (λ m. contains n m.node_ids) (get_sub_cluster s k)

-- What a command does to the sets of members, with the id that a new cluster gets.
unfoldable pub step_members : ℕ → ManagementCommand → Members → Members
step_members next (create_sub_cluster ns) v k n = if next == k then some (contains n ns) else v k n
step_members next (delete_sub_cluster cid) v k n = if cid == k then none else v k n
step_members next (add_node_to_sub_cluster cid a) v k n =
    if cid == k then map_option (λ b. a == n || b) (v k n) else v k n
step_members next (remove_node_from_sub_cluster cid a) v k n =
    if cid == k then map_option (λ b. not (a == n) && b) (v k n) else v k n
step_members next _ v k n = v k n

module _ (n : ℕ) where
  add-contains :
      (a : ℕ) (m : SubClusterMetadata)
      → contains n
          (if contains a m.node_ids
            then m
            else record m { node_ids = m.node_ids ++ a ∷ [] }).node_ids
        ≡ (a == n || contains n m.node_ids)
  add-contains a m = ground (arith, contains-append_one n a m.node_ids, nat_beq_iff a n)

-- `view` of a changed cluster is the changed view.
if-square :
    {A B : Type 0} (b : Bool) (view : A → B) (change : A → A) (step : B → B)
    → ((a : A) → view (change a) ≡ step (view a))
    → (o : Option A)
    → map_option view (if b then map_option change o else o)
      ≡ (if b then map_option step (map_option view o) else map_option view o)
if-square true view change step h none = refl
if-square true view change step h (some a) = ap some (h a)
if-square false view change step h o = refl

-- Each command changes the members as the abstract step says, in every cluster and for every node.
pub members-apply :
    (s : ManagementStateMachine) (c : ManagementCommand) (k n : ℕ)
    → members (apply s c).0 k n ≡ step_members s.next_cluster_id c (members s) k n
unfolding members step_members apply
members-apply s (create_sub_cluster ns) k n =
    unfold get_sub_cluster in
    ground (
      arith,
      nat_beq_iff s.next_cluster_id k,
      get-insert s.next_cluster_id k (record { node_ids = ns; metadata = [] }) s.sub_clusters,
    )
members-apply s (delete_sub_cluster cid) k n =
    unfold get_sub_cluster in ground (arith, nat_beq_iff cid k, get-remove cid k s.sub_clusters)
members-apply s (add_node_to_sub_cluster cid a) k n =
    rw get-with_sub_cluster (
      if-square (cid == k) (λ m. contains n m.node_ids) _ _ (add-contains n a)
        (get_sub_cluster s k))
members-apply s (remove_node_from_sub_cluster cid a) k n = rw get-with_sub_cluster (
    if-square (cid == k) (λ m. contains n m.node_ids) _ _ (λ m. contains-without n a m.node_ids)
      (get_sub_cluster s k))
members-apply s (set_metadata cid key v) k n = rw get-with_sub_cluster (ground arith)
members-apply s (delete_metadata cid key) k n = rw get-with_sub_cluster (ground arith)
members-apply s (register_node_address m a) k n = unfold get_sub_cluster in refl
