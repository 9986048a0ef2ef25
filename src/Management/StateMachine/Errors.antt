-- ===== src/Management/StateMachine/Errors.antt =====
-- When a command fails.
use raftoral.Prelude.{ℕ, ◌≡◌, ◌↔◌, Option, none, some, arith, refl, ap}
use mathlib.Core.Option.{some-injective}
use raftoral.Prelude.Result.{err}
use raftoral.Management.Event.{ManagementEvent}
use raftoral.Management.StateMachine.{
  ManagementStateMachine, ManagementCommand, ManagementError, SubClusterMetadata,
  create_sub_cluster, delete_sub_cluster, add_node_to_sub_cluster, remove_node_from_sub_cluster,
  set_metadata, delete_metadata, register_node_address, sub_cluster_not_found, apply,
  get_sub_cluster, with_sub_cluster,
}

-- The cluster that must exist for a command to succeed.
abbrev pub target : ManagementCommand → Option ℕ
target (create_sub_cluster _) = none
target (delete_sub_cluster _) = none
target (add_node_to_sub_cluster cid _) = some cid
target (remove_node_from_sub_cluster cid _) = some cid
target (set_metadata cid _ _) = some cid
target (delete_metadata cid _) = some cid
target (register_node_address _ _) = none

-- The command needs a cluster that is not there, and the error names that cluster.
abbrev pub MissesTarget : ManagementStateMachine → ManagementCommand → ManagementError → Type 0
MissesTarget s c e =
    (cid : ℕ) × (target c ≡ some cid)
    × (get_sub_cluster s cid ≡ none)
    × (e ≡ sub_cluster_not_found cid)

module _ (s : ManagementStateMachine) (cid : ℕ) (f : SubClusterMetadata → SubClusterMetadata)
    (ev : ManagementEvent) (e : ManagementError) where
  with_sub_cluster-err :
      (with_sub_cluster s cid f ev).1 ≡ err e
      → (get_sub_cluster s cid ≡ none)
        × (e ≡ sub_cluster_not_found cid)
        × ((with_sub_cluster s cid f ev).0 ≡ s)
  unfolding with_sub_cluster get_sub_cluster
  with_sub_cluster-err h = (ground arith, ground arith, ground arith)

  err-with_sub_cluster :
      get_sub_cluster s cid ≡ none
      → e ≡ sub_cluster_not_found cid
      → (with_sub_cluster s cid f ev).1 ≡ err e
  unfolding with_sub_cluster get_sub_cluster
  err-with_sub_cluster h k = ground arith

  by_lookup :
      (((with_sub_cluster s cid f ev).1 ≡ err e) ↔ (
        (k : ℕ) × (some cid ≡ some k)
        × (get_sub_cluster s k ≡ none)
        × (e ≡ sub_cluster_not_found k)))
      × ((with_sub_cluster s cid f ev).1 ≡ err e → (with_sub_cluster s cid f ev).0 ≡ s)
  by_lookup = (
    (
      λ h. let (missing, named, _) = with_sub_cluster-err h in (cid, refl, missing, named),
      λ (k, same, missing, named).
          err-with_sub_cluster (cc (ap (get_sub_cluster s) (some-injective cid k same)))
            (cc (some-injective cid k same)),
    ),
    λ h. (with_sub_cluster-err h).2,
  )

apply-outcome :
    (s : ManagementStateMachine) (c : ManagementCommand) (e : ManagementError)
    → (((apply s c).1 ≡ err e) ↔ MissesTarget s c e) × ((apply s c).1 ≡ err e → (apply s c).0 ≡ s)
unfolding apply
apply-outcome s (create_sub_cluster ns) e = ((λ h. cc, λ (x, t, _, _). cc), λ h. cc)
apply-outcome s (delete_sub_cluster cid) e = ((λ h. cc, λ (x, t, _, _). cc), λ h. cc)
apply-outcome s (add_node_to_sub_cluster cid n) e = by_lookup s cid _ _ e
apply-outcome s (remove_node_from_sub_cluster cid n) e = by_lookup s cid _ _ e
apply-outcome s (set_metadata cid k v) e = by_lookup s cid _ _ e
apply-outcome s (delete_metadata cid k) e = by_lookup s cid _ _ e
apply-outcome s (register_node_address n a) e = ((λ h. cc, λ (x, t, _, _). cc), λ h. cc)

-- A command fails exactly if the cluster that it needs is missing, with an error that names the
-- cluster.
pub apply-err :
    (s : ManagementStateMachine) (c : ManagementCommand) (e : ManagementError)
    → ((apply s c).1 ≡ err e) ↔ MissesTarget s c e
apply-err s c e = (apply-outcome s c e).0

-- A command that fails leaves the state as it was.
pub apply-unchanged :
    (s : ManagementStateMachine) (c : ManagementCommand) (e : ManagementError)
    → (apply s c).1 ≡ err e
    → (apply s c).0 ≡ s
apply-unchanged s c e = (apply-outcome s c e).1
