-- ===== src/Management/Runtime/Hosting/Events.antt =====
-- runtime.rs, `run_event_observer`: what each event does to the sub-clusters that a node hosts, and that
-- the node keeps its id.
use raftoral.Prelude.{
  ℕ, ◌≡◌, ◌≢◌, refl, ap, sym, ◌∙◌, List, [], ◌∷◌, Option, none, some, Bool, true, false, ◌&&◌,
  if◌then◌else◌, nat_beq, nat_beq_iff, arith, Bool-cases, inl, inr,
}
use raftoral.Prelude.Eq.{nat_eq, ◌==◌}
use raftoral.Prelude.HashMap.{get, get-insert, get-remove, remove}
use raftoral.Prelude.Result.{Result, ok, err}
use raftoral.Prelude.Eq.{Text, text_eq}
use raftoral.Prelude.Sets.{contains}
use raftoral.Raft.Node.Construction.{RaftNodeConfig}
use raftoral.Raft.ClusterRouter.{register_cluster}
use raftoral.Management.Event.{
  ManagementEvent, sub_cluster_created, sub_cluster_deleted, node_added_to_sub_cluster,
  node_removed_from_sub_cluster, metadata_updated, failed_node_detected,
}
use raftoral.Management.StateMachine.{ManagementStateMachine, SubClusterMetadata, get_sub_cluster}
use raftoral.Management.StateMachine.Lookup.{is_some}
use raftoral.Management.Runtime.{
  SubClusterRuntime, ManagementRuntime, Task, observe, observe_all, register_and_store,
  store_runtime, sub_config, create_runtime, is_first, join, on_added,
}
use raftoral.Management.Runtime.Hosting.Agreement.{already}

-- Every runtime of a sub-cluster can be created.
unfoldable pub IsStarting : SubClusterRuntime → Type 0
IsStarting sub =
    ((config : RaftNodeConfig) → (r : sub.R) × (sub.new_single_node config ≡ ok r))
    × ((config : RaftNodeConfig) (voters : List ℕ)
        → (r : sub.R) × (sub.new_joining_node config voters ≡ ok r))

pub created :
    (sub : SubClusterRuntime) (config : RaftNodeConfig) (ns : List ℕ) (first : Bool)
    → IsStarting sub
    → (r : sub.R) × (create_runtime sub config ns first ≡ ok r)
unfolding IsStarting
created sub config ns true starts = starts.0 config
created sub config ns false starts = starts.1 config ns

module _ (sub : SubClusterRuntime) {P : Type 0} where
  -- Whether the node hosts a sub-cluster.
  abbrev pub hosts : ManagementRuntime sub P → ℕ → Bool
  hosts self c = is_some (get c self.sub_clusters)

  pub stored-hosts :
      (tx : sub.mpsc.Sender) (cid : ℕ) (self : ManagementRuntime sub P) (res : Result Text sub.R)
      (r : sub.R) (c : ℕ)
      → res ≡ ok r
      → cid ≢ 0
      → hosts (register_and_store sub tx cid self res).0 c
        ≡ (if cid == c then true else hosts self c)
  stored-hosts tx cid self res r c started nonzero =
      let zero_not : nat_beq cid 0 ≡ false = ground arith in
      rw (started, zero_not)
        (ground (arith, nat_beq_iff cid c, get-insert cid c r self.sub_clusters))

  -- What an event does to the hosted sub-clusters.
  pub created-hosts :
      (tx : sub.mpsc.Sender) (sm : ManagementStateMachine) (leads : Bool) (cid : ℕ) (ns : List ℕ)
      (self : ManagementRuntime sub P) (c : ℕ)
      → IsStarting sub
      → cid ≢ 0
      → hosts (observe sub tx sm leads (sub_cluster_created cid ns) self).0 c
        ≡ (if cid == c && contains self.node_id ns then true else hosts self c)
  unfolding observe
  created-hosts tx sm leads cid ns self c starts nonzero =
      let config = sub_config sub self cid in
      let first = is_first self.node_id ns in
      let (r, started) = created sub config ns first starts in
      elim (Bool-cases (contains self.node_id ns)) [
        | inl member ↦ rw member (
            stored-hosts tx cid self (create_runtime sub config ns first) r c started nonzero
            ∙ ground (arith, nat_beq_iff cid c))
        | inr stranger ↦ rw stranger (ground (arith, nat_beq_iff cid c))
      ]

  pub removed-hosts :
      (self : ManagementRuntime sub P) (cid c : ℕ)
      → is_some (get c (record self { sub_clusters = remove cid self.sub_clusters }).sub_clusters)
        ≡ (if cid == c then false else hosts self c)
  removed-hosts self cid c = ground (arith, nat_beq_iff cid c, get-remove cid c self.sub_clusters)

  pub left-hosts :
      (self : ManagementRuntime sub P) (cid a c : ℕ)
      → hosts
          (if◌then◌else◌ {A = ManagementRuntime sub P × List Task}
            (a == self.node_id)
            (record self { sub_clusters = remove cid self.sub_clusters }, [])
            (self, [])).0
          c
        ≡ (if a == self.node_id && cid == c then false else hosts self c)
  left-hosts self cid a c = elim (Bool-cases (a == self.node_id)) [
    | inl own ↦ rw own (removed-hosts self cid c)
    | inr foreign ↦ rw foreign refl
  ]

  pub added-hosts :
      (tx : sub.mpsc.Sender) (sm : ManagementStateMachine) (cid a : ℕ) (m : SubClusterMetadata)
      (self : ManagementRuntime sub P) (c : ℕ) (o : Option sub.R)
      → IsStarting sub
      → get_sub_cluster sm cid ≡ some m
      → cid ≢ 0
      → get cid self.sub_clusters ≡ o
      → hosts (on_added sub tx sm cid a self o).0 c
        ≡ (if cid == c && a == self.node_id then true else hosts self c)
  unfolding IsStarting
  added-hosts tx sm cid a m self c (some r) starts listed nonzero e =
      already cid c (a == self.node_id) (hosts self c)
        (λ same. ap (λ k. hosts self k) (sym same) ∙ ap is_some e)
  added-hosts tx sm cid a m self c none starts listed nonzero e =
      let (r, started) = starts.1 (sub_config sub self cid) m.node_ids in
      elim (Bool-cases (a == self.node_id)) [
        | inl own ↦
            rw (own, listed)
              (stored-hosts tx cid self _ r c started nonzero ∙ ground (arith, nat_beq_iff cid c))
        | inr foreign ↦ rw foreign (ground (arith, nat_beq_iff cid c))
      ]

  pub node_id-stored :
      (tx : sub.mpsc.Sender) (cid : ℕ) (self : ManagementRuntime sub P) (zero : Bool)
      (res : Result Text sub.R)
      → (if◌then◌else◌ {A = ManagementRuntime sub P × List Task} zero
          (self, [])
          (store_runtime sub cid
            (record self { cluster_router = register_cluster sub.mpsc cid tx self.cluster_router })
            res)).0.node_id
        ≡ self.node_id
  node_id-stored tx cid self true res = refl
  node_id-stored tx cid self false (ok r) = refl
  node_id-stored tx cid self false (err e) = refl

  pub node_id-join :
      (tx : sub.mpsc.Sender) (cid : ℕ) (self : ManagementRuntime sub P)
      (o : Option SubClusterMetadata)
      → (join sub tx cid self o).0.node_id ≡ self.node_id
  node_id-join tx cid self none = refl
  node_id-join tx cid self (some m) = node_id-stored tx cid self (nat_beq cid 0) _

  pub node_id-added :
      (tx : sub.mpsc.Sender) (sm : ManagementStateMachine) (cid a : ℕ)
      (self : ManagementRuntime sub P) (o : Option sub.R)
      → (on_added sub tx sm cid a self o).0.node_id ≡ self.node_id
  node_id-added tx sm cid a self (some r) = refl
  node_id-added tx sm cid a self none = elim (Bool-cases (nat_beq a self.node_id)) [
    | inl own ↦ rw own (node_id-join tx cid self (get_sub_cluster sm cid))
    | inr foreign ↦ rw foreign refl
  ]

  pub node_id-observe :
      (tx : sub.mpsc.Sender) (sm : ManagementStateMachine) (leads : Bool) (event : ManagementEvent)
      (self : ManagementRuntime sub P)
      → (observe sub tx sm leads event self).0.node_id ≡ self.node_id
  unfolding observe
  node_id-observe tx sm leads (sub_cluster_created cid ns) self =
      elim (Bool-cases (contains self.node_id ns)) [
        | inl member ↦ rw member (node_id-stored tx cid self (nat_beq cid 0) _)
        | inr stranger ↦ rw stranger refl
      ]
  node_id-observe tx sm leads (node_added_to_sub_cluster cid a) self =
      node_id-added tx sm cid a self _
  node_id-observe tx sm leads (node_removed_from_sub_cluster cid a) self =
      elim (Bool-cases (nat_beq a self.node_id)) [
        | inl own ↦ rw own refl
        | inr foreign ↦ rw foreign refl
      ]
  node_id-observe tx sm leads (sub_cluster_deleted cid) self = refl
  node_id-observe tx sm leads (failed_node_detected a) self = refl
  node_id-observe tx sm leads (metadata_updated cid key value) self = refl

  pub node_id-observe_all :
      (tx : sub.mpsc.Sender) (sm : ManagementStateMachine) (leads : Bool)
      (events : List ManagementEvent) (self : ManagementRuntime sub P)
      → (observe_all sub tx sm leads events self).0.node_id ≡ self.node_id
  unfolding observe_all
  node_id-observe_all tx sm leads [] self = refl
  node_id-observe_all tx sm leads (event ∷ events) self =
      node_id-observe_all tx sm leads events _ ∙ node_id-observe tx sm leads event self
