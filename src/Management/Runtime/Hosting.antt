-- ===== src/Management/Runtime/Hosting.antt =====
-- src/management/runtime.rs, `run_event_observer` against the state machine: which sub-clusters a node
-- hosts.
pub mod Agreement
pub mod Events
use raftoral.Prelude.{
  ℕ, ◌+◌, ◌≤◌, ◌<◌, ◌≡◌, ◌≢◌, refl, ap, sym, ◌∙◌, List, [], ◌∷◌, ◌++◌, Option, none, some, Bool,
  true, false, not, ◌||◌, ◌&&◌, if◌then◌else◌, nat_beq, nat_beq_iff, arith, Bool-cases, inl, inr,
}
use raftoral.Prelude.Eq.{nat_eq, ◌==◌}
use raftoral.Prelude.HashMap.{get, get-insert, get-remove, insert, remove}
use raftoral.Prelude.Result.{Result, ok, err}
use raftoral.Prelude.Eq.{Text, text_eq}
use raftoral.Prelude.Sets.{contains, without}
use raftoral.Raft.Node.Construction.{RaftNodeConfig}
use raftoral.Raft.ClusterRouter.{register_cluster}
use raftoral.Management.Event.{
  ManagementEvent, sub_cluster_created, sub_cluster_deleted, node_added_to_sub_cluster,
  node_removed_from_sub_cluster, metadata_updated, failed_node_detected,
}
use raftoral.Management.StateMachine.{
  ManagementStateMachine, ManagementCommand, SubClusterMetadata, create_sub_cluster,
  delete_sub_cluster, add_node_to_sub_cluster, remove_node_from_sub_cluster, set_metadata,
  delete_metadata, register_node_address, apply, publish, get_sub_cluster, u32_mod,
  with_sub_cluster,
}
use raftoral.Management.StateMachine.Lookup.{
  map_option, is_some, get-with_sub_cluster, result-with_sub_cluster,
}
use raftoral.Management.StateMachine.Ids.{IsAssigned}
use raftoral.Management.StateMachine.Members.{members, step_members, members-apply}
use raftoral.Management.Runtime.{
  SubClusterRuntime, ManagementRuntime, Task, observe, observe_all, register_and_store,
  store_runtime, sub_config, create_runtime, is_first, join, on_added,
}
use raftoral.Management.Runtime.Hosting.Agreement.{
  holds, create-agrees, add-agrees, remove-agrees, delete-agrees, absent-agrees,
}
use raftoral.Management.Runtime.Hosting.Events.{
  IsStarting, hosts, created-hosts, removed-hosts, left-hosts, added-hosts, node_id-observe_all,
}

fresh :
    (sm : ManagementStateMachine) (n : ℕ)
    → IsAssigned sm
    → holds (members sm sm.next_cluster_id n) ≡ false
unfolding members
fresh sm n h = by_cluster (get_sub_cluster sm sm.next_cluster_id) refl
  where
    by_cluster :
        (o : Option SubClusterMetadata)
        → get_sub_cluster sm sm.next_cluster_id ≡ o
        → holds (map_option (λ m. contains n m.node_ids) (get_sub_cluster sm sm.next_cluster_id))
          ≡ false
    by_cluster none e = ap (λ o. holds (map_option (λ m. contains n m.node_ids) o)) e
    by_cluster (some m) e = absurd (omega (arith, h.assigned sm.next_cluster_id m e))

-- What `AddNodeToSubCluster` and `RemoveNodeFromSubCluster` write.
abbrev add_change : ℕ → SubClusterMetadata → SubClusterMetadata
add_change a m = if contains a m.node_ids then m else record m { node_ids = m.node_ids ++ a ∷ [] }

abbrev remove_change : ℕ → SubClusterMetadata → SubClusterMetadata
remove_change a m = record m { node_ids = without a m.node_ids }

listed_after :
    (sm : ManagementStateMachine) (cid : ℕ) (f : SubClusterMetadata → SubClusterMetadata)
    (event : ManagementEvent) (m : SubClusterMetadata)
    → get_sub_cluster sm cid ≡ some m
    → get_sub_cluster (with_sub_cluster sm cid f event).0 cid ≡ some (f m)
listed_after sm cid f event m e =
    get-with_sub_cluster sm cid f event cid
    ∙ ap (λ o. if cid == cid then map_option f o else o) e
    ∙ ground (arith, nat_beq_iff cid cid)

module _ (sub : SubClusterRuntime) {P : Type 0} where
  -- The node hosts exactly the sub-clusters that it is a member of.
  unfoldable pub IsHosting : ManagementStateMachine → ManagementRuntime sub P → Type 0
  IsHosting sm self = (c : ℕ) → hosts sub self c ≡ holds (members sm c self.node_id)

  -- A command is applied, and its events are observed.
  unfoldable pub apply_and_observe :
      (mailbox_tx : sub.mpsc.Sender)
      → (leads : Bool) → ManagementCommand
      → ManagementStateMachine × ManagementRuntime sub P
      → ManagementStateMachine × ManagementRuntime sub P
  unfolding observe_all
  apply_and_observe mailbox_tx leads command (sm, self) =
      let (after, r) = apply sm command in
      (after, (observe_all sub mailbox_tx after leads (publish r []) self).0)

  create-IsHosting :
      (tx : sub.mpsc.Sender) (leads : Bool) (ns : List ℕ) (sm : ManagementStateMachine)
      (self : ManagementRuntime sub P)
      → IsStarting sub
      → IsAssigned sm
      → IsHosting sm self
      → (c : ℕ)
      → hosts sub (apply_and_observe tx leads (create_sub_cluster ns) (sm, self)).1 c
        ≡ holds (members (apply sm (create_sub_cluster ns)).0 c self.node_id)
  unfolding apply_and_observe observe_all apply IsHosting step_members
  create-IsHosting tx leads ns sm self starts h hosting c =
      created-hosts sub tx (apply sm (create_sub_cluster ns)).0 leads sm.next_cluster_id ns self c
        starts (λ e. absurd (omega (arith, h.next_pos)))
      ∙ create-agrees sm.next_cluster_id c (contains self.node_id ns) (hosts sub self c)
          (members sm c self.node_id) (hosting c)
          (λ e. ap (λ k. holds (members sm k self.node_id)) (sym e) ∙ fresh sm self.node_id h)
      ∙ ap holds (sym (members-apply sm (create_sub_cluster ns) c self.node_id))

  -- What a command on one sub-cluster publishes, by whether that cluster exists.
  observed :
      (tx : sub.mpsc.Sender) (leads : Bool) (sm : ManagementStateMachine)
      (self : ManagementRuntime sub P) (cid : ℕ) (f : SubClusterMetadata → SubClusterMetadata)
      (event : ManagementEvent) (there : Bool)
      → is_some (get_sub_cluster sm cid) ≡ there
      → let after = (with_sub_cluster sm cid f event).0 in
        (observe_all sub tx after leads (publish (with_sub_cluster sm cid f event).1 []) self).0
        ≡ (if there then (observe sub tx after leads event self).0 else self)
  unfolding observe_all
  observed tx leads sm self cid f event true e = rw (result-with_sub_cluster sm cid f event, e) refl
  observed tx leads sm self cid f event false e =
      rw (result-with_sub_cluster sm cid f event, e) refl

  add-IsHosting :
      (tx : sub.mpsc.Sender) (leads : Bool) (cid a : ℕ) (sm : ManagementStateMachine)
      (self : ManagementRuntime sub P) (o : Option SubClusterMetadata)
      → IsStarting sub
      → IsAssigned sm
      → IsHosting sm self
      → get_sub_cluster sm cid ≡ o
      → (c : ℕ)
      → hosts sub (apply_and_observe tx leads (add_node_to_sub_cluster cid a) (sm, self)).1 c
        ≡ holds (members (apply sm (add_node_to_sub_cluster cid a)).0 c self.node_id)
  unfolding apply_and_observe apply IsHosting step_members members observe
  add-IsHosting tx leads cid a sm self none starts h hosting e c =
      ap (λ r. hosts sub r c)
        (observed tx leads sm self cid (add_change a) (node_added_to_sub_cluster cid a) false
          (ap is_some e))
      ∙ absent-agrees cid c (λ b. a == self.node_id || b) (hosts sub self c)
          (members sm c self.node_id) (hosting c)
          (λ same.
            ap (λ k. members sm k self.node_id) (sym same)
            ∙ ap (map_option (λ m. contains self.node_id m.node_ids)) e)
      ∙ ap holds (sym (members-apply sm (add_node_to_sub_cluster cid a) c self.node_id))
  add-IsHosting tx leads cid a sm self (some m) starts h hosting e c =
      ap (λ r. hosts sub r c)
        (observed tx leads sm self cid (add_change a) (node_added_to_sub_cluster cid a) true
          (ap is_some e))
      ∙ added-hosts sub tx _ cid a (add_change a m) self c _ starts
          (listed_after sm cid (add_change a) (node_added_to_sub_cluster cid a) m e)
          (λ zero. absurd (omega (arith, h.assigned cid m e))) refl
      ∙ add-agrees cid c (a == self.node_id) (hosts sub self c) (members sm c self.node_id)
          (hosting c)
          (λ same.
            ap (λ k. is_some (members sm k self.node_id)) (sym same)
            ∙ ap (λ l. is_some (map_option (λ m. contains self.node_id m.node_ids) l)) e)
      ∙ ap holds (sym (members-apply sm (add_node_to_sub_cluster cid a) c self.node_id))

  remove-IsHosting :
      (tx : sub.mpsc.Sender) (leads : Bool) (cid a : ℕ) (sm : ManagementStateMachine)
      (self : ManagementRuntime sub P) (o : Option SubClusterMetadata)
      → IsHosting sm self
      → get_sub_cluster sm cid ≡ o
      → (c : ℕ)
      → hosts sub (apply_and_observe tx leads (remove_node_from_sub_cluster cid a) (sm, self)).1 c
        ≡ holds (members (apply sm (remove_node_from_sub_cluster cid a)).0 c self.node_id)
  unfolding apply_and_observe apply IsHosting step_members members observe
  remove-IsHosting tx leads cid a sm self none hosting e c =
      ap (λ r. hosts sub r c)
        (observed tx leads sm self cid (remove_change a) (node_removed_from_sub_cluster cid a) false
          (ap is_some e))
      ∙ absent-agrees cid c (λ b. not (a == self.node_id) && b) (hosts sub self c)
          (members sm c self.node_id) (hosting c)
          (λ same.
            ap (λ k. members sm k self.node_id) (sym same)
            ∙ ap (map_option (λ m. contains self.node_id m.node_ids)) e)
      ∙ ap holds (sym (members-apply sm (remove_node_from_sub_cluster cid a) c self.node_id))
  remove-IsHosting tx leads cid a sm self (some m) hosting e c =
      ap (λ r. hosts sub r c)
        (observed tx leads sm self cid (remove_change a) (node_removed_from_sub_cluster cid a) true
          (ap is_some e))
      ∙ left-hosts sub self cid a c
      ∙ remove-agrees cid c (a == self.node_id) (hosts sub self c) (members sm c self.node_id)
          (hosting c)
      ∙ ap holds (sym (members-apply sm (remove_node_from_sub_cluster cid a) c self.node_id))

  metadata-hosts :
      (tx : sub.mpsc.Sender) (leads : Bool) (sm : ManagementStateMachine)
      (self : ManagementRuntime sub P) (cid : ℕ) (f : SubClusterMetadata → SubClusterMetadata)
      (key : Text) (value : Option Text) (c : ℕ)
      → let event = metadata_updated cid key value in
        let after = (with_sub_cluster sm cid f event).0 in
        hosts sub
          (observe_all sub tx after leads (publish (with_sub_cluster sm cid f event).1 []) self).0
          c
        ≡ hosts sub self c
  unfolding observe
  metadata-hosts tx leads sm self cid f key value c =
      let event = metadata_updated cid key value in
      elim (Bool-cases (is_some (get_sub_cluster sm cid))) [
        | inl there ↦ ap (λ r. hosts sub r c) (observed tx leads sm self cid f event true there)
        | inr missing ↦
            ap (λ r. hosts sub r c) (observed tx leads sm self cid f event false missing)
      ]

  hosts-apply_and_observe :
      (tx : sub.mpsc.Sender) (leads : Bool) (command : ManagementCommand)
      (sm : ManagementStateMachine) (self : ManagementRuntime sub P)
      → IsStarting sub
      → IsAssigned sm
      → IsHosting sm self
      → (c : ℕ)
      → hosts sub (apply_and_observe tx leads command (sm, self)).1 c
        ≡ holds (members (apply sm command).0 c self.node_id)
  unfolding apply_and_observe observe_all observe apply IsHosting step_members
  hosts-apply_and_observe tx leads (create_sub_cluster ns) sm self starts h hosting c =
      create-IsHosting tx leads ns sm self starts h hosting c
  hosts-apply_and_observe tx leads (delete_sub_cluster cid) sm self starts h hosting c =
      removed-hosts sub self cid c
      ∙ delete-agrees cid c (hosts sub self c) (members sm c self.node_id) (hosting c)
      ∙ ap holds (sym (members-apply sm (delete_sub_cluster cid) c self.node_id))
  hosts-apply_and_observe tx leads (add_node_to_sub_cluster cid a) sm self starts h hosting c =
      add-IsHosting tx leads cid a sm self _ starts h hosting refl c
  hosts-apply_and_observe tx leads (remove_node_from_sub_cluster cid a) sm self starts h hosting c =
      remove-IsHosting tx leads cid a sm self _ hosting refl c
  hosts-apply_and_observe tx leads (set_metadata cid key v) sm self starts h hosting c =
      metadata-hosts tx leads sm self cid
        (λ metadata. record metadata { metadata = insert key v metadata.metadata }) key (some v) c
      ∙ hosting c
      ∙ ap holds (sym (members-apply sm (set_metadata cid key v) c self.node_id))
  hosts-apply_and_observe tx leads (delete_metadata cid key) sm self starts h hosting c =
      metadata-hosts tx leads sm self cid
        (λ metadata. record metadata { metadata = remove key metadata.metadata }) key none c
      ∙ hosting c
      ∙ ap holds (sym (members-apply sm (delete_metadata cid key) c self.node_id))
  hosts-apply_and_observe tx leads (register_node_address m a) sm self starts h hosting c =
      hosting c ∙ ap holds (sym (members-apply sm (register_node_address m a) c self.node_id))

  -- A node that observes the events of a command before the next command is applied hosts exactly the
  -- sub-clusters that it is a member of, if it did so before the command, every runtime can be created,
  -- and all cluster ids are at least 1 and below the next one.
  pub apply_and_observe-IsHosting :
      (tx : sub.mpsc.Sender) (leads : Bool) (command : ManagementCommand)
      (sm : ManagementStateMachine) (self : ManagementRuntime sub P)
      → IsStarting sub
      → IsAssigned sm
      → IsHosting sm self
      → let (after, next) = apply_and_observe tx leads command (sm, self) in IsHosting after next
  unfolding apply_and_observe IsHosting
  apply_and_observe-IsHosting tx leads command sm self starts h hosting c =
      hosts-apply_and_observe tx leads command sm self starts h hosting c
      ∙ ap (λ n. holds (members (apply sm command).0 c n))
          (sym (
            node_id-observe_all sub tx (apply sm command).0 leads (publish (apply sm command).1 [])
              self))
