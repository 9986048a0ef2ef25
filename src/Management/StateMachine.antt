-- ===== src/Management/StateMachine.antt =====
-- src/management/state_machine.rs: the metadata of the sub-clusters, changed by commands.
pub mod Lookup
pub mod Ids
pub mod Members
pub mod Errors
pub mod Snapshots
use raftoral.Prelude.{ℕ, ◌+◌, ◌%◌, ◌^◌, List, [], ◌∷◌, ◌++◌, map, Option, none, some, if◌then◌else◌}
use raftoral.Prelude.Eq.{Text, nat_eq, text_eq}
use raftoral.Prelude.HashMap.{HashMap, get, insert, remove}
use raftoral.Prelude.Result.{Result, ok, err}
use raftoral.Prelude.Sets.{contains, without}
use raftoral.StateMachine.{Bytes, Serde}
use raftoral.Management.Event.{
  ManagementEvent, sub_cluster_created, sub_cluster_deleted, node_added_to_sub_cluster,
  node_removed_from_sub_cluster, metadata_updated, failed_node_detected,
}

pub data ManagementCommand : Type 0 where
  create_sub_cluster : (node_ids : List ℕ) → ManagementCommand
  delete_sub_cluster : (cluster_id : ℕ) → ManagementCommand
  add_node_to_sub_cluster : (cluster_id node_id : ℕ) → ManagementCommand
  remove_node_from_sub_cluster : (cluster_id node_id : ℕ) → ManagementCommand
  set_metadata : (cluster_id : ℕ) (key value : Text) → ManagementCommand
  delete_metadata : (cluster_id : ℕ) (key : Text) → ManagementCommand
  register_node_address : (node_id : ℕ) (address : Text) → ManagementCommand

pub record SubClusterMetadata : Type 0 where
  pub node_ids : List ℕ
  pub metadata : HashMap Text Text

pub record ManagementStateMachine : Type 0 where
  pub sub_clusters : HashMap ℕ SubClusterMetadata
  pub next_cluster_id : ℕ
  pub node_addresses : HashMap ℕ Text

-- The errors that the methods return, the text of a missing cluster by its id.
pub data ManagementError : Type 0 where
  sub_cluster_not_found : (cluster_id : ℕ) → ManagementError
  serde_error : ManagementError

abbrev pub new : ManagementStateMachine
new = record { sub_clusters = []; next_cluster_id = 1; node_addresses = [] }

unfoldable pub get_sub_cluster : ManagementStateMachine → ℕ → Option SubClusterMetadata
get_sub_cluster self cluster_id = get cluster_id self.sub_clusters

unfoldable pub list_sub_clusters : ManagementStateMachine → List ℕ
list_sub_clusters self = map (λ entry. entry.0) self.sub_clusters

abbrev pub get_all_sub_clusters : ManagementStateMachine → HashMap ℕ SubClusterMetadata
get_all_sub_clusters self = self.sub_clusters

unfoldable pub get_node_address : ManagementStateMachine → ℕ → Option Text
get_node_address self node_id = get node_id self.node_addresses

abbrev pub u32_mod : ℕ
u32_mod = 2 ^ 32

abbrev pub Applied : Type 0
Applied = ManagementStateMachine × Result ManagementError (List ManagementEvent)

-- `if let Some(metadata) = self.sub_clusters.get_mut(cluster_id)`, with the write through the
-- reference as an insertion at the key that was found.
unfoldable pub with_sub_cluster :
    ManagementStateMachine
    → ℕ
    → (SubClusterMetadata → SubClusterMetadata)
    → ManagementEvent
    → Applied
with_sub_cluster self cluster_id change event = elim (get cluster_id self.sub_clusters) [
  | none ↦ (self, err (sub_cluster_not_found cluster_id))
  | some metadata ↦ (
    record self { sub_clusters = insert cluster_id (change metadata) self.sub_clusters },
    ok (event ∷ []),
  )
]

unfoldable pub apply : ManagementStateMachine → ManagementCommand → Applied
apply self (create_sub_cluster node_ids) =
    let cluster_id = self.next_cluster_id in
    (
      record self {
        next_cluster_id = (self.next_cluster_id + 1) % u32_mod;
        sub_clusters =
            insert cluster_id (record { node_ids = node_ids; metadata = [] }) self.sub_clusters;
      },
      ok (sub_cluster_created cluster_id node_ids ∷ []),
    )
apply self (delete_sub_cluster cluster_id) = (
  record self { sub_clusters = remove cluster_id self.sub_clusters },
  ok (sub_cluster_deleted cluster_id ∷ []),
)
apply self (add_node_to_sub_cluster cluster_id node_id) =
    with_sub_cluster self cluster_id
      (λ metadata.
        if contains node_id metadata.node_ids
        then metadata
        else record metadata { node_ids = metadata.node_ids ++ node_id ∷ [] })
      (node_added_to_sub_cluster cluster_id node_id)
apply self (remove_node_from_sub_cluster cluster_id node_id) =
    with_sub_cluster self cluster_id
      (λ metadata. record metadata { node_ids = without node_id metadata.node_ids })
      (node_removed_from_sub_cluster cluster_id node_id)
apply self (set_metadata cluster_id key value) =
    with_sub_cluster self cluster_id
      (λ metadata. record metadata { metadata = insert key value metadata.metadata })
      (metadata_updated cluster_id key (some value))
apply self (delete_metadata cluster_id key) =
    with_sub_cluster self cluster_id
      (λ metadata. record metadata { metadata = remove key metadata.metadata })
      (metadata_updated cluster_id key none)
apply self (register_node_address node_id address) =
    (record self { node_addresses = insert node_id address self.node_addresses }, ok [])

-- What the struct `Snapshot` holds: all three fields.
abbrev pub Snapshot : Type 0
Snapshot = ManagementStateMachine

unfoldable pub snapshot :
    {Same : Snapshot → Snapshot → Type 0}
    → Serde Snapshot Same
    → ManagementStateMachine
    → Result ManagementError Bytes
snapshot serde self = elim (serde.to_vec self) [ ok bytes ↦ ok bytes | err e ↦ err serde_error ]

unfoldable pub restore :
    {Same : Snapshot → Snapshot → Type 0}
    → Serde Snapshot Same
    → ManagementStateMachine
    → Bytes
    → ManagementStateMachine × Result ManagementError (Unit {0})
restore serde self bytes = elim (serde.from_slice bytes) [
  | ok s ↦ (
    record {
      sub_clusters = s.sub_clusters;
      next_cluster_id = s.next_cluster_id;
      node_addresses = s.node_addresses;
    },
    ok tt,
  )
  | err e ↦ (self, err serde_error)
]

unfoldable pub on_follower_failed :
    ManagementStateMachine → ℕ → ManagementStateMachine × List ManagementEvent
on_follower_failed self node_id = (self, failed_node_detected node_id ∷ [])

-- The events that the node publishes for one result, before those of later commands.
abbrev pub publish :
    Result ManagementError (List ManagementEvent) → List ManagementEvent → List ManagementEvent
publish (ok events) later = events ++ later
publish (err e) later = later

-- Committed commands one after another, as the node applies them: the events of each are
-- published, and a command that fails is passed over.
unfoldable pub apply_all :
    ManagementStateMachine → List ManagementCommand → ManagementStateMachine × List ManagementEvent
apply_all self [] = (self, [])
apply_all self (command ∷ rest) =
    let step = apply self command in
    let later = apply_all step.0 rest in (later.0, publish step.1 later.1)
