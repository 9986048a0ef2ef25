-- ===== src/Management/StateMachine/Snapshots.antt =====
-- A replica that restores a snapshot.
use raftoral.Prelude.{
  ℕ, ◌≡◌, Option, none, some, arith, refl, ap, List, [], ◌∷◌, ◌++◌, if◌then◌else◌, ◌+◌, ◌%◌, Bool,
  true, false, sym, ◌∙◌,
}
use raftoral.Prelude.Eq.{Text, nat_eq, text_eq, ◌==◌}
use raftoral.Prelude.HashMap.{
  get, insert, remove, get-insert, get-remove, SameMap-insert, SameMap-remove,
}
use raftoral.Prelude.Result.{ok, err}
use raftoral.Prelude.Sets.{contains, without}
use raftoral.StateMachine.{Bytes, Serde}
use raftoral.Management.Event.{ManagementEvent, sub_cluster_created}
use raftoral.Management.StateMachine.{
  ManagementStateMachine, ManagementCommand, SubClusterMetadata, create_sub_cluster,
  delete_sub_cluster, add_node_to_sub_cluster, remove_node_from_sub_cluster, set_metadata,
  delete_metadata, register_node_address, apply, apply_all, publish, get_sub_cluster,
  get_node_address, with_sub_cluster, snapshot, restore, Applied, sub_cluster_not_found, u32_mod,
}
use raftoral.Management.StateMachine.Lookup.{
  map_option, is_some, result-with_sub_cluster, node_addresses-with_sub_cluster,
  get-with_sub_cluster, next_cluster_id-with_sub_cluster,
}

-- The same cluster, up to the order in which its metadata iterates.
pub record SameCluster (a b : SubClusterMetadata) : Type 0 where
  pub nodes : a.node_ids ≡ b.node_ids
  pub entries : (key : Text) → get key a.metadata ≡ get key b.metadata

abbrev pub SameOption : Option SubClusterMetadata → Option SubClusterMetadata → Type 0
SameOption none none = Unit
SameOption (some a) (some b) = SameCluster a b
SameOption _ _ = ⊥

-- The same state, up to the order in which its maps iterate.
pub record SameState (s t : ManagementStateMachine) : Type 0 where
  pub next : s.next_cluster_id ≡ t.next_cluster_id
  pub clusters : (k : ℕ) → SameOption (get_sub_cluster s k) (get_sub_cluster t k)
  pub addresses : (n : ℕ) → get_node_address s n ≡ get_node_address t n

-- A change that keeps the sameness of clusters.
abbrev Respects : (SubClusterMetadata → SubClusterMetadata) → Type 0
Respects f = (a b : SubClusterMetadata) → SameCluster a b → SameCluster (f a) (f b)

add-Respects :
    (n : ℕ)
    → Respects
        (λ m. if contains n m.node_ids then m else record m { node_ids = m.node_ids ++ n ∷ [] })
add-Respects n a b h = record {
  nodes = ground (arith, h.nodes);
  entries = λ key. ground (arith, h.entries key);
}

remove-Respects : (n : ℕ) → Respects (λ m. record m { node_ids = without n m.node_ids })
remove-Respects n a b h = record { nodes = ap (without n) h.nodes; entries = h.entries }

set-Respects : (k v : Text) → Respects (λ m. record m { metadata = insert k v m.metadata })
set-Respects k v a b h = record {
  nodes = h.nodes;
  entries = SameMap-insert k v a.metadata b.metadata h.entries;
}

delete-Respects : (k : Text) → Respects (λ m. record m { metadata = remove k m.metadata })
delete-Respects k a b h = record {
  nodes = h.nodes;
  entries = SameMap-remove k a.metadata b.metadata h.entries;
}

-- Both states take a command alike: the same result, and states that are the same again.
abbrev Alike : Applied → Applied → Type 0
Alike p q = SameState p.0 q.0 × (p.1 ≡ q.1)

SameOption-map :
    (f : SubClusterMetadata → SubClusterMetadata) (b : Bool) (o p : Option SubClusterMetadata)
    → Respects f
    → SameOption o p
    → SameOption (if b then map_option f o else o) (if b then map_option f p else p)
SameOption-map f true none none r h = tt
SameOption-map f true none (some b) r h = absurd h
SameOption-map f true (some a) none r h = absurd h
SameOption-map f true (some a) (some b) r h = r a b h
SameOption-map f false o p r h = h

SameOption-if :
    (b c : Bool) (e : b ≡ c) (x y o p : Option SubClusterMetadata)
    → SameOption x y
    → SameOption o p
    → SameOption (if b then x else o) (if c then y else p)
SameOption-if true true e x y o p h k = h
SameOption-if false false e x y o p h k = k
SameOption-if true false e x y o p h k = cc
SameOption-if false true e x y o p h k = cc

is_some-same : (o p : Option SubClusterMetadata) → SameOption o p → is_some o ≡ is_some p
is_some-same none none h = refl
is_some-same none (some b) h = absurd h
is_some-same (some a) none h = absurd h
is_some-same (some a) (some b) h = refl

module _ (s t : ManagementStateMachine) (same : SameState s t) where
  Alike-with_sub_cluster :
      (cid : ℕ) (f : SubClusterMetadata → SubClusterMetadata) (ev : ManagementEvent)
      → Respects f
      → Alike (with_sub_cluster s cid f ev) (with_sub_cluster t cid f ev)
  unfolding get_node_address
  Alike-with_sub_cluster cid f ev r = (
    record {
      next = rw next_cluster_id-with_sub_cluster (rw next_cluster_id-with_sub_cluster same.next);
      clusters = λ k. rw get-with_sub_cluster (
          rw get-with_sub_cluster (
            SameOption-map f (cid == k) (get_sub_cluster s k) (get_sub_cluster t k) r
              (same.clusters k)));
      addresses = λ n. addresses_after n;
    },
    rw result-with_sub_cluster (
        rw result-with_sub_cluster (
          ap (λ (b : Bool). if b then ok (ev ∷ []) else err (sub_cluster_not_found cid))
            (is_some-same (get_sub_cluster s cid) (get_sub_cluster t cid) (same.clusters cid)))),
  )
    where
      addresses_after :
          (n : ℕ)
          → get_node_address (with_sub_cluster s cid f ev).0 n
            ≡ get_node_address (with_sub_cluster t cid f ev).0 n
      addresses_after n =
          ap (get n) (node_addresses-with_sub_cluster s cid f ev)
          ∙ same.addresses n
          ∙ sym (ap (get n) (node_addresses-with_sub_cluster t cid f ev))

  -- The same state takes the same command alike.
  apply-Alike : (c : ManagementCommand) → Alike (apply s c) (apply t c)
  unfolding apply get_sub_cluster get_node_address
  apply-Alike (create_sub_cluster ns) = (
    record {
      next = ap (λ n. (n + 1) % u32_mod) same.next;
      clusters = λ k. rw get-insert (
          rw get-insert (
            SameOption-if (s.next_cluster_id == k) (t.next_cluster_id == k)
              (ap (λ n. n == k) same.next) _ _ _ _ (record { nodes = refl; entries = λ key. refl })
              (same.clusters k)));
      addresses = same.addresses;
    },
    ap (λ n. ok (sub_cluster_created n ns ∷ [])) same.next,
  )
  apply-Alike (delete_sub_cluster cid) = (
    record {
      next = same.next;
      clusters = λ k. rw get-remove (
          rw get-remove
            (SameOption-if (cid == k) (cid == k) refl none none _ _ tt (same.clusters k)));
      addresses = same.addresses;
    },
    refl,
  )
  apply-Alike (add_node_to_sub_cluster cid n) = Alike-with_sub_cluster cid _ _ (add-Respects n)
  apply-Alike (remove_node_from_sub_cluster cid n) =
      Alike-with_sub_cluster cid _ _ (remove-Respects n)
  apply-Alike (set_metadata cid k v) = Alike-with_sub_cluster cid _ _ (set-Respects k v)
  apply-Alike (delete_metadata cid k) = Alike-with_sub_cluster cid _ _ (delete-Respects k)
  apply-Alike (register_node_address n a) = (
    record {
      next = same.next;
      clusters = same.clusters;
      addresses = SameMap-insert n a s.node_addresses t.node_addresses same.addresses;
    },
    refl,
  )

-- The same state publishes the same events for every later run of commands.
apply_all-Alike :
    (cs : List ManagementCommand) (s t : ManagementStateMachine)
    → SameState s t
    → (apply_all s cs).1 ≡ (apply_all t cs).1
unfolding apply_all
apply_all-Alike [] s t same = refl
apply_all-Alike (c ∷ cs) s t same =
    let (after, result) = apply-Alike s t same c in
    cc (
      ap (λ r. publish r (apply_all (apply s c).0 cs).1) result,
      ap (publish (apply t c).1) (apply_all-Alike cs (apply s c).0 (apply t c).0 after),
    )

restore-ok :
    (serde : Serde ManagementStateMachine SameState) (t b : ManagementStateMachine) (bytes : Bytes)
    → serde.from_slice bytes ≡ ok b
    → restore serde t bytes ≡ (b, ok tt)
unfolding restore
restore-ok serde t b bytes h = rw (h, restore)

snapshot-ok :
    (serde : Serde ManagementStateMachine SameState) (s : ManagementStateMachine) (bytes : Bytes)
    → snapshot serde s ≡ ok bytes
    → serde.to_vec s ≡ ok bytes
unfolding snapshot
snapshot-ok serde s bytes h = ground arith

-- A replica in any state `t` that restores a snapshot of `s` succeeds, and from then on publishes
-- for every run of commands the events that `s` publishes.
pub apply_all-restore :
    (serde : Serde ManagementStateMachine SameState) (s t : ManagementStateMachine) (bytes : Bytes)
    → snapshot serde s ≡ ok bytes
    → ((restore serde t bytes).1 ≡ ok tt)
      × SameState s (restore serde t bytes).0
      × ((cs : List ManagementCommand)
          → (apply_all (restore serde t bytes).0 cs).1 ≡ (apply_all s cs).1)
apply_all-restore serde s t bytes h =
    let (b, read, same) = serde.from_slice-to_vec s bytes (snapshot-ok serde s bytes h) in
    rw (restore-ok serde t b bytes read) (refl, same, λ cs. sym (apply_all-Alike cs s b same))
