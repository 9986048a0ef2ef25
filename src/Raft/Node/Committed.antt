-- ===== src/Raft/Node/Committed.antt =====
-- node.rs: applying committed entries is replaying their commands on the state machine, whatever the
-- node keeps beside it.
use raftoral.Prelude.{
  ℕ, ◌≡◌, refl, sym, ap, subst, ◌∙◌, List, [], ◌∷◌, ◌++◌, Option, none, some, Bool, true, false,
  if◌then◌else◌, is_empty, All, length, ltb,
}
use raftoral.Prelude.Eq.{Text, nat_eq}
use raftoral.Prelude.HashMap.{get}
use raftoral.Prelude.Result.{Result, ok, err}
use raftoral.Prelude.Action.{continue}
use raftoral.Raft.Types.{
  Entry, ConfState, EntryType, entry_normal, entry_conf_change, entry_conf_change_v2,
}
use raftoral.Raft.RocksDbStorage.Writes.{steps}
use raftoral.Raft.Node.{
  ConfChange, ConfChangeType, add_node, remove_node, add_learner_node, Env, Node, complete,
  send_result,
}
use raftoral.Raft.Node.Entries.{
  sync_id_of, split_context, applied, run_command, apply_normal, change_peers, add_peer_of,
  raw_changed, conf_change_of, apply_conf_change, apply_entry, apply_one, apply_committed,
}

-- The entry carries a command, not a configuration change.
unfoldable pub IsNormal : Entry → Type 0
IsNormal e = e.entry_type ≡ entry_normal

module _ (env : Env) where
  -- What all replicas share: the state, the events so far and the last applied index.
  pub record Replica : Type 0 where
    pub state : env.machine.State
    pub events : List env.machine.Event
    pub index : ℕ

  abbrev pub replica : Node env → Replica
  replica n = record { state = n.state_machine; events = n.published; index = n.committed_index }

  abbrev replay_applied :
      env.machine.State × Result env.machine.Error (List env.machine.Event)
      → List env.machine.Event
      → ℕ
      → Replica
  replay_applied (s, ok new) old i = record { state = s; events = old ++ new; index = i }
  replay_applied (s, err e) old i = record { state = s; events = old; index = i }

  abbrev replay_command : Result Text env.machine.Command → ℕ → Replica → Replica
  replay_command (ok c) i r = replay_applied (env.machine.apply r.state c) r.events i
  replay_command (err e) i r = record r { index = i }

  abbrev replay_entry : EntryType → Entry → Replica → Replica
  replay_entry entry_normal e r = replay_command (env.decode_command e.payload) e.index r
  replay_entry entry_conf_change e r = r
  replay_entry entry_conf_change_v2 e r = r

  abbrev replay_one : Bool → Entry → Replica → Replica
  replay_one true e r = r
  replay_one false e r = replay_entry e.entry_type e r

  -- The commands of the normal entries with data, one after another.
  pub replay : List Entry → Replica → Replica
  replay [] r = r
  replay (e ∷ es) r = replay es (replay_one (is_empty e.payload) e r)

  send_result-replica :
      (id : ℕ) (tx : Option ℕ) (result : Result Text Unit) (n : Node env)
      → replica (send_result env id tx result n) ≡ replica n
  send_result-replica id none result n = refl
  send_result-replica id (some tx) result n = refl

  complete-replica :
      (id : Option ℕ) (result : Result Text Unit) (n : Node env)
      → replica (complete env id result n) ≡ replica n
  complete-replica none result n = refl
  complete-replica (some id) result n = send_result-replica id (get id n.pending_proposals) result n

  add_peer_of-replica :
      (id : ℕ) (address : Result Text Text) (n : Node env)
      → replica (add_peer_of env id address n).0 ≡ replica n
  add_peer_of-replica id (ok address) n = refl
  add_peer_of-replica id (err e) n = refl

  if-replica :
      (b : Bool) (x y : Node env × Result Text (Unit {0})) (n : Node env)
      → replica x.0 ≡ replica n
      → replica y.0 ≡ replica n
      → replica (if b then x else y).0 ≡ replica n
  if-replica true x y n h k = h
  if-replica false x y n h k = k

  change_peers-replica :
      (t : ConfChangeType) (cc : ConfChange) (start : ℕ) (n : Node env)
      → replica (change_peers env t cc start n).0 ≡ replica n
  unfolding change_peers
  change_peers-replica add_node cc start n =
      if-replica (ltb start (length cc.context)) _ _ n (add_peer_of-replica cc.node_id _ n) refl
  change_peers-replica remove_node cc start n = refl
  change_peers-replica add_learner_node cc start n = refl

  raw_changed-replica :
      (cc : ConfChange) (n : Node env) (raw : env.RawNode) (r : Result Text ConfState)
      → replica (raw_changed env cc n (raw, r)).0 ≡ replica n
  raw_changed-replica cc n raw (ok cs) =
      let m : Node env = record n { raw_node = raw; cached_conf_state = cs } in
      complete-replica (split_context cc.context).0 _
        (change_peers env cc.change_type cc (split_context cc.context).1 m).0
      ∙ change_peers-replica cc.change_type cc (split_context cc.context).1 m
  raw_changed-replica cc n raw (err e) = refl

  apply_conf_change-replica :
      (cc : Result Text ConfChange) (n : Node env) → replica (conf_change_of env cc n).0 ≡ replica n
  apply_conf_change-replica (ok cc) n = raw_changed-replica cc n _ _
  apply_conf_change-replica (err e) n = refl

  applied-replica :
      (r : env.machine.State × Result env.machine.Error (List env.machine.Event)) (n : Node env)
      (i : ℕ)
      → record (replica (applied env r n).0) { index = i } ≡ replay_applied r n.published i
  applied-replica (s, ok events) n i = refl
  applied-replica (s, err e) n i = refl

  run_command-replica :
      (c : Result Text env.machine.Command) (n : Node env) (i : ℕ)
      → record (replica (run_command env c n).0) { index = i } ≡ replay_command c i (replica n)
  run_command-replica (ok c) n i = applied-replica (env.machine.apply n.state_machine c) n i
  run_command-replica (err e) n i = refl

  apply_entry-replica :
      (t : EntryType) (e : Entry) (n : Node env)
      → replica (apply_entry env t e n).0 ≡ replay_entry t e (replica n)
  unfolding apply_entry apply_normal apply_conf_change
  apply_entry-replica entry_normal e n =
      ap {A = Replica} (λ r. record r { index = e.index })
        (complete-replica (sync_id_of e.context) _
          (run_command env (env.decode_command e.payload) n).0)
      ∙ run_command-replica (env.decode_command e.payload) n e.index
  apply_entry-replica entry_conf_change e n =
      apply_conf_change-replica (env.decode_conf_change e.payload) n
  apply_entry-replica entry_conf_change_v2 e n =
      apply_conf_change-replica (env.decode_conf_change e.payload) n

  apply_one-replica :
      (b : Bool) (e : Entry) (n : Node env)
      → replica (if b then (n, ok tt) else apply_entry env e.entry_type e n).0
        ≡ replay_one b e (replica n)
  apply_one-replica true e n = refl
  apply_one-replica false e n = apply_entry-replica e.entry_type e n

  -- Where applying committed entries succeeds, the state machine, the published events and the last
  -- applied index are what replaying the commands of the entries gives. They depend on nothing else
  -- that the node keeps.
  pub apply_committed-replay :
      (es : List Entry) (n n' : Node env)
      → apply_committed env es n ≡ (n', ok tt)
      → replica n' ≡ replay es (replica n)
  unfolding apply_committed replay
  apply_committed-replay [] n n' h = sym (ap (λ p. replica p.0) h)
  apply_committed-replay (e ∷ es) n n' h =
      let (m, _, h1, h2) = steps (apply_one env e) (λ _. apply_committed env es) n n' tt h in
      apply_committed-replay es m n' h2
      ∙ ap (replay es) (sym (ap (λ p. replica p.0) h1) ∙ apply_one-replica (is_empty e.payload) e n)

  apply_one-normal :
      (b : Bool) (e : Entry) (n : Node env) (t : EntryType)
      → t ≡ entry_normal
      → (if b then (n, ok tt) else apply_entry env t e n).1 ≡ ok tt
  unfolding apply_entry
  apply_one-normal true e n t h = refl
  apply_one-normal false e n t h = subst (λ t. (apply_entry env t e n).1 ≡ ok tt) (sym h) refl

  apply_one-ok :
      (e : Entry) (n : Node env) → IsNormal e → apply_one env e n ≡ ((apply_one env e n).0, ok tt)
  unfolding IsNormal
  apply_one-ok e n h =
      ap (λ r. ((apply_one env e n).0, r))
        (apply_one-normal (is_empty e.payload) e n e.entry_type h)

  apply_committed-ok :
      (es : List Entry) (n : Node env) → All IsNormal es → (apply_committed env es n).1 ≡ ok tt
  unfolding apply_committed
  apply_committed-ok [] n h = refl
  apply_committed-ok (e ∷ es) n h =
      ap (λ p. (continue p.0 p.1 (λ _. apply_committed env es)).1) (apply_one-ok e n h.0)
      ∙ apply_committed-ok es (apply_one env e n).0 h.1

  -- Applying committed entries without a configuration change always succeeds, whatever their commands
  -- do, and leaves the state machine, the published events and the last applied index that replaying
  -- them gives: a command that does not decode or is refused publishes nothing, and the ones behind it
  -- are applied all the same.
  pub apply_committed-normal :
      (es : List Entry) (n : Node env)
      → All IsNormal es
      → ((apply_committed env es n).1 ≡ ok tt)
        × (replica (apply_committed env es n).0 ≡ replay es (replica n))
  apply_committed-normal es n h =
      let succeeds = apply_committed-ok es n h in
      (
        succeeds,
        apply_committed-replay es n (apply_committed env es n).0
            (ap (λ r. ((apply_committed env es n).0, r)) succeeds),
      )
