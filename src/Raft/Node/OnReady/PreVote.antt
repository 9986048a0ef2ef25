-- ===== src/Raft/Node/OnReady/PreVote.antt =====
-- node.rs, `on_ready` in a round that brings the role before an election.
use raftoral.Prelude.{
  ℕ, ◌≡◌, refl, sym, ap, ◌∙◌, [], Option, none, some, Bool, true, false, subst, if◌then◌else◌,
  is_empty,
}
use raftoral.Prelude.Eq.{Text}
use raftoral.Prelude.Result.{Result, ok, err}
use raftoral.Prelude.Action.{continue, ◌>>◌}
use raftoral.Raft.Types.{HardState, Snapshot}
use raftoral.Raft.RocksDbStorage.{St, append}
use raftoral.Raft.Node.{Env, Node, Step, Ready, StateRole, pre_candidate}
use raftoral.Raft.Node.Entries.{apply_committed}
use raftoral.Raft.Node.OnReady.{
  same_role, on_store, append_entries, set_hardstate, role_and_after, after_role, change_role,
  restore_snapshot, given, on_ready,
}

module _ (env : Env) where
  -- The parts of the node that a message or an advance would change, and its role.
  pub record Outside : Type 0 where
    pub transport : env.Transport
    pub raw_node : env.RawNode
    pub role : StateRole

  abbrev pub outside : Node env → Outside
  outside n = record { transport = n.transport; raw_node = n.raw_node; role = n.current_role }

  append_entries-outside :
      (b : Bool) (a : St env.rocks (Unit {0})) (n : Node env)
      → outside (if b then (n, ok tt) else on_store env a n).0 ≡ outside n
  append_entries-outside true a n = refl
  append_entries-outside false a n = refl

  set_hardstate-outside :
      (hs : Option HardState) (n : Node env) → outside (set_hardstate env hs n).0 ≡ outside n
  set_hardstate-outside none n = refl
  set_hardstate-outside (some hs) n = refl

  continue-outside :
      (n : Node env) (r : Result Text (Unit {0})) (f : Step env) (o : Outside)
      → outside n ≡ o
      → ((m : Node env) → outside m ≡ o → outside (f m).0 ≡ o)
      → outside (continue n r (λ _. f)).0 ≡ o
  continue-outside n (ok a) f o h k = k n h
  continue-outside n (err e) f o h k = h

  restore_snapshot-outside :
      (snapshot : Option Snapshot) (n : Node env)
      → outside (restore_snapshot env snapshot n) ≡ outside n
  restore_snapshot-outside none n = refl
  restore_snapshot-outside (some snapshot) n = refl

  role_and_after-outside :
      (now : ℕ) (ready : Ready env.Message) (m : Node env) (ss : Option StateRole)
      → ss ≡ some pre_candidate
      → same_role pre_candidate m.current_role ≡ false
      → outside (after_role env now ready (change_role env ss m).1 (change_role env ss m).0).0
        ≡ outside m
  role_and_after-outside now ready m ss h k =
      subst
        (λ ss.
          outside (after_role env now ready (change_role env ss m).1 (change_role env ss m).0).0
          ≡ outside m)
        (sym h) (rw k refl)

  -- The steps between the committed entries and the end of the round.
  persisted-outside :
      (now : ℕ) (ready : Ready env.Message) (n : Node env) (o : Outside)
      → ready.ss ≡ some pre_candidate
      → same_role pre_candidate o.role ≡ false
      → outside n ≡ o
      → outside
          ((append_entries env ready.entries
              >> (set_hardstate env ready.hs >> role_and_after env now ready))
            n).0
        ≡ o
  persisted-outside now ready n o ss role h =
      continue-outside (append_entries env ready.entries n).0 (append_entries env ready.entries n).1
        (set_hardstate env ready.hs >> role_and_after env now ready) o
        (append_entries-outside (is_empty ready.entries) (append env.rocks ready.entries) n ∙ h)
        (λ m k.
          continue-outside (set_hardstate env ready.hs m).0 (set_hardstate env ready.hs m).1
            (role_and_after env now ready) o (set_hardstate-outside ready.hs m ∙ k)
            (λ p l.
              role_and_after-outside now ready p ready.ss ss
                (ap (λ x. same_role pre_candidate x.role) l ∙ role)
              ∙ l))

  -- In a round without committed entries that brings the role before an election, and is the first to
  -- bring it, no message is sent and raft-rs is not advanced, whatever messages the round has, and
  -- the node keeps its role.
  pub on_ready-pre_candidate :
      (now : ℕ) (n : Node env) (raw : env.RawNode) (ready : Ready env.Message)
      → env.has_ready n.raw_node n.store ≡ some (raw, ready)
      → ready.committed_entries ≡ []
      → ready.ss ≡ some pre_candidate
      → same_role pre_candidate n.current_role ≡ false
      → outside (on_ready env now n).0
        ≡ record { transport = n.transport; raw_node = raw; role = n.current_role }
  unfolding on_ready apply_committed
  on_ready-pre_candidate now n raw ready has no_entries ss role =
      let o : Outside = record { transport = n.transport; raw_node = raw; role = n.current_role } in
      let start = restore_snapshot env ready.snapshot (record n { raw_node = raw }) in
      let persist =
        append_entries env ready.entries
        >> (set_hardstate env ready.hs >> role_and_after env now ready) in
      ap (λ g. outside (given env now g n).0) has
      ∙ subst
          (λ es.
            outside
              (continue (apply_committed env es start).0 (apply_committed env es start).1
                (λ _. persist)).0
            ≡ o)
          (sym no_entries)
          (persisted-outside now ready start o ss role (restore_snapshot-outside ready.snapshot _))
