-- ===== src/Raft/Node/Mailbox/Failures.antt =====
-- node.rs, `run`: what ends the loop of a node.
use raftoral.Prelude.{ℕ, ◌≡◌, ◌≢◌, refl, ap, ◌∙◌, List, [], ◌∷◌, ◌++◌, some, All}
use raftoral.Prelude.Eq.{Text}
use raftoral.Prelude.Result.{Result, ok, err}
use raftoral.Prelude.Action.{continue, ◌>>◌}
use raftoral.Raft.Types.{GenericMessage, ProposeMessage, propose_message}
use raftoral.Raft.Node.{Env, Node, Step}
use raftoral.Raft.Node.OnReady.{on_ready}
use raftoral.Raft.Node.Mailbox.{
  Wakeup, ticked, closed, received, context_of, handle_raft_message, run,
}

abbrev proposal : (cluster_id : ℕ) → ProposeMessage → GenericMessage
proposal cluster_id msg = record { cluster_id = cluster_id; message = some (propose_message msg) }

module _ (env : Env) where
  replaced_after :
      (n m : Node env) (r : Result Text (Unit {0})) (f g : Step env)
      (z : Node env × Result Text (Unit {0}))
      → continue n r (λ _. f) ≡ (m, ok tt)
      → ((p : Node env) → f p ≡ (m, ok tt) → g p ≡ z)
      → continue n r (λ _. g) ≡ z
  replaced_after n m (ok a) f g z h k = k n h
  replaced_after n m (err e) f g z h k = absurd (cc (ap (λ p. p.1) h))

  -- Where a step succeeds, what follows may be replaced.
  replaced :
      (a f g : Step env) (n m : Node env) (z : Node env × Result Text (Unit {0}))
      → (a >> f) n ≡ (m, ok tt)
      → ((p : Node env) → f p ≡ (m, ok tt) → g p ≡ z)
      → (a >> g) n ≡ z
  replaced a f g n m z = replaced_after (a n).0 m (a n).1 f g z

  refused :
      (m : Node env) (raw : env.RawNode) (e : Text) (cluster_id : ℕ) (msg : ProposeMessage)
      → env.raw_propose (context_of msg.sync_id) msg.command_json m.raw_node ≡ (raw, err e)
      → handle_raft_message env (proposal cluster_id msg) m ≡ (record m { raw_node = raw }, err e)
  unfolding handle_raft_message
  refused m raw e cluster_id msg h = ap (λ p. (record m { raw_node = p.0 }, p.1)) h

  -- Where raft-rs refuses a forwarded proposal, for instance since no leader is known, the loop of the
  -- node ends with that error, whatever it handled before and whatever waits in the mailbox.
  pub run-refused :
      (ws rest : List (Wakeup × ℕ)) (n m : Node env) (raw : env.RawNode) (e : Text)
      (cluster_id now : ℕ) (msg : ProposeMessage)
      → All (λ w. w.0 ≢ closed) ws
      → run env ws n ≡ (m, ok tt)
      → env.raw_propose (context_of msg.sync_id) msg.command_json m.raw_node ≡ (raw, err e)
      → run env (ws ++ (received (proposal cluster_id msg), now) ∷ rest) n
        ≡ (record m { raw_node = raw }, err e)
  unfolding run
  run-refused [] rest n m raw e cluster_id now msg opened h refusal =
      let handle = handle_raft_message env (proposal cluster_id msg) in
      let others : Step env = on_ready env now >> run env rest in
      ap (handle >> others) (ap (λ p. p.0) h)
      ∙ ap (λ r. continue r.0 r.1 (λ _. others)) (refused m raw e cluster_id msg refusal)
  run-refused ((ticked, t) ∷ ws) rest n m raw e cluster_id now msg opened h refusal =
      replaced (on_ready env t) (run env ws)
        (run env (ws ++ (received (proposal cluster_id msg), now) ∷ rest))
        (record n { raw_node = env.tick n.raw_node }) m (record m { raw_node = raw }, err e) h
        (λ p k. run-refused ws rest p m raw e cluster_id now msg opened.1 k refusal)
  run-refused ((closed, t) ∷ ws) rest n m raw e cluster_id now msg opened h refusal =
      absurd (opened.0 refl)
  run-refused ((received x, t) ∷ ws) rest n m raw e cluster_id now msg opened h refusal =
      let next : Step env = run env (ws ++ (received (proposal cluster_id msg), now) ∷ rest) in
      let z : Node env × Result Text (Unit {0}) = (record m { raw_node = raw }, err e) in
      replaced (handle_raft_message env x) (on_ready env t >> run env ws) (on_ready env t >> next) n
        m z h
        (λ p k.
          replaced (on_ready env t) (run env ws) next p m z k
            (λ q l. run-refused ws rest q m raw e cluster_id now msg opened.1 l refusal))
