-- ===== src/Raft/Node/Construction/Voters.antt =====
-- node.rs: the configuration that a new node starts from.
use raftoral.Prelude.{◌≡◌, ap, sym, [], ◌∷◌}
use raftoral.Prelude.Eq.{Text}
use raftoral.Prelude.Result.{Result, ok, err, ok-injective, ◌>>=◌}
use raftoral.Raft.Types.{ConfState}
use raftoral.Raft.RocksDbStorage.{Storage}
use raftoral.Raft.Node.{Env, Node}
use raftoral.Raft.Node.Construction.{
  RaftNodeConfig, Startup, raft_config, create_storage, initial_node, new_single_node,
  new_with_conf_state,
}

module _ {env : Env} (startup : Startup env) (config : RaftNodeConfig) (transport : env.Transport)
    (initial : env.machine.State) where
  created :
      (cs : ConfState) (storage : Storage env.rocks) (raw : Result Text env.RawNode) (n : Node env)
      → (do raw_node ← raw; ok (initial_node startup config transport initial cs storage raw_node))
        ≡ ok n
      → n.cached_conf_state ≡ cs
  created cs storage (ok raw) n h = sym (ap (λ m. m.cached_conf_state) (ok-injective h))
  created cs storage (err e) n h = absurd (cc h)

  created_on :
      (cs : ConfState) (storage : Result Text (Storage env.rocks)) (n : Node env)
      → (do
        store ← storage
        raw_node ← startup.raw_node_new (raft_config config) store
        ok (initial_node startup config transport initial cs store raw_node))
        ≡ ok n
      → n.cached_conf_state ≡ cs
  created_on cs (ok storage) n h = created cs storage _ n h
  created_on cs (err e) n h = absurd (cc h)

  -- A node that is created with a configuration has it.
  pub new_with_conf_state-conf_state :
      (cs : ConfState) (n : Node env)
      → new_with_conf_state startup config transport initial cs ≡ ok n
      → n.cached_conf_state ≡ cs
  unfolding new_with_conf_state
  new_with_conf_state-conf_state cs n h = created_on cs (create_storage startup config cs) n h

  -- A node that is created alone has itself as the only voter.
  pub new_single_node-conf_state :
      (n : Node env)
      → new_single_node startup config transport initial ≡ ok n
      → n.cached_conf_state.voters ≡ config.node_id ∷ []
  unfolding new_single_node
  new_single_node-conf_state n h =
      let cs : ConfState = record { voters = config.node_id ∷ []; learners = [] } in
      ap (λ c. c.voters) (created_on cs (create_storage startup config cs) n h)
