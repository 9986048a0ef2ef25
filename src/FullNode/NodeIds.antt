-- ===== src/FullNode/NodeIds.antt =====
-- src/grpc/bootstrap.rs, src/grpc/server.rs and src/full_node/mod.rs: the ids that joining nodes take.
use raftoral.Prelude.{
  ℕ, ◌-◌, ◌<◌, ◌≡◌, refl, ap, sym, ◌∙◌, List, [], ◌∷◌, ◌++◌, Option, none, some, subst, map, All,
  arith,
}
use raftoral.Prelude.Eq.{Text}
use raftoral.Prelude.Result.{Result, ok, err}
use raftoral.Raft.Node.{Env}
use raftoral.Raft.Node.Construction.{Startup}
use raftoral.Raft.RocksDbStorage.{u64_mod}
use raftoral.Raft.Transport.{Network, TransportLayer}
use raftoral.Management.Runtime.{SubClusterRuntime}
use raftoral.Bootstrap.{
  DiscoveredPeer, discover_peers, and_peers, larger, max_of, after, next_node_id,
}
use raftoral.Grpc.{GrpcServer, discover}
use raftoral.FullNode.{Joined, new_joining, join_runtime, peer_transport, management_config}
use raftoral.FullNode.Joining.{join-ok}

larger-below : (n k : ℕ) (r : Option ℕ) → larger n r < k → (n < k) × ((m : ℕ) → r ≡ some m → m < k)
larger-below n k none h = (h, λ m e. absurd (cc e))
larger-below n k (some a) h = (ground arith, λ m e. ground arith)

-- What is above the maximum is above every element.
max_of-below : (k : ℕ) (ns : List ℕ) → ((m : ℕ) → max_of ns ≡ some m → m < k) → All (λ n. n < k) ns
max_of-below k [] h = tt
max_of-below k (n ∷ ns) h =
    let (here, rest) = larger-below n k (max_of ns) (h _ refl) in (here, max_of-below k ns rest)

max_of-attained : (k : ℕ) (ns : List ℕ) (m : ℕ) → All (λ n. n < k) ns → max_of ns ≡ some m → m < k
max_of-attained k [] m h e = absurd (cc e)
max_of-attained k (n ∷ ns) m h e = go (max_of ns) (max_of-attained k ns) e
  where
    go :
        (r : Option ℕ)
        → ((m : ℕ) → All (λ n. n < k) ns → r ≡ some m → m < k)
        → some (larger n r) ≡ some m
        → m < k
    go none tail e = let below : n < k = h.0 in ground arith
    go (some a) tail e =
        let below : n < k = h.0 in let rest : a < k = tail a h.1 refl in ground arith

-- The id that is taken is above every known one, where it does not wrap around.
after-above : (ns : List ℕ) → All (λ n. n < u64_mod - 1) ns → All (λ n. n < after (max_of ns)) ns
after-above ns fits = max_of-below (after (max_of ns)) ns (λ m e.
    let bound : m < u64_mod - 1 = max_of-attained (u64_mod - 1) ns m fits e in
    subst (λ r. m < after r) (sym e) (omega arith))

-- `highest_known_node_id` of the peers.
abbrev highest : List DiscoveredPeer → List ℕ
highest = map (λ p. p.highest_known_node_id)

module _ (env : Env) (sub : SubClusterRuntime) (network : Network) where
  -- The nodes at the addresses, as they answer at some time.
  abbrev pub Serving : Type 0
  Serving = Text → Result Text (GrpcServer env sub network)

  abbrev answer : Result Text (GrpcServer env sub network) → Result Text DiscoveredPeer
  answer (ok server) = ok (discover env sub network server)
  answer (err e) = err e

  abbrev pub asked : Serving → Text → Result Text DiscoveredPeer
  asked serving address = answer (serving address)

  abbrev id_of : Result Text (GrpcServer env sub network) → List ℕ
  id_of (ok server) = server.node_id ∷ []
  id_of (err e) = []

  -- The ids of the nodes that answer.
  abbrev pub ids : Serving → List Text → List ℕ
  ids serving [] = []
  ids serving (seed ∷ seeds) = id_of (serving seed) ++ ids serving seeds

  highest-ids :
      (serving : Serving) (seeds : List Text)
      → highest (discover_peers (asked serving) seeds) ≡ ids serving seeds
  unfolding discover
  highest-ids serving [] = refl
  highest-ids serving (seed ∷ seeds) = go (serving seed) (highest-ids serving seeds)
    where
      go :
          (r : Result Text (GrpcServer env sub network))
          → highest (discover_peers (asked serving) seeds) ≡ ids serving seeds
          → highest (and_peers (answer r) (discover_peers (asked serving) seeds))
            ≡ id_of r ++ ids serving seeds
      go (ok server) h = ap (λ l. server.node_id ∷ l) h
      go (err e) h = h

  ids-same :
      (serving later : Serving) (seeds : List Text)
      → ((a : Text) → id_of (serving a) ≡ id_of (later a))
      → ids serving seeds ≡ ids later seeds
  ids-same serving later [] h = refl
  ids-same serving later (seed ∷ seeds) h = rw (h seed, ids-same serving later seeds h) refl

  next-ids :
      (serving : Serving) (seeds : List Text)
      → next_node_id (discover_peers (asked serving) seeds) ≡ after (max_of (ids serving seeds))
  unfolding next_node_id
  next-ids serving seeds = ap (λ l. after (max_of l)) (highest-ids serving seeds)

module _ (sub : SubClusterRuntime) {env : Env} (startup : Startup env) (initial : env.machine.State)
    (network : Network) (transport_of : TransportLayer network → env.Transport)
    (parse : Text → Result Text (Unit {0})) where
  id_taken :
      (serving : Serving env sub network) (tx : sub.mpsc.Sender) (address : Text)
      (seeds : List Text) (storage_path : Option Text) (sender : network.Net)
      (j : Joined sub startup initial network transport_of parse (asked env sub network serving) tx)
      → new_joining sub startup initial network transport_of parse
          (asked env sub network serving)
          tx
          address
          seeds
          storage_path
          sender
        ≡ ok j
      → j.1.node_id ≡ after (max_of (ids env sub network serving seeds))
  unfolding new_joining
  id_taken serving tx address seeds storage_path sender j h =
      let ask = asked env sub network serving in
      let (created, id) =
        join-ok sub startup initial network transport_of parse tx ask _ address
          (discover_peers ask seeds)
          (λ ps.
            join_runtime sub startup initial network transport_of parse ask tx
              (peer_transport sub startup initial network transport_of parse ask tx [] sender ps)
              (management_config (next_node_id ps) storage_path) ps)
          j h in
      id ∙ next-ids env sub network serving seeds

  -- A node that joins takes an id above the ids of the seeds that answer, where these are below the
  -- largest one; and a node that joins through the same seeds later takes the same id, as long as the
  -- seeds have their ids, whatever else they know by then.
  pub new_joining-node_id :
      (serving later : Serving env sub network) (tx tx' : sub.mpsc.Sender) (address address' : Text)
      (seeds : List Text) (storage_path storage_path' : Option Text) (sender sender' : network.Net)
      (j : Joined sub startup initial network transport_of parse (asked env sub network serving) tx)
      (j' : Joined sub startup initial network transport_of parse (asked env sub network later) tx')
      → ((a : Text) → id_of env sub network (serving a) ≡ id_of env sub network (later a))
      → All (λ id. id < u64_mod - 1) (ids env sub network serving seeds)
      → new_joining sub startup initial network transport_of parse
          (asked env sub network serving)
          tx
          address
          seeds
          storage_path
          sender
        ≡ ok j
      → new_joining sub startup initial network transport_of parse
          (asked env sub network later)
          tx'
          address'
          seeds
          storage_path'
          sender'
        ≡ ok j'
      → All (λ id. id < j.1.node_id) (ids env sub network serving seeds)
        × (j'.1.node_id ≡ j.1.node_id)
  new_joining-node_id serving later tx tx' address address' seeds storage_path storage_path' sender
        sender' j j' same fits h h' =
      let taken = id_taken serving tx address seeds storage_path sender j h in
      (
        subst (λ id. All (λ n. n < id) (ids env sub network serving seeds)) (sym taken)
            (after-above (ids env sub network serving seeds) fits),
        id_taken later tx' address' seeds storage_path' sender' j' h'
            ∙ ap (λ l. after (max_of l)) (sym (ids-same env sub network serving later seeds same))
            ∙ sym taken,
      )
