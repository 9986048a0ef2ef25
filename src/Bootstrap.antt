-- ===== src/Bootstrap.antt =====
-- src/grpc/bootstrap.rs: how a node that joins finds its peers and its own id. The call that asks a
-- peer is a parameter. src/http/bootstrap.rs has the same functions.
use raftoral.Prelude.{ℕ, ◌+◌, ◌%◌, List, [], ◌∷◌, Option, none, some, Bool, if◌then◌else◌, ltb, map}
use raftoral.Prelude.Eq.{Text}
use raftoral.Prelude.Result.{Result, ok, err}
use raftoral.Raft.RocksDbStorage.{u64_mod}

pub record DiscoveredPeer : Type 0 where
  pub node_id : ℕ
  pub address : Text
  pub highest_known_node_id : ℕ
  pub management_leader_node_id : ℕ
  pub management_leader_address : Text
  pub should_join_as_voter : Bool
  pub current_voter_count : ℕ
  pub max_voters : ℕ

abbrev pub and_peers :
    {E : Type 0} → Result E DiscoveredPeer → List DiscoveredPeer → List DiscoveredPeer
and_peers (ok peer) peers = peer ∷ peers
and_peers (err e) peers = peers

-- The peers that answered, in the order of the addresses.
abbrev pub discover_peers :
    {E : Type 0}
    → (discover_peer : Text → Result E DiscoveredPeer) → (addresses : List Text)
    → List DiscoveredPeer
discover_peers discover_peer [] = []
discover_peers discover_peer (address ∷ addresses) =
    and_peers (discover_peer address) (discover_peers discover_peer addresses)

-- `Iterator::max`
abbrev pub larger : ℕ → Option ℕ → ℕ
larger n none = n
larger n (some m) = if ltb m n then n else m

abbrev pub max_of : List ℕ → Option ℕ
max_of [] = none
max_of (n ∷ ns) = some (larger n (max_of ns))

abbrev pub after : Option ℕ → ℕ
after none = 1
after (some max_id) = (max_id + 1) % u64_mod

unfoldable pub next_node_id : (discovered_peers : List DiscoveredPeer) → ℕ
next_node_id discovered_peers = after (max_of (map (λ p. p.highest_known_node_id) discovered_peers))
