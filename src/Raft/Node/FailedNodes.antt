-- ===== src/Raft/Node/FailedNodes.antt =====
-- node.rs: the followers that `check_follower_progress` reports.
use raftoral.Prelude.{
  ℕ, ◌-◌, ◌≡◌, refl, ap, ◌∙◌, List, [], ◌∷◌, Option, none, some, Bool, true, false, not, ◌&&◌,
  if◌then◌else◌, arith, nat_beq, leb, ltb, map, filter_by, All,
}
use raftoral.Prelude.Eq.{nat_eq}
use raftoral.Prelude.HashMap.{HashMap, get, get-insert}
use raftoral.Raft.Node.Followers.{Progress, judge, next_progress, check_peers}

-- No two entries have the same key.
unfoldable pub Distinct : HashMap ℕ ℕ → Type 0
Distinct [] = Unit
Distinct ((p, m) ∷ ps) = All (λ q. nat_beq p q.0 ≡ false) ps × Distinct ps

-- A record of no less that is older than the timeout.
abbrev pub timed_out : (now timeout matched : ℕ) → Option (ℕ × ℕ) → Bool
timed_out now timeout matched none = false
timed_out now timeout matched (some (last_matched, last_update)) =
    leb matched last_matched && ltb timeout (now - last_update)

-- Another node that lags behind the commit index and timed out.
abbrev pub has_stalled : (now timeout commit_index node_id : ℕ) → Progress → ℕ × ℕ → Bool
has_stalled now timeout commit_index node_id progress (peer, matched) =
    not (nat_beq peer node_id)
    && ltb matched commit_index
    && timed_out now timeout matched (get peer progress)

judge-timed_out :
    (now timeout commit_index matched : ℕ) (seen : Option (ℕ × ℕ))
    → (judge now timeout commit_index matched seen).1
      ≡ (ltb matched commit_index && timed_out now timeout matched seen)
judge-timed_out now timeout commit_index matched none = ground arith
judge-timed_out now timeout commit_index matched (some (a, b)) = ground arith

get-next :
    (mine recorded : Bool) (peer : ℕ) (v : ℕ × ℕ) (progress : Progress) (q : ℕ)
    → nat_beq peer q ≡ false
    → get q (next_progress mine recorded peer v progress) ≡ get q progress
get-next true recorded peer v progress q h = refl
get-next false false peer v progress q h = refl
get-next false true peer v progress q h = rw (get-insert peer q v progress, h) refl

next_progress-seen :
    (mine recorded : Bool) (peer : ℕ) (v : ℕ × ℕ) (progress start : Progress) (prs : HashMap ℕ ℕ)
    → All (λ q. nat_beq peer q.0 ≡ false) prs
    → All (λ q. get q.0 progress ≡ get q.0 start) prs
    → All (λ q. get q.0 (next_progress mine recorded peer v progress) ≡ get q.0 start) prs
next_progress-seen mine recorded peer v progress start [] d h = tt
next_progress-seen mine recorded peer v progress start (q ∷ prs) d h = (
  get-next mine recorded peer v progress q.0 d.0 ∙ h.0,
  next_progress-seen mine recorded peer v progress start prs d.1 h.1,
)

reported :
    (mine failed lags late : Bool) (q : ℕ × ℕ) (rest : List ℕ) (stalled : List (ℕ × ℕ))
    → failed ≡ (lags && late)
    → rest ≡ map (λ q. q.0) stalled
    → (if mine then rest else if failed then q.0 ∷ rest else rest)
      ≡ map (λ q. q.0) (if (not mine && lags && late) then q ∷ stalled else stalled)
reported true failed lags late q rest stalled h k = k
reported false failed false late q rest stalled h k = rw h k
reported false failed true false q rest stalled h k = rw h k
reported false failed true true q rest stalled h k = rw h (ap (λ l. q.0 ∷ l) k)

check_peers-seen :
    (now timeout commit_index node_id : ℕ) (prs : HashMap ℕ ℕ) (progress start : Progress)
    → Distinct prs
    → All (λ q. get q.0 progress ≡ get q.0 start) prs
    → (check_peers now timeout commit_index node_id prs progress).1
      ≡ map (λ q. q.0) (filter_by (has_stalled now timeout commit_index node_id start) prs)
unfolding Distinct check_peers
check_peers-seen now timeout commit_index node_id [] progress start d h = refl
check_peers-seen now timeout commit_index node_id ((peer, matched) ∷ prs) progress start d h =
    let (recorded, failed) = judge now timeout commit_index matched (get peer progress) in
    let mine = nat_beq peer node_id in
    reported mine failed (ltb matched commit_index) (timed_out now timeout matched (get peer start))
      (peer, matched) _ _
      (judge-timed_out now timeout commit_index matched (get peer progress)
        ∙ ap (λ s. ltb matched commit_index && timed_out now timeout matched s) h.0)
      (check_peers-seen now timeout commit_index node_id prs
        (next_progress mine recorded peer (matched, now) progress) start d.1
        (next_progress-seen mine recorded peer (matched, now) progress start prs d.0 h.1))

All-same :
    (progress : Progress) (prs : HashMap ℕ ℕ) → All (λ q. get q.0 progress ≡ get q.0 progress) prs
All-same progress [] = tt
All-same progress (q ∷ prs) = (refl, All-same progress prs)

-- For peers without a repeated id, the reported followers are exactly the other nodes that lag behind
-- the commit index, have a record of progress from before the round that is not exceeded, and whose
-- record is older than the timeout; in the order of the peers.
pub check_peers_lem :
    (now timeout commit_index node_id : ℕ) (prs : HashMap ℕ ℕ) (progress : Progress)
    → Distinct prs
    → (check_peers now timeout commit_index node_id prs progress).1
      ≡ map (λ q. q.0) (filter_by (has_stalled now timeout commit_index node_id progress) prs)
check_peers_lem now timeout commit_index node_id prs progress d =
    check_peers-seen now timeout commit_index node_id prs progress progress d
      (All-same progress prs)
