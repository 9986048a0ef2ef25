-- ===== src/Raft/ProposalRouter/Refusals.antt =====
-- proposal_router.rs: when `propose` answers that there is no leader to propose to.
use raftoral.Prelude.{
  ℕ, ◌≤◌, ◌≡◌, refl, Option, none, some, Bool, true, false, if◌then◌else◌, nat_beq, arith,
}
use raftoral.Prelude.Eq.{Text}
use raftoral.Prelude.Result.{Result, ok, err}
use raftoral.StateMachine.{Bytes}
use raftoral.Raft.Node.{Env, Node}
use raftoral.Raft.Node.Proposals.{propose}
use raftoral.Raft.Node.Mailbox.{leader_id, is_leader}
use raftoral.Raft.ProposalRouter.{
  ProposalRouter, ProposalError, not_leader, failed, Retry, Search, found, gave_up, out_of_fuel,
  leader_of, known_leader, queried, forward_or_refuse, forward_to_leader, forwarded, send_to_leader,
  proposed, propose_if, propose_command, retry_loop,
}
use raftoral.Raft.ProposalRouter.Retries.{waited, Leaderless, IsOutcome, retry_loop-IsOutcome}

module _ (env : Env) where
  -- Why there was no leader to propose to.
  unfoldable pub IsRefusal :
      (ℕ → Retry env) → ProposalRouter env → ProposalRouter env → Option ℕ → Type 0
  IsRefusal retries self after none =
      (self.leader_id ≡ none)
      × (leader_id env self.node ≡ none)
      × (n : ℕ) × (n ≤ 9)
      × (2000 ≤ waited env retries n)
      × Leaderless env retries n
  IsRefusal retries self after (some leader) = leader ≡ after.node_id

  -- An answer that is not `NotLeader`, or one with its reason.
  unfoldable pub IsExplained :
      (ℕ → Retry env) → ProposalRouter env → ProposalRouter env × Result ProposalError ℕ → Type 0
  IsExplained retries self (after, ok rx) = Unit
  IsExplained retries self (after, err (failed e)) = Unit
  IsExplained retries self (after, err (not_leader leader)) = IsRefusal retries self after leader

  module _ (retries : ℕ → Retry env) (self : ProposalRouter env) (sync_id tx : ℕ)
      (command : env.machine.Command) where
    local-IsExplained :
        (r : Node env × Result Text (Unit {0})) → IsExplained retries self (proposed env tx self r)
    unfolding IsExplained
    local-IsExplained (n, ok a) = tt
    local-IsExplained (n, err e) = tt

    forwarded-IsExplained :
        (r : ProposalRouter env) (t : env.Transport × Result Text (Unit {0}))
        → IsExplained retries self (forwarded env tx r t)
    unfolding IsExplained
    forwarded-IsExplained r (t, ok a) = tt
    forwarded-IsExplained r (t, err e) = tt

    send_to_leader-IsExplained :
        (leader : ℕ) (r : ProposalRouter env) (bytes : Result Text Bytes)
        → IsExplained retries self (send_to_leader env sync_id tx leader bytes r)
    unfolding IsExplained
    send_to_leader-IsExplained leader r (err e) = tt
    send_to_leader-IsExplained leader r (ok bytes) = forwarded-IsExplained r _

    chosen-IsExplained :
        (leader : ℕ) (r : ProposalRouter env) (own : Bool)
        → nat_beq leader r.node_id ≡ own
        → IsExplained retries self (
            if own
            then (r, err (not_leader (some leader)))
            else forward_to_leader env sync_id tx leader command r)
    unfolding IsExplained IsRefusal forward_to_leader
    chosen-IsExplained leader r true own = ground arith
    chosen-IsExplained leader r false own = send_to_leader-IsExplained leader _ _

    forward_or_refuse-IsExplained :
        (leader : Option ℕ) (r : ProposalRouter env)
        → (leader ≡ none → IsRefusal retries self r none)
        → IsExplained retries self (forward_or_refuse env sync_id tx command leader r)
    unfolding IsExplained forward_to_leader
    forward_or_refuse-IsExplained none r reason = reason refl
    forward_or_refuse-IsExplained (some leader) r reason = chosen-IsExplained leader r _ refl

    retried-IsExplained :
        (search : ProposalRouter env × Search env)
        → self.leader_id ≡ none
        → leader_id env self.node ≡ none
        → IsOutcome env retries search
        → IsExplained retries self
            (forward_or_refuse env sync_id tx command (leader_of env search.1) search.0)
    unfolding IsOutcome IsRefusal
    retried-IsExplained (r, found l) uncached unknown h =
        forward_or_refuse-IsExplained (some l) r (λ e. absurd (cc e))
    retried-IsExplained (r, gave_up) uncached unknown h =
        let (n, few, long, leaderless) = h in
        forward_or_refuse-IsExplained none r (λ e. (uncached, unknown, n, few, long, leaderless))
    retried-IsExplained (r, out_of_fuel) uncached unknown h = absurd h

    queried-IsExplained :
        (leader : Option ℕ)
        → self.leader_id ≡ none
        → leader_id env self.node ≡ leader
        → (let (r, l) = queried env retries leader self in
            IsExplained retries self (forward_or_refuse env sync_id tx command l r))
    queried-IsExplained none uncached unknown =
        retried-IsExplained (retry_loop env retries self) uncached unknown
          (retry_loop-IsOutcome env retries self)
    queried-IsExplained (some l) uncached known =
        forward_or_refuse-IsExplained (some l) _ (λ e. absurd (cc e))

    known_leader-IsExplained :
        (leader : Option ℕ)
        → self.leader_id ≡ leader
        → (let (r, l) = known_leader env retries leader self in
            IsExplained retries self (forward_or_refuse env sync_id tx command l r))
    known_leader-IsExplained none uncached = queried-IsExplained _ uncached refl
    known_leader-IsExplained (some l) cached =
        forward_or_refuse-IsExplained (some l) self (λ e. absurd (cc e))

    propose_if-IsExplained :
        (leads : Bool)
        → IsExplained retries self (propose_if env sync_id tx command retries leads self)
    propose_if-IsExplained true = local-IsExplained (propose env sync_id tx command self.node)
    propose_if-IsExplained false = known_leader-IsExplained _ refl

    -- `propose` answers `NotLeader` without a leader only if none was known at first and none of the
    -- retries saw one until two seconds were over, and with a leader only if that is the node itself.
    pub propose_command-IsExplained :
        IsExplained retries self (propose_command env sync_id tx command retries self)
    unfolding propose_command
    propose_command-IsExplained = propose_if-IsExplained (is_leader env self.node)
