-- ===== src/Raft/ProposalRouter/Tests.antt =====
-- The theorems on the router of proposals at a node that adds up numbers.
use raftoral.Prelude.{ℕ, ◌≡◌, refl, [], ◌∷◌, none, arith}
use raftoral.Prelude.Eq.{nat_eq}
use raftoral.Prelude.HashMap.{get}
use raftoral.Prelude.Result.{ok}
use raftoral.Raft.Node.{Node}
use raftoral.Raft.Node.Sample.{env, node, entry}
use raftoral.Raft.Node.Entries.{apply_normal, run_command}
use raftoral.Raft.Node.Mailbox.{handle_raft_message}
use raftoral.Raft.ProposalRouter.{
  ProposalRouter, Retry, new, forward_message, forward_to_leader, propose_command, retry_loop,
}
use raftoral.Raft.ProposalRouter.Retries.{IsOutcome, retry_loop-IsOutcome}
use raftoral.Raft.ProposalRouter.Forwarding.{forward_to_leader_complete}
use raftoral.Raft.ProposalRouter.Refusals.{IsExplained, propose_command-IsExplained}

abbrev router : ProposalRouter env
router = new env node 3 1

-- Every sleep is three milliseconds late.
abbrev retries : ℕ → Retry env
retries i = record { late = 3; router = router }

retry_loop-IsOutcome_example : IsOutcome env retries (retry_loop env retries router)
retry_loop-IsOutcome_example = retry_loop-IsOutcome env retries router

propose_command-IsExplained_example :
    IsExplained env retries router (propose_command env 7 70 5 retries router)
propose_command-IsExplained_example = propose_command-IsExplained env retries router 7 70 5

abbrev here : Node env
here = (forward_to_leader env 7 70 2 4 router).0.node

forward_to_leader_complete_example :
    (here.transport ≡ (2, forward_message env 3 7 (4 ∷ [])) ∷ [])
    × (handle_raft_message env (forward_message env 3 7 (4 ∷ [])) node ≡ (node, ok tt))
    × ((apply_normal env (entry 4) here).sent ≡ (70, (run_command env (ok 4) here).1) ∷ [])
    × (get 7 (apply_normal env (entry 4) here).pending_proposals ≡ none)
forward_to_leader_complete_example =
    forward_to_leader_complete env 7 70 2 4 (4 ∷ []) router node (entry 4) (omega arith)
      (omega arith) refl refl refl
