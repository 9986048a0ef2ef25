-- ===== src/Management/Runtime/Queries.antt =====
-- src/management/runtime.rs: what the runtime tells of the management cluster, by its node.
use raftoral.Prelude.{ℕ, List, Option, Bool}
use raftoral.Prelude.Eq.{nat_eq}
use raftoral.Prelude.Sets.{contains}
use raftoral.Raft.Node.{Env}
use raftoral.Raft.Node.Mailbox
use raftoral.Raft.ProposalRouter.{ProposalRouter}
use raftoral.Management.Runtime.{SubClusterRuntime, ManagementRuntime}

module _ (sub : SubClusterRuntime) {env : Env} where
  abbrev pub is_leader : ManagementRuntime sub (ProposalRouter env) → Bool
  is_leader self = Mailbox.is_leader env self.proposal_router.node

  abbrev pub leader_id : ManagementRuntime sub (ProposalRouter env) → Option ℕ
  leader_id self = Mailbox.leader_id env self.proposal_router.node

  abbrev pub get_management_voters : ManagementRuntime sub (ProposalRouter env) → List ℕ
  get_management_voters self = self.proposal_router.node.cached_conf_state.voters

  abbrev pub get_management_learners : ManagementRuntime sub (ProposalRouter env) → List ℕ
  get_management_learners self = self.proposal_router.node.cached_conf_state.learners

  abbrev pub is_management_voter : (node_id : ℕ) → ManagementRuntime sub (ProposalRouter env) → Bool
  is_management_voter node_id self = contains node_id (get_management_voters self)
