-- ===== src/Raft/ProposalRouter.antt =====
-- src/raft/generic/proposal_router.rs: proposals go to the leader, wherever it is.
pub mod Retries
pub mod Forwarding
pub mod Refusals
mod Tests
use raftoral.Prelude.{
  ℕ, zero, suc, ◌+◌, ◌*◌, List, [], ◌∷◌, ◌++◌, Option, none, some, Bool, true, false, if◌then◌else◌,
  nat_beq, ltb,
}
use raftoral.Prelude.Eq.{Text, codes}
use raftoral.Prelude.Result.{Result, ok, err, map_err}
use raftoral.Prelude.Action.{Action}
use raftoral.StateMachine.{Bytes}
use raftoral.Raft.Types.{ProposeMessage, GenericMessage, propose_message}
use raftoral.Raft.Node.{Env, Node, RoleChange, became_follower, became_candidate, became_leader}
use raftoral.Raft.Node.Proposals.{
  propose, register_forwarded_proposal, add_peer_node, remove_peer_node,
}
use raftoral.Raft.Node.Mailbox.{leader_id, is_leader}

pub data ProposalError : Type 0 where
  not_leader : (leader_id : Option ℕ) → ProposalError
  failed : Text → ProposalError

-- `min(delay_ms * 2, max_delay_ms)`
abbrev pub next_delay : ℕ → ℕ
next_delay delay_ms = if ltb (delay_ms * 2) 500 then delay_ms * 2 else 500

module _ (env : Env) where
  -- The node is shared with its own loop; the transport is the one of the node.
  pub record ProposalRouter : Type 0 where
    pub node : Node env
    pub cluster_id : ℕ
    pub leader_id : Option ℕ
    pub node_id : ℕ

  abbrev pub new : Node env → (cluster_id node_id : ℕ) → ProposalRouter
  new node cluster_id node_id = record {
    node = node;
    cluster_id = cluster_id;
    leader_id = none;
    node_id = node_id;
  }

  -- The body of the loop of `run_leader_tracker`.
  unfoldable pub track : RoleChange → ProposalRouter → ProposalRouter
  track became_leader self = record self { leader_id = some self.node_id }
  track became_follower self = record self { leader_id = leader_id env self.node }
  track became_candidate self = record self { leader_id = leader_id env self.node }

  unfoldable pub run_leader_tracker : List RoleChange → ProposalRouter → ProposalRouter
  unfolding track
  run_leader_tracker [] self = self
  run_leader_tracker (change ∷ changes) self = run_leader_tracker changes (track change self)

  -- One sleep of the retry loop: how long it took beyond its delay, and the router after it, which
  -- the other tasks may have changed.
  pub record Retry : Type 0 where
    pub late : ℕ
    pub router : ProposalRouter

  pub data Search : Type 0 where
    found : ℕ → Search
    gave_up out_of_fuel : Search

  abbrev pub seen : ProposalRouter → Option ℕ → ProposalRouter × Search → ProposalRouter × Search
  seen self none rest = rest
  seen self (some leader) rest = (record self { leader_id = some leader }, found leader)

  -- The loop with its times in milliseconds; `retries i` is what the round `i` sees.
  unfoldable pub retry :
      (fuel : ℕ) → (ℕ → Retry) → (i delay_ms elapsed : ℕ) → ProposalRouter → ProposalRouter × Search
  retry zero retries i delay_ms elapsed self =
      (self, if ltb elapsed 2000 then out_of_fuel else gave_up)
  retry (suc fuel) retries i delay_ms elapsed self =
      let r = retries i in
      let rest =
        retry fuel retries (suc i) (next_delay delay_ms) (elapsed + delay_ms + r.late) r.router in
      if ltb elapsed 2000 then seen r.router (leader_id env r.router.node) rest else (self, gave_up)

  -- Nine rounds are enough.
  unfoldable pub retry_loop : (ℕ → Retry) → ProposalRouter → ProposalRouter × Search
  unfolding retry
  retry_loop retries self = retry 9 retries 0 10 0 self

  abbrev pub leader_of : Search → Option ℕ
  leader_of (found leader) = some leader
  leader_of _ = none

  abbrev pub Completion : Type 0
  Completion = Action ProposalRouter ProposalError ℕ

  abbrev pub queried : (ℕ → Retry) → Option ℕ → ProposalRouter → ProposalRouter × Option ℕ
  queried retries (some leader) self = (record self { leader_id = some leader }, some leader)
  queried retries none self =
      let (after, search) = retry_loop retries self in (after, leader_of search)

  -- The cached leader, or the one of the node, or the one that a retry finds.
  abbrev pub known_leader : (ℕ → Retry) → Option ℕ → ProposalRouter → ProposalRouter × Option ℕ
  known_leader retries (some leader) self = (self, some leader)
  known_leader retries none self = queried retries (leader_id env self.node) self

  abbrev pub forwarded :
      (tx : ℕ)
      → ProposalRouter
      → env.Transport × Result Text (Unit {0})
      → ProposalRouter × Result ProposalError ℕ
  forwarded tx self (transport, ok a) =
      (record self { node = record self.node { transport = transport } }, ok tx)
  forwarded tx self (transport, err e) = (
    record self { node = record self.node { transport = transport } },
    err (failed (codes "Failed to forward to leader: " ++ e)),
  )

  abbrev pub forward_message : (cluster_id sync_id : ℕ) → Bytes → GenericMessage
  forward_message cluster_id sync_id command_json =
      let msg : ProposeMessage = record { command_json = command_json; sync_id = sync_id } in
      record { cluster_id = cluster_id; message = some (propose_message msg) }

  abbrev pub send_to_leader : (sync_id tx leader : ℕ) → Result Text Bytes → Completion
  send_to_leader sync_id tx leader (err e) self =
      (self, err (failed (codes "Failed to serialize command: " ++ e)))
  send_to_leader sync_id tx leader (ok command_json) self = forwarded tx self (
      env.send_message leader (forward_message self.cluster_id sync_id command_json)
        self.node.transport)

  unfoldable pub forward_to_leader : (sync_id tx leader : ℕ) → env.machine.Command → Completion
  forward_to_leader sync_id tx leader command self =
      send_to_leader sync_id tx leader (env.encode_command command)
        (record self { node = register_forwarded_proposal env sync_id tx self.node })

  abbrev pub forward_or_refuse : (sync_id tx : ℕ) → env.machine.Command → Option ℕ → Completion
  unfolding forward_to_leader
  forward_or_refuse sync_id tx command none self = (self, err (not_leader none))
  forward_or_refuse sync_id tx command (some leader) self =
      if nat_beq leader self.node_id
      then (self, err (not_leader (some leader)))
      else forward_to_leader sync_id tx leader command self

  abbrev pub proposed :
      (tx : ℕ)
      → ProposalRouter
      → Node env × Result Text (Unit {0})
      → ProposalRouter × Result ProposalError ℕ
  proposed tx self (n, ok a) = (record self { node = n }, ok tx)
  proposed tx self (n, err e) = (record self { node = n }, err (failed e))

  abbrev pub propose_if :
      (sync_id tx : ℕ) → env.machine.Command → (ℕ → Retry) → (leads : Bool) → Completion
  propose_if sync_id tx command retries true self =
      proposed tx self (propose env sync_id tx command self.node)
  propose_if sync_id tx command retries false self =
      let (after, leader) = known_leader retries self.leader_id self in
      forward_or_refuse sync_id tx command leader after

  unfoldable pub propose_command : (sync_id tx : ℕ) → env.machine.Command → (ℕ → Retry) → Completion
  propose_command sync_id tx command retries self =
      propose_if sync_id tx command retries (is_leader env self.node) self

  -- What the channel of the proposal gave: `none` where its sender is gone.
  abbrev pub awaited : Option (Result Text (Unit {0})) → Result ProposalError (Unit {0})
  awaited none = err (failed (codes "Proposal channel closed"))
  awaited (some r) = map_err failed r

  -- `reply` is what the channel gives after the other tasks ran from the state of the proposal on.
  unfoldable pub propose_and_wait :
      (sync_id tx : ℕ)
      → env.machine.Command
      → (ℕ → Retry)
      → (reply : ℕ → ProposalRouter → ProposalRouter × Option (Result Text (Unit {0})))
      → Action ProposalRouter ProposalError (Unit {0})
  propose_and_wait sync_id tx command retries reply self =
      let (proposal, rx) = propose_command sync_id tx command retries self in wait rx proposal
    where
      wait : Result ProposalError ℕ → Action ProposalRouter ProposalError (Unit {0})
      wait (err e) self = (self, err e)
      wait (ok rx) self = let (after, r) = reply rx self in (after, awaited r)

  abbrev pub add_node : (sync_id tx id : ℕ) (address : Text) → Action ProposalRouter Text ℕ
  add_node sync_id tx id address self =
      let (n, r) = add_peer_node env sync_id tx id address self.node in
      (record self { node = n }, given r)
    where
      given : Result Text (Unit {0}) → Result Text ℕ
      given (ok a) = ok tx
      given (err e) = err e

  abbrev pub remove_node : (sync_id tx id : ℕ) → Action ProposalRouter Text ℕ
  remove_node sync_id tx id self =
      let (n, r) = remove_peer_node env sync_id tx id self.node in
      (record self { node = n }, given r)
    where
      given : Result Text (Unit {0}) → Result Text ℕ
      given (ok a) = ok tx
      given (err e) = err e
