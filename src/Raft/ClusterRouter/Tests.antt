-- ===== src/Raft/ClusterRouter/Tests.antt =====
-- The routing of messages with channels that list what was sent.
use raftoral.Prelude.{ℕ, List, [], ◌∷◌, ◌++◌, some}
use raftoral.Prelude.HashMap.{get, insert, remove}
use raftoral.Prelude.Result.{ok}
use raftoral.Raft.Types.{GenericMessage, campaign_message}
use raftoral.Raft.ClusterRouter.{Mpsc, new, register_cluster, unregister_cluster, route_message}
use raftoral.Raft.ClusterRouter.Routing.{
  Registration, register, unregister, run, last_sender, IsRouted, route_message-run,
}

abbrev lists : Mpsc GenericMessage
lists = record {
  Channels = List (ℕ × GenericMessage);
  Sender = ℕ;
  send = λ sender message channels. (channels ++ (sender, message) ∷ [], ok tt);
}

abbrev registrations : List (Registration lists)
registrations = register 1 10 ∷ register 2 20 ∷ register 1 11 ∷ unregister 2 ∷ []

abbrev message : GenericMessage
message = record { cluster_id = 1; message = some campaign_message }

route_message-run_example : IsRouted lists message [] (some 11) ((11, message) ∷ []) (ok tt)
unfolding last_sender get run register_cluster unregister_cluster insert remove route_message
route_message-run_example = route_message-run lists registrations (new lists) message []
