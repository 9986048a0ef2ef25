-- ===== src/Raft/ClusterRouter/Routing.antt =====
-- cluster_router.rs: where a message goes after clusters were registered and unregistered.
use raftoral.Prelude.{
  ℕ, ◌≡◌, refl, ap, subst, ◌∙◌, List, [], ◌∷◌, Option, none, some, if◌then◌else◌,
}
use raftoral.Prelude.Eq.{nat_eq, ◌==◌}
use raftoral.Prelude.HashMap.{get, get-insert, get-remove}
use raftoral.Prelude.Result.{Result, ok, err}
use raftoral.Raft.Types.{GenericMessage}
use raftoral.Raft.ClusterRouter.{
  Mpsc, RoutingError, cluster_not_found, mailbox_full, sent, ClusterRouter, register_cluster,
  unregister_cluster, forward, route_message,
}

module _ (mpsc : Mpsc GenericMessage) where
  pub data Registration : Type 0 where
    register : (cluster_id : ℕ) (sender : mpsc.Sender) → Registration
    unregister : (cluster_id : ℕ) → Registration

  unfoldable pub run : List Registration → ClusterRouter mpsc → ClusterRouter mpsc
  run [] r = r
  run (register c s ∷ rs) r = run rs (register_cluster mpsc c s r)
  run (unregister c ∷ rs) r = run rs (unregister_cluster mpsc c r)

  -- The sender that was last registered for a cluster, if it was not unregistered since.
  unfoldable pub last_sender : List Registration → ℕ → Option mpsc.Sender → Option mpsc.Sender
  last_sender [] c before = before
  last_sender (register d s ∷ rs) c before = last_sender rs c (if d == c then some s else before)
  last_sender (unregister d ∷ rs) c before = last_sender rs c (if d == c then none else before)

  get-run :
      (rs : List Registration) (r : ClusterRouter mpsc) (c : ℕ)
      → get c (run rs r).routes ≡ last_sender rs c (get c r.routes)
  unfolding run last_sender register_cluster unregister_cluster
  get-run [] r c = refl
  get-run (register d s ∷ rs) r c =
      get-run rs (register_cluster mpsc d s r) c ∙ ap (last_sender rs c) (get-insert d c s r.routes)
  get-run (unregister d ∷ rs) r c =
      get-run rs (unregister_cluster mpsc d r) c ∙ ap (last_sender rs c) (get-remove d c r.routes)

  -- What becomes of a message, by the sender that is registered for its cluster: it is given to that
  -- sender, and refused where there is none or where the receiver is gone.
  pub data IsRouted (message : GenericMessage) (channels : mpsc.Channels)
      : Option mpsc.Sender → mpsc.Channels → Result RoutingError (Unit {0}) → Type 0 where
    unknown : IsRouted message channels none channels (err (cluster_not_found message.cluster_id))
    delivered :
        (sender : mpsc.Sender) (after : mpsc.Channels)
        → mpsc.send sender message channels ≡ (after, ok tt)
        → IsRouted message channels (some sender) after (ok tt)
    gone :
        (sender : mpsc.Sender) (after : mpsc.Channels)
        → mpsc.send sender message channels ≡ (after, err tt)
        → IsRouted message channels (some sender) after (err (mailbox_full message.cluster_id))

  forward-IsRouted :
      (message : GenericMessage) (channels : mpsc.Channels) (sender : Option mpsc.Sender)
      → let (after, r) = forward mpsc message channels sender in
        IsRouted message channels sender after r
  forward-IsRouted message channels none = unknown
  forward-IsRouted message channels (some sender) = by_send (mpsc.send sender message channels) refl
    where
      by_send :
          (p : mpsc.Channels × Result (Unit {0}) (Unit {0}))
          → mpsc.send sender message channels ≡ p
          → IsRouted message channels
              (some sender)
              (sent mpsc message.cluster_id p).0
              (sent mpsc message.cluster_id p).1
      by_send (after, ok tt) h = delivered sender after h
      by_send (after, err tt) h = gone sender after h

  -- After any registrations, a message is given to the sender that was last registered for its cluster.
  -- It is refused with the id of the cluster as not found, and nothing is sent, if there is no such
  -- sender or it was unregistered since, and as a full mailbox if the receiver of that sender is gone.
  pub route_message-run :
      (rs : List Registration) (r : ClusterRouter mpsc) (message : GenericMessage)
      (channels : mpsc.Channels)
      → let (after, result) = route_message mpsc message (run rs r) channels in
        IsRouted message channels
          (last_sender rs message.cluster_id (get message.cluster_id r.routes))
          after
          result
  unfolding route_message
  route_message-run rs r message channels =
      subst
        (λ o.
          IsRouted message channels o
            (forward mpsc message channels (get message.cluster_id (run rs r).routes)).0
            (forward mpsc message channels (get message.cluster_id (run rs r).routes)).1)
        (get-run rs r message.cluster_id)
        (forward-IsRouted message channels (get message.cluster_id (run rs r).routes))
