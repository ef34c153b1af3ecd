-- ===== src/Events/Laws.antt =====
-- What `NATSPublisher` of internal/events/publisher.go does on each path.
use dcm_kcli_provider.Prelude.{String, ◌≡◌, refl, false, Option, none, arith}
use dcm_kcli_provider.Prelude.Result.{err}
use dcm_kcli_provider.Events.{
  StatusEvent, PublishError, not_connected, Nats, NatsPublisher, is_connected, publish_vm_event,
  publish_cluster_event, close,
}

module _ {C : Type 0} (N : Nats C) (uuid : String) (event : StatusEvent) (p : NatsPublisher C) where
  -- Without a live connection both publishing calls return NotConnectedError and leave the
  -- publisher, with its connection and counters, as it was.
  pub disconnected_sends_nothing :
      is_connected N p ≡ false
      → (publish_vm_event N none uuid event p ≡ (err not_connected, p))
        × (publish_cluster_event N none uuid event p ≡ (err not_connected, p))
  unfolding is_connected publish_vm_event publish_cluster_event
  disconnected_sends_nothing h = ground arith

  -- After `Close` neither call sends anything, also on a second call.
  pub closed_sends_nothing :
      (publish_vm_event N none uuid event (close N p) ≡ (err not_connected, close N p))
      × (publish_cluster_event N none uuid event (close N p) ≡ (err not_connected, close N p))
  unfolding publish_vm_event publish_cluster_event close
  closed_sends_nothing = (refl, refl)

  -- A publish that fails moves no counter.
  pub failed_counts_nothing :
      (ctx_err : Option String) (e : PublishError) (p' : NatsPublisher C)
      → publish_vm_event N ctx_err uuid event p ≡ (err e, p')
      → p'.published_total ≡ p.published_total
  unfolding publish_vm_event
  failed_counts_nothing ctx_err e p' h = ground arith
