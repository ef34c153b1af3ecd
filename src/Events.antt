-- ===== src/Events.antt =====
-- internal/events/publisher.go: status events as CloudEvents over NATS. The NATS connection
-- (github.com/nats-io/nats.go) is a parameter.
pub mod Laws
use dcm_kcli_provider.Prelude.{
  ℕ, ◌+◌, String, Bool, true, false, ◌&&◌, not, Option, none, some, List, [], ◌∷◌, ◌==◌,
  if◌then◌else◌,
}
use dcm_kcli_provider.Prelude.Result.{Result, ok, err}
use dcm_kcli_provider.Prelude.Dict.{Dict, lookup, insert}

abbrev pub vm_subject : String
vm_subject = "dcm.vm"

abbrev pub cluster_subject : String
cluster_subject = "dcm.cluster"

abbrev pub vm_source : String
vm_source = "dcm/providers/kcli-vm"

abbrev pub cluster_source : String
cluster_source = "dcm/providers/kcli-cluster"

abbrev pub vm_event_type : String
vm_event_type = "dcm.status.vm"

abbrev pub cluster_event_type : String
cluster_event_type = "dcm.status.cluster"

pub record StatusEvent : Type 0 where
  pub id : String
  pub status : String
  pub message : String
  pub timestamp : ℕ

-- A call of `PublishVMEvent` or of `PublishClusterEvent`.
pub data Published : Type 0 where
  vm_event cluster_event : StatusEvent → Published

abbrev pub event_of : Published → StatusEvent
event_of (vm_event e) = e
event_of (cluster_event e) = e

-- `NotConnectedError`, the context's error, and what the CloudEvents and NATS libraries return.
pub data PublishError : Type 0 where
  not_connected : PublishError
  context_error nats_error : String → PublishError

pub record CloudEvent : Type 0 where
  pub id : String
  pub source : String
  pub kind : String
  pub subject : String
  pub payload : StatusEvent

-- What is used of `*nats.Conn`, whose state is a `C`.
pub record Nats (C : Type 0) : Type 0 where
  pub is_connected : C → Bool
  pub publish : String → CloudEvent → C → Result PublishError (Unit {0}) × C

-- `conn` is nil after `Close`; `published_total` is the counter `NATSEventsPublished` by event type.
pub record NatsPublisher (C : Type 0) : Type 0 where
  pub conn : Option C
  pub published_total : Dict ℕ

bump : String → Dict ℕ → Dict ℕ
bump k d = elim (lookup k d) [ none ↦ insert k 1 d | some n ↦ insert k (n + 1) d ]

module _ {C : Type 0} (N : Nats C) where
  pub is_connected : NatsPublisher C → Bool
  is_connected p = elim p.conn [ none ↦ false | some c ↦ N.is_connected c ]

  -- `publish`, with `uuid` for the id that it makes, and the counter that its caller moves
  send :
      String
      → String
      → String
      → String
      → StatusEvent
      → C
      → NatsPublisher C
      → Result PublishError (Unit {0}) × NatsPublisher C
  unfolding bump
  send uuid subject source kind event c p =
      let (r, c') =
        N.publish subject
          (record { id = uuid; source = source; kind = kind; subject = subject; payload = event })
          c in
      elim r [
        | ok _ ↦ (ok tt, record { conn = some c'; published_total = bump kind p.published_total })
        | err e ↦ (err e, record { conn = some c'; published_total = p.published_total })
      ]

  publish_on :
      String
      → String
      → String
      → Option String
      → String
      → StatusEvent
      → Option C
      → NatsPublisher C
      → Result PublishError (Unit {0}) × NatsPublisher C
  unfolding send
  publish_on subject source kind (some e) uuid event conn p = (err (context_error e), p)
  publish_on subject source kind none uuid event none p = (err not_connected, p)
  publish_on subject source kind none uuid event (some c) p =
      if N.is_connected c then send uuid subject source kind event c p else (err not_connected, p)

  -- `ctx_err` is `ctx.Err()`
  pub publish_vm_event :
      Option String
      → String
      → StatusEvent
      → NatsPublisher C
      → Result PublishError (Unit {0}) × NatsPublisher C
  unfolding publish_on
  publish_vm_event ctx_err uuid event p =
      publish_on vm_subject vm_source vm_event_type ctx_err uuid event p.conn p

  pub publish_cluster_event :
      Option String
      → String
      → StatusEvent
      → NatsPublisher C
      → Result PublishError (Unit {0}) × NatsPublisher C
  unfolding publish_on
  publish_cluster_event ctx_err uuid event p =
      publish_on cluster_subject cluster_source cluster_event_type ctx_err uuid event p.conn p

  -- What is flushed and closed is the connection that is dropped here.
  pub close : NatsPublisher C → NatsPublisher C
  close p = record p { conn = none }
