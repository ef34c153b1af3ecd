-- ===== src/Monitor/Publishing.antt =====
-- The debounced publishing of internal/monitor/monitor.go: `publishWithDebounce`, `extractPending`,
-- `publishEvent` and `flushPending`, over the fields that they read and write. What one method does
-- under the lock reads the clock once, as `now`; the Timestamp of an event is a reading of its own.
pub mod Laws
pub mod Spacing
pub mod Converging
use dcm_kcli_provider.Prelude.{
  ℕ, ◌+◌, String, Bool, true, false, Option, none, some, List, [], ◌∷◌, ◌==◌, since_ge, length,
  if◌then◌else◌,
}
use dcm_kcli_provider.Prelude.Dict.{Dict, lookup, insert, remove}
use dcm_kcli_provider.Events.{StatusEvent, Published, vm_event, cluster_event}

pub record PendingEvent : Type 0 where
  pub resource_type : String
  pub status : String
  pub message : String
  pub scheduled_at : ℕ

-- `published` holds the calls made of the publisher, the newest first; what they return is logged
-- and dropped. `status_changes` is the counter `MonitorStatusChanges`. `clock n` is what publishEvent
-- reads for the Timestamp of the n-th event, and `taken` are the ids that extractPending has stamped in
-- lastPublish, each with the instant, the newest first: the map keeps an id's last one.
pub record Debounce : Type 0 where
  pub last_publish : Dict ℕ
  pub pending : Dict PendingEvent
  pub published : List Published
  pub status_changes : ℕ
  pub clock : ℕ → ℕ
  pub taken : List (String × ℕ)

pub event_at : ℕ → String → PendingEvent → Published
event_at now id pe =
    let evt : StatusEvent = record {
      id = id;
      status = pe.status;
      message = pe.message;
      timestamp = now;
    } in
    if pe.resource_type == "vm" then vm_event evt else cluster_event evt

-- time.Now().UTC() of the next event
abbrev pub stamp : Debounce → ℕ
stamp d = d.clock (length d.published)

pub publish_event : String → PendingEvent → Debounce → Debounce
publish_event id pe d = record d { published = event_at (stamp d) id pe ∷ d.published }

-- !exists || time.Since(lastTime) >= m.config.DebounceWindow
abbrev pub due_since : ℕ → ℕ → Option ℕ → Bool
due_since window now none = true
due_since window now (some last_time) = since_ge now last_time window

unfoldable pub due : ℕ → ℕ → String → Debounce → Bool
due window now id d = due_since window now (lookup id d.last_publish)

-- the map updates of `extractPending`, when there is an event for the id
pub extracted : ℕ → String → Debounce → Debounce
extracted now id d = record d {
  pending = remove id d.pending;
  last_publish = insert id now d.last_publish;
  taken = (id, now) ∷ d.taken;
}

pub extract_pending : ℕ → String → Debounce → Debounce × Option PendingEvent
unfolding extracted
extract_pending now id d = elim (lookup id d.pending) [
  | none ↦ (d, none)
  | some pe ↦ (extracted now id d, some pe)
]

abbrev pub publish_extracted : String → Debounce × Option PendingEvent → Debounce
publish_extracted id (d, none) = d
publish_extracted id (d, some pe) = publish_event id pe d

unfoldable pub publish_with_debounce :
    ℕ → ℕ → String → String → String → String → Debounce → Debounce
unfolding due extract_pending publish_event event_at
publish_with_debounce window now id resource_type status message d =
    let pe : PendingEvent = record {
      resource_type = resource_type;
      status = status;
      message = message;
      scheduled_at = now;
    } in
    let scheduled = record d {
      pending = insert id pe d.pending;
      status_changes = d.status_changes + 1;
    } in
    if due window now id d
    then publish_extracted id (extract_pending now id scheduled)
    else scheduled

-- one round of the loop of `flushPending`
pub flush_round : ℕ → ℕ → String → Debounce → Debounce × Option PendingEvent
unfolding due extract_pending
flush_round window now id d = if due window now id d then extract_pending now id d else (d, none)

-- `toFlush = append(toFlush, …)`, in front of what the later rounds collect
abbrev pub flush_collected :
    String → Option PendingEvent → List (String × PendingEvent) → List (String × PendingEvent)
flush_collected id none items = items
flush_collected id (some pe) items = (id, pe) ∷ items

-- the loop over the ids of the map, and what it collects
pub flush_loop : ℕ → ℕ → Dict PendingEvent → Debounce → Debounce × List (String × PendingEvent)
unfolding flush_round
flush_loop window now [] d = (d, [])
flush_loop window now ((id, _) ∷ ids) d =
    let (d', pe) = flush_round window now id d in
    let (d'', items) = flush_loop window now ids d' in (d'', flush_collected id pe items)

pub publish_all : List (String × PendingEvent) → Debounce → Debounce
publish_all [] d = d
publish_all ((id, pe) ∷ items) d = publish_all items (publish_event id pe d)

unfoldable pub flush_pending : ℕ → ℕ → Debounce → Debounce
unfolding flush_loop publish_all
flush_pending window now d =
    let (d', items) = flush_loop window now d.pending d in publish_all items d'

-- `delete(m.lastPublish, id); delete(m.pending, id)`, for a resource that is gone
pub forget : String → Debounce → Debounce
forget id d = record d { last_publish = remove id d.last_publish; pending = remove id d.pending }
