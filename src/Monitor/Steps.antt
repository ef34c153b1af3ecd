-- ===== src/Monitor/Steps.antt =====
-- The goroutines of internal/monitor/monitor.go and the requests beside them as steps on the monitor's
-- state, in any order. A step of the monitor's is what one goroutine does between two points at which
-- another may run: one call of `publishWithDebounce`, one write of the store, one flush. `poll` is
-- one of the orders.
pub mod Polls
use dcm_kcli_provider.Events.{Published}
use dcm_kcli_provider.Prelude.{
  ◌++◌, sym, ℕ, String, Bool, ◌≡◌, refl, arith, ◌∙◌, ap, Option, none, some, List, [], ◌∷◌, true,
  false, if◌then◌else◌,
}
use dcm_kcli_provider.Prelude.Dict.{Dict, lookup}
use dcm_kcli_provider.Prelude.Result.{Result, ok, err}
use dcm_kcli_provider.Store.Entry.{ResourceEntry, StateStore, StoreError}
use dcm_kcli_provider.Kweb.Api.{KwebClient, KwebError, VmInfo, ClusterInfo}
use dcm_kcli_provider.Monitor.Publishing.{Debounce, flush_pending, due}
use dcm_kcli_provider.Monitor.Publishing.Spacing.{Op, publish, flush, drop, apply, run, Keeps, idle}
use dcm_kcli_provider.Monitor.Publishing.Converging.{newest, requested, flush-newest}
use dcm_kcli_provider.Monitor
use dcm_kcli_provider.Monitor.{
  Config, Monitor, refresh_profiles, set_status, drop_entry, detect_vm_orphans, orphan_loop,
  note_orphan, is_orphan, vm_map, cluster_map, slice_of, vm_missing, vm_present, vm_round, vm_loop,
  vms_listed, poll_vms, cluster_missing, cluster_present, cluster_round, cluster_loop,
  poll_clusters, poll,
}
use dcm_kcli_provider.Monitor.Loop.{poll_loop}

module _ {S K : Type 0} (St : StateStore S) (Kw : KwebClient K) (config : Config) where
  pub data Step (m : Monitor S K) : Monitor S K → Type 0 where
    refreshed : (now : ℕ) → Step m (refresh_profiles St Kw config now m)
    published :
        (now : ℕ) (id kind status message : String)
        → Step m (Monitor.publish St Kw config now id kind status message m)
    updated : (now : ℕ) (id status : String) → Step m (set_status St Kw config now id status m)
    dropped : (now : ℕ) (id kind : String) → Step m (drop_entry St Kw config now id kind m)
    flushed : (now : ℕ) → Step m (Monitor.flush St Kw config now m)
    compared :
        (vms : Option (List VmInfo)) (entries : List ResourceEntry)
        → Step m (detect_vm_orphans vms entries m)
    polled : Step m (record m { first_poll_done = true })
    -- a request, with the events that it publishes itself, past the debounce, or kweb by itself
    elsewhere :
        (s : S) (k : K) (own : List Published)
        → Step m (record m { store = s; kweb = k; beside = own ++ m.beside })

  pub data Reach : Monitor S K → Monitor S K → Type 0 where
    here : {m : Monitor S K} → Reach m m
    next : {l m n : Monitor S K} → Step l m → Reach m n → Reach l n

  -- The operations on the events.
  unfoldable pub trace : {m n : Monitor S K} → Reach m n → List (ℕ × Op)
  trace here = []
  trace (next (refreshed now) r) = trace r
  trace (next (published now id kind status message) r) =
      (now, publish id kind status message) ∷ trace r
  trace (next (updated now id status) r) = trace r
  trace (next (dropped now id kind) r) = (now, drop id) ∷ trace r
  trace (next (flushed now) r) = (now, flush) ∷ trace r
  trace (next (compared vms entries) r) = trace r
  trace (next polled r) = trace r
  trace (next (elsewhere s k own) r) = trace r

  orphan_loop-debounce :
      (known : Dict Bool) (vms : List VmInfo) (m : Monitor S K)
      → (orphan_loop known vms m).debounce ≡ m.debounce
  unfolding orphan_loop note_orphan
  orphan_loop-debounce known [] m = refl
  orphan_loop-debounce known (vm ∷ vms) m =
      orphan_loop-debounce known vms (if is_orphan known vm then note_orphan vm.name m else m)
      ∙ ground arith

  refresh-debounce :
      (now : ℕ) (m : Monitor S K) → (refresh_profiles St Kw config now m).debounce ≡ m.debounce
  unfolding refresh_profiles
  refresh-debounce now m = ground arith

  detect-debounce :
      (vms : Option (List VmInfo)) (entries : List ResourceEntry) (m : Monitor S K)
      → (detect_vm_orphans vms entries m).debounce ≡ m.debounce
  unfolding detect_vm_orphans
  detect-debounce none entries m = refl
  detect-debounce (some vms) entries m = orphan_loop-debounce _ vms m

  trace-run :
      {m n : Monitor S K} (r : Reach m n)
      → n.debounce ≡ run config.debounce_window (trace r) m.debounce
  unfolding trace run apply Monitor.publish set_status drop_entry Monitor.flush
  trace-run here = refl
  trace-run {m} (next (refreshed now) r) =
      trace-run r ∙ ap (run config.debounce_window (trace r)) (refresh-debounce now m)
  trace-run (next (published now id kind status message) r) = trace-run r
  trace-run (next (updated now id status) r) = trace-run r
  trace-run (next (dropped now id kind) r) = trace-run r
  trace-run (next (flushed now) r) = trace-run r
  trace-run (next (compared vms entries) r) =
      trace-run r ∙ ap (run config.debounce_window (trace r)) (detect-debounce vms entries _)
  trace-run (next polled r) = trace-run r
  trace-run (next (elsewhere s k own) r) = trace-run r

  new-run :
      {m n : Monitor S K} (r : Reach m n)
      → m.debounce ≡ idle m.debounce.clock
      → n.debounce ≡ run config.debounce_window (trace r) (idle m.debounce.clock)
  new-run r new = trace-run r ∙ ap (run config.debounce_window (trace r)) new

  abbrev pub trans : {l m n : Monitor S K} → Reach l m → Reach m n → Reach l n
  trans here r = r
  trans (next s q) r = next s (trans q r)

  abbrev pub if_Reach :
      {l m n : Monitor S K} (b : Bool) → Reach l m → Reach l n → Reach l (if b then m else n)
  if_Reach true q r = q
  if_Reach false q r = r

  -- From a new monitor's events, in any order of steps that does not drop a resource, a flush after
  -- the window of its last event leaves as the status of the monitor's newest event of it the one
  -- that was last asked for.
  pub Reach-newest :
      (id : String) {m n : Monitor S K} (now : ℕ) (r : Reach m n)
      → m.debounce ≡ idle m.debounce.clock
      → Keeps id (trace r)
      → due config.debounce_window now id n.debounce ≡ true
      → newest id (Monitor.flush St Kw config now n).debounce.published
        ≡ requested id none (trace r)
  unfolding Monitor.flush lookup
  Reach-newest id {m} now r new k h =
      let w = config.debounce_window in
      let e = new-run r new in
      ap (λ d. newest id (flush_pending w now d).published) e
      ∙ flush-newest w id (trace r) now (idle m.debounce.clock) k (ap (due w now id) (sym e) ∙ h)
