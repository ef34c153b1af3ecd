-- ===== src/Monitor/Runs.antt =====
-- Runs of the monitor, on the store and the kwebs of the fixtures.
use dcm_kcli_provider.Prelude.{
  if◌then◌else◌, ◌==◌, ◌+◌, ℕ, String, ◌≡◌, refl, ap, inl, true, false, none, some, List, [], ◌∷◌,
  ◌<>◌, Member,
}
use dcm_kcli_provider.Prelude.Result.{ok, err}
use dcm_kcli_provider.Prelude.Dict.{Dict, lookup, contains}
use dcm_kcli_provider.Metrics.{dec}
use dcm_kcli_provider.Store.Entry.{ResourceEntry, db_error, StateStore, not_found}
use dcm_kcli_provider.Store.Fixtures.{dict_bolt, web, provisioning_text, running_text}
use dcm_kcli_provider.Store.{Store}
use dcm_kcli_provider.Store.Runs.{
  the_store, the_laws, holding, empty, get_provisioning, mark_up, put_new, list_provisioning,
  delete_provisioning, delete_running,
}
use dcm_kcli_provider.Kweb.Api.{VmInfo, unreachable}
use dcm_kcli_provider.Kweb.Fixtures.{kweb_up, kweb_down, vm_info}
use dcm_kcli_provider.Monitor.{
  Config, Monitor, new_monitor, vm_round, vm_loop, cluster_round, poll_vms, detect_vm_orphans,
}
use dcm_kcli_provider.Monitor.Status.{map_vm_status, eqf, fold}
use dcm_kcli_provider.Monitor.Publishing.{
  PendingEvent, Debounce, event_at, stamp, due, flush_pending,
}
use dcm_kcli_provider.Monitor.Publishing.Laws.{scheduled}
use dcm_kcli_provider.Monitor.Publishing.Spacing.{idle, Keeps}
use dcm_kcli_provider.Monitor.Deletion.{vm_deletion_published, vm_deletion_lost}
use dcm_kcli_provider.Monitor.Orphans.{store_failure_orphans}
use dcm_kcli_provider.Monitor
use dcm_kcli_provider.Monitor.Loop
use dcm_kcli_provider.Monitor.Publishing.Converging.{newest, requested}
use dcm_kcli_provider.Monitor.Loop.{poll_loop, flushes, run_down, run_starts}
use dcm_kcli_provider.Monitor.Steps.{Reach, trans, trace, Reach-newest}
use dcm_kcli_provider.Monitor.Steps.Step.{elsewhere}
use dcm_kcli_provider.Monitor.Steps.Reach.{next}
use dcm_kcli_provider.Monitor.Steps.Polls.{poll_loop-Reach}
use dcm_kcli_provider.Store.Memory.{memory_store}
use dcm_kcli_provider.Monitor.Race.{poll_vms_around, creating, created_vm_dropped}
use dcm_kcli_provider.Api.Types.{resource}
use dcm_kcli_provider.Api.Helpers.{resolve_id, resolve_vm_name}
use dcm_kcli_provider.Api.Vms.{new_vm_entry, created_vm, create_vm}
use dcm_kcli_provider.Api.Vms.Runs.{spec, request, server_on, empty-IsAdmitted}
use dcm_kcli_provider.Monitor.Safety.{IsDown, vm_loop_quiet, vm_round_syncs}

-- What the clock gives the events.
abbrev ticking : ℕ → ℕ
ticking n = 1000 + n

abbrev waiting : PendingEvent
waiting = record { resource_type = "vm"; status = "STOPPED"; message = "down"; scheduled_at = 103 }

-- The VM was published at 100, and an event of it waits.
abbrev busy : Debounce
busy = record {
  last_publish = ("vm-1", 100) ∷ [];
  pending = ("vm-1", waiting) ∷ [];
  published = [];
  status_changes = 2;
  clock = ticking;
  taken = [];
}

abbrev config : Config
config = record { poll_interval = 5; debounce_window = 10; cluster_create_timeout = 50 }

abbrev monitor_of :
    Debounce → Store dict_bolt → List String → Monitor (Store dict_bolt) (List String)
monitor_of d s names = record {
  store = s;
  kweb = names;
  profiles = [];
  profile_set = [];
  debounce = d;
  orphan_counter = 0;
  seen_orphans = [];
  first_poll_done = false;
  beside = [];
  managed = [];
}

abbrev calm : Monitor (Store dict_bolt) (List String)
calm = monitor_of (idle ticking) (holding running_text) ("dcm-web" ∷ [])

abbrev hasty : Monitor (Store dict_bolt) (List String)
hasty = monitor_of busy (holding running_text) ("dcm-web" ∷ [])

vm_deletion_published_example :
    let m' = vm_round the_store kweb_up config 200 [] (web "RUNNING") calm in
    (m'.debounce.published
      ≡ event_at (stamp (idle ticking)) "vm-1" (
          scheduled 10 200 "vm-1" "vm" "DELETED"
            ("VM " <> "dcm-web" <> " no longer found in kweb")
            (idle ticking))
        ∷ [])
    × (the_store.get "vm-1" m'.store
        ≡ (if "vm-1" == "vm-1" then err not_found else the_store.get "vm-1" (holding running_text)))
    × (m'.managed ≡ dec "vm" ∷ [])
    × (lookup "vm-1" m'.debounce.pending ≡ none)
    × (lookup "vm-1" m'.debounce.last_publish ≡ none)
unfolding lookup due
vm_deletion_published_example =
    vm_deletion_published the_store kweb_up config 200 (web "RUNNING") calm [] empty "vm-1" the_laws
      refl (refl, refl) refl delete_running

vm_deletion_lost_example :
    let m' = vm_round the_store kweb_up config 105 [] (web "RUNNING") hasty in
    (m'.debounce.published ≡ [])
    × (lookup "vm-1" m'.debounce.pending ≡ none)
    × (lookup "vm-1" m'.debounce.last_publish ≡ none)
    × (the_store.get "vm-1" m'.store ≡ err not_found)
unfolding lookup due
vm_deletion_lost_example =
    vm_deletion_lost the_store kweb_up config 105 (web "RUNNING") hasty [] empty the_laws refl
      (refl, refl) refl delete_running

kweb_down-IsDown : IsDown kweb_down
kweb_down-IsDown = record {
  no_vms = λ k. (unreachable, refl);
  no_clusters = λ k. (unreachable, refl);
}

abbrev kweb_vms : Dict VmInfo
kweb_vms = ("dcm-web", vm_info "dcm-web") ∷ []

vm_loop_quiet_example :
    vm_loop the_store kweb_up config 2000 kweb_vms (web "RUNNING" ∷ []) calm ≡ calm
unfolding lookup map_vm_status eqf fold
vm_loop_quiet_example =
    vm_loop_quiet the_store kweb_up config 2000 kweb_vms (web "RUNNING" ∷ []) calm (refl, tt)

abbrev booting : Monitor (Store dict_bolt) (List String)
booting = monitor_of (idle ticking) (holding provisioning_text) ("dcm-web" ∷ [])

vm_round_syncs_example :
    the_store.get "vm-1"
      (vm_round the_store kweb_up config 2000 kweb_vms (web "PROVISIONING") booting).store
    ≡ ok (web (map_vm_status "up" 1000 2000))
unfolding lookup map_vm_status eqf fold
vm_round_syncs_example =
    vm_round_syncs the_store kweb_up config 2000 kweb_vms (web "PROVISIONING") (vm_info "dcm-web")
      booting the_laws refl get_provisioning (ap (λ p. p.0) mark_up)

-- A store that cannot be listed.
abbrev unlistable : StateStore (Store dict_bolt)
unlistable = record the_store { list = λ _ _. err (db_error "closed") }

store_failure_orphans_example :
    let (m', kweb_vms, store_vms) = poll_vms unlistable kweb_up config 200 calm in
    contains "dcm-web" (detect_vm_orphans kweb_vms store_vms m').seen_orphans ≡ true
store_failure_orphans_example =
    store_failure_orphans unlistable kweb_up config 200 calm (vm_info "dcm-web" ∷ [])
      (db_error "closed") (vm_info "dcm-web") refl refl (inl refl) refl

run_down_example :
    let m' = poll_loop the_store kweb_down config (200 ∷ 230 ∷ []) hasty in
    (m'.store ≡ holding running_text)
    × (m'.managed ≡ [])
    × (m'.orphan_counter ≡ 0)
    × (m'.debounce ≡ flushes the_store kweb_down config (200 ∷ 230 ∷ []) busy)
unfolding Loop.run
run_down_example = run_down the_store kweb_down config 200 (230 ∷ []) hasty _ kweb_down-IsDown refl

-- A poll of an empty provider, during which the VM is created.
abbrev unaware : Monitor (Store dict_bolt) (List String)
unaware = monitor_of (idle ticking) empty []

created_vm_dropped_example :
    ((create_vm the_store kweb_up none request spec (server_on empty)).0
      ≡ resource 201 (created_vm the_store kweb_up (web "PROVISIONING") spec))
    × (let m' =
          poll_vms_around the_store kweb_up config 1001
            (creating the_store kweb_up config 1001 none request spec (server_on empty))
            unaware in
        (the_store.get "vm-1" m'.store ≡ err not_found) × (m'.kweb ≡ "dcm-web" ∷ []))
unfolding new_vm_entry resolve_id resolve_vm_name lookup dcm_kcli_provider.Monitor.vm_map vm_loop
created_vm_dropped_example =
    created_vm_dropped the_store kweb_up config 1001 none request spec (server_on empty) unaware
      (some []) (holding provisioning_text) empty [] [] the_laws refl empty-IsAdmitted refl put_new
      list_provisioning refl tt delete_provisioning

-- The store knows the VM as PROVISIONING, and kweb runs it.
abbrev starting : Monitor (Dict ResourceEntry) (List String)
starting = new_monitor ticking (("vm-1", web "PROVISIONING") ∷ []) ("dcm-web" ∷ []) []

-- A request marks the VM as DELETING between two polls.
abbrev marked : Monitor (Dict ResourceEntry) (List String)
marked = record (poll_loop memory_store kweb_up config (2000 ∷ []) starting) {
  store = ("vm-1", web "DELETING") ∷ [];
  kweb = "dcm-web" ∷ [];
}

marked_polls :
    Reach memory_store kweb_up config starting
      (poll_loop memory_store kweb_up config (2005 ∷ []) marked)
marked_polls =
    trans memory_store kweb_up config
      (poll_loop-Reach memory_store kweb_up config (2000 ∷ []) starting)
      (next (elsewhere (("vm-1", web "DELETING") ∷ []) ("dcm-web" ∷ []) [])
        (poll_loop-Reach memory_store kweb_up config (2005 ∷ []) marked))

marked_polls-Keeps : Keeps "vm-1" (trace memory_store kweb_up config marked_polls)
unfolding trace marked_polls poll_loop-Reach dcm_kcli_provider.Monitor.refresh_profiles lookup
    dcm_kcli_provider.Monitor.vm_map dcm_kcli_provider.Prelude.Dict.insert map_vm_status eqf fold
marked_polls-Keeps = tt

marked_polls-due :
    due 10 2020 "vm-1" (poll_loop memory_store kweb_up config (2005 ∷ []) marked).debounce ≡ true
unfolding due poll_loop lookup Monitor.poll detect_vm_orphans poll_vms Monitor.refresh_profiles
    Monitor.is_orphan contains Monitor.known_names dcm_kcli_provider.Prelude.Dict.insert
    flush_pending Monitor.poll_clusters Monitor.vm_map map_vm_status eqf fold
    dcm_kcli_provider.Monitor.Publishing.publish_with_debounce dcm_kcli_provider.Prelude.Dict.remove
marked_polls-due = refl

Reach-newest_example :
    let m' = poll_loop memory_store kweb_up config (2005 ∷ []) marked in
    newest "vm-1" (Monitor.flush memory_store kweb_up config 2020 m').debounce.published
    ≡ requested "vm-1" none (trace memory_store kweb_up config marked_polls)
Reach-newest_example =
    Reach-newest memory_store kweb_up config "vm-1" 2020 marked_polls refl marked_polls-Keeps
      marked_polls-due
