-- ===== src/Monitor.antt =====
-- internal/monitor/monitor.go: one poll of kweb against the store. The three goroutines of `poll` are
-- run one after the other, in the order of their `go` statements; they share the lock-protected maps
-- and write disjoint entries of the store. One poll happens at one instant, `now`. Logging and the
-- duration metric are left out.
pub mod Status
pub mod State
pub mod Detection
pub mod Publishing
pub mod Safety
pub mod Deletion
pub mod Orphans
pub mod Loop
pub mod Race
pub mod Steps
pub mod Runs
use dcm_kcli_provider.Prelude.{
  ℕ, ◌+◌, String, Bool, true, false, not, ◌&&◌, ◌||◌, Option, none, some, List, [], ◌∷◌, ◌==◌, ◌<>◌,
  since_gt, if◌then◌else◌,
}
use text.Mathlib.Text.{starts_with}
use dcm_kcli_provider.Prelude.Result.{Result, ok, err}
use dcm_kcli_provider.Prelude.Dict.{Dict, lookup, insert, remove, contains}
use dcm_kcli_provider.Store.Entry.{ResourceEntry, StoreError, StateStore}
use dcm_kcli_provider.Kweb.Api.{KwebError, VmInfo, ClusterInfo, KwebClient}
use dcm_kcli_provider.Metrics.{GaugeCall, dec}
use Status.{map_vm_status, map_cluster_status}
pub use State.{
  Config, Monitor, new_monitor, profiles_of, orphan_count, slice_of, vm_map_from, cluster_map_from,
}
unfoldable pub use State.{has_profile, profile_set_of, vm_map, cluster_map}
unfoldable pub use Detection.{
  known_names, is_orphan, current_orphans, forget_orphans, note_orphan, orphan_loop,
  detect_vm_orphans,
}
use Publishing.{Debounce, publish_with_debounce, flush_pending, forget}

module _ {S K : Type 0} (St : StateStore S) (Kw : KwebClient K) (config : Config) (now : ℕ) where
  unfoldable pub refresh_profiles : Monitor S K → Monitor S K
  refresh_profiles m =
      let (r, kweb) = Kw.list_profiles m.kweb in
      elim r [
        | err _ ↦ record m { kweb = kweb }
        | ok profiles ↦ record m {
          kweb = kweb;
          profiles = profiles;
          profile_set = profile_set_of profiles;
        }
      ]

  unfoldable pub publish : String → String → String → String → Monitor S K → Monitor S K
  publish id kind status message m = record m {
    debounce = publish_with_debounce config.debounce_window now id kind status message m.debounce;
  }

  -- _ = m.store.UpdateStatus(entry.ID, newStatus)
  unfoldable pub set_status : String → String → Monitor S K → Monitor S K
  set_status id status m = record m { store = (St.update_status id status m.store).1 }

  -- the resource is gone: `Delete`, the gauge, and the two maps
  unfoldable pub drop_entry : String → String → Monitor S K → Monitor S K
  drop_entry id kind m = record m {
    store = (St.delete id m.store).1;
    managed = dec kind ∷ m.managed;
    debounce = forget id m.debounce;
  }

  -- the body of the loop of `pollVMs` where the VM is not in kweb
  pub vm_missing : ResourceEntry → Monitor S K → Monitor S K
  unfolding publish drop_entry
  vm_missing entry m =
      if not (entry.status == "DELETED") && not (entry.status == "DELETING")
      then drop_entry entry.id "vm" (
          publish entry.id "vm" "DELETED" ("VM " <> entry.kcli_name <> " no longer found in kweb")
            m)
      else m

  -- the body of that loop where kweb has the VM
  pub vm_present : ResourceEntry → VmInfo → Monitor S K → Monitor S K
  unfolding publish set_status
  vm_present entry vm m =
      let new_status = map_vm_status vm.status entry.created_at now in
      if not (new_status == entry.status)
      then set_status entry.id new_status (
          publish entry.id "vm" new_status ("VM " <> entry.kcli_name <> " status: " <> new_status)
            m)
      else m

  pub vm_round : Dict VmInfo → ResourceEntry → Monitor S K → Monitor S K
  unfolding vm_missing vm_present
  vm_round kweb_map entry m = elim (lookup entry.kcli_name kweb_map) [
    | none ↦ vm_missing entry m
    | some vm ↦ vm_present entry vm m
  ]

  pub vm_loop : Dict VmInfo → List ResourceEntry → Monitor S K → Monitor S K
  unfolding vm_round
  vm_loop kweb_map [] m = m
  vm_loop kweb_map (entry ∷ entries) m = vm_loop kweb_map entries (vm_round kweb_map entry m)

  -- `pollVMs` after its call of ListVMs. The lists that it hands to the orphan detection may be nil
  -- slices, `none` and `[]`.
  unfoldable pub vms_listed :
      Result KwebError (Option (List VmInfo))
      → Monitor S K
      → Monitor S K × Option (List VmInfo) × List ResourceEntry
  unfolding vm_loop
  vms_listed r m = elim r [
    | err _ ↦ (m, none, [])
    | ok vms ↦ elim (St.list "vm" m.store) [
      | err _ ↦ (m, vms, [])
      | ok entries ↦ (vm_loop (vm_map (slice_of vms)) entries m, vms, entries)
    ]
  ]

  pub poll_vms : Monitor S K → Monitor S K × Option (List VmInfo) × List ResourceEntry
  unfolding vms_listed
  poll_vms m = let (r, kweb) = Kw.list_vms m.kweb in vms_listed r (record m { kweb = kweb })

  pub cluster_missing : ResourceEntry → Monitor S K → Monitor S K
  unfolding publish set_status drop_entry
  cluster_missing entry m =
      if (entry.status == "CREATING") && since_gt now entry.created_at config.cluster_create_timeout
      then set_status entry.id "ERROR" (
          publish entry.id "cluster" "ERROR"
            ("Cluster " <> entry.kcli_name <> " creation timed out") m)
      else if not (entry.status == "DELETED")
          && not (entry.status == "DELETING")
          && not (entry.status == "CREATING")
      then drop_entry entry.id "cluster" (
          publish entry.id "cluster" "DELETED" ("Cluster " <> entry.kcli_name <> " no longer found")
            m)
      else m

  pub cluster_present : ResourceEntry → ClusterInfo → Monitor S K → Monitor S K
  unfolding publish set_status
  cluster_present entry cl m =
      let has_nodes = not (cl.cluster_type == "") || not (cl.vms == "") in
      let new_status =
        map_cluster_status has_nodes entry.created_at config.cluster_create_timeout now in
      if not (new_status == entry.status)
      then set_status entry.id new_status (
          publish entry.id "cluster" new_status
            ("Cluster " <> entry.kcli_name <> " status: " <> new_status) m)
      else m

  pub cluster_round : Dict ClusterInfo → ResourceEntry → Monitor S K → Monitor S K
  unfolding cluster_missing cluster_present
  cluster_round kweb_map entry m = elim (lookup entry.kcli_name kweb_map) [
    | none ↦ cluster_missing entry m
    | some cl ↦ cluster_present entry cl m
  ]

  pub cluster_loop : Dict ClusterInfo → List ResourceEntry → Monitor S K → Monitor S K
  unfolding cluster_round
  cluster_loop kweb_map [] m = m
  cluster_loop kweb_map (entry ∷ entries) m =
      cluster_loop kweb_map entries (cluster_round kweb_map entry m)

  -- `pollClusters` after its call of ListClusters.
  pub clusters_listed : Result KwebError (List ClusterInfo) → Monitor S K → Monitor S K
  unfolding cluster_loop
  clusters_listed r m = elim r [
    | err _ ↦ m
    | ok clusters ↦ elim (St.list "cluster" m.store) [
      | err _ ↦ m
      | ok entries ↦ cluster_loop (cluster_map clusters) entries m
    ]
  ]

  pub poll_clusters : Monitor S K → Monitor S K
  unfolding clusters_listed
  poll_clusters m =
      let (r, kweb) = Kw.list_clusters m.kweb in clusters_listed r (record m { kweb = kweb })

module _ {S K : Type 0} (St : StateStore S) (Kw : KwebClient K) (config : Config) (now : ℕ) where
  unfoldable pub flush : Monitor S K → Monitor S K
  flush m = record m { debounce = flush_pending config.debounce_window now m.debounce }

  pub poll : Monitor S K → Monitor S K
  unfolding flush
  poll m =
      let m₁ = refresh_profiles St Kw config now m in
      let (m₂, kweb_vms, store_vms) = poll_vms St Kw config now m₁ in
      let m₃ = poll_clusters St Kw config now m₂ in
      let m₄ = detect_vm_orphans kweb_vms store_vms (flush m₃) in
      record m₄ { first_poll_done = true }
