-- ===== src/Monitor/Steps/Polls.antt =====
-- `poll` and `Run` of internal/monitor/monitor.go as sequences of steps.
use dcm_kcli_provider.Prelude.{ℕ, String, Option, none, some, List, [], ◌∷◌}
use dcm_kcli_provider.Prelude.Dict.{Dict, lookup}
use dcm_kcli_provider.Prelude.Result.{Result, ok, err}
use dcm_kcli_provider.Store.Entry.{ResourceEntry, StateStore}
use dcm_kcli_provider.Kweb.Api.{KwebClient, KwebError, VmInfo, ClusterInfo}
use dcm_kcli_provider.Monitor
use dcm_kcli_provider.Monitor.{
  Config, Monitor, refresh_profiles, set_status, drop_entry, detect_vm_orphans, vm_map, cluster_map,
  slice_of, vm_missing, vm_present, vm_round, vm_loop, vms_listed, poll_vms, cluster_missing,
  cluster_present, cluster_round, cluster_loop, poll_clusters, clusters_listed, poll,
}
use dcm_kcli_provider.Monitor.Loop.{poll_loop}
use dcm_kcli_provider.Monitor.Steps.{Reach, trans, if_Reach}
use dcm_kcli_provider.Monitor.Steps.Step.{
  refreshed, published, updated, dropped, flushed, compared, polled, elsewhere,
}
use dcm_kcli_provider.Monitor.Steps.Reach.{here, next}

module _ {S K : Type 0} (St : StateStore S) (Kw : KwebClient K) (config : Config) where
  abbrev pub Leads : Monitor S K → Monitor S K → Type 0
  Leads = Reach St Kw config

  module _ (now : ℕ) where
    abbrev gone :
        {m : Monitor S K} (id kind message : String)
        → Leads m (
            drop_entry St Kw config now id kind
              (Monitor.publish St Kw config now id kind "DELETED" message m))
    gone id kind message =
        next (published now id kind "DELETED" message) (next (dropped now id kind) here)

    abbrev changed :
        {m : Monitor S K} (id kind status message : String)
        → Leads m (
            set_status St Kw config now id status
              (Monitor.publish St Kw config now id kind status message m))
    changed id kind status message =
        next (published now id kind status message) (next (updated now id status) here)

    unfoldable vm_missing-Reach :
        (e : ResourceEntry) (m : Monitor S K) → Leads m (vm_missing St Kw config now e m)
    unfolding vm_missing
    vm_missing-Reach e m = if_Reach St Kw config _ (gone _ _ _) here

    unfoldable vm_present-Reach :
        (e : ResourceEntry) (vm : VmInfo) (m : Monitor S K)
        → Leads m (vm_present St Kw config now e vm m)
    unfolding vm_present
    vm_present-Reach e vm m = if_Reach St Kw config _ (changed _ _ _ _) here

    unfoldable cluster_missing-Reach :
        (e : ResourceEntry) (m : Monitor S K) → Leads m (cluster_missing St Kw config now e m)
    unfolding cluster_missing
    cluster_missing-Reach e m =
        if_Reach St Kw config _ (changed _ _ _ _) (if_Reach St Kw config _ (gone _ _ _) here)

    unfoldable cluster_present-Reach :
        (e : ResourceEntry) (cl : ClusterInfo) (m : Monitor S K)
        → Leads m (cluster_present St Kw config now e cl m)
    unfolding cluster_present
    cluster_present-Reach e cl m = if_Reach St Kw config _ (changed _ _ _ _) here

    unfoldable vm_round-Reach :
        (kweb_map : Dict VmInfo) (e : ResourceEntry) (m : Monitor S K)
        → Leads m (vm_round St Kw config now kweb_map e m)
    unfolding vm_round vm_missing-Reach vm_present-Reach
    vm_round-Reach kweb_map e m =
        elim (lookup e.kcli_name kweb_map)
          as (λ o. Leads m (elim o as (λ _. Monitor S K) [
            | none ↦ vm_missing St Kw config now e m
            | some vm ↦ vm_present St Kw config now e vm m
          ])) [ none ↦ vm_missing-Reach e m | some vm ↦ vm_present-Reach e vm m ]

    unfoldable vm_loop-Reach :
        (kweb_map : Dict VmInfo) (es : List ResourceEntry) (m : Monitor S K)
        → Leads m (vm_loop St Kw config now kweb_map es m)
    unfolding vm_loop vm_round-Reach
    vm_loop-Reach kweb_map [] m = here
    vm_loop-Reach kweb_map (e ∷ es) m =
        trans St Kw config (vm_round-Reach kweb_map e m)
          (vm_loop-Reach kweb_map es (vm_round St Kw config now kweb_map e m))

    unfoldable cluster_round-Reach :
        (kweb_map : Dict ClusterInfo) (e : ResourceEntry) (m : Monitor S K)
        → Leads m (cluster_round St Kw config now kweb_map e m)
    unfolding cluster_round cluster_missing-Reach cluster_present-Reach
    cluster_round-Reach kweb_map e m =
        elim (lookup e.kcli_name kweb_map)
          as (λ o. Leads m (elim o as (λ _. Monitor S K) [
            | none ↦ cluster_missing St Kw config now e m
            | some cl ↦ cluster_present St Kw config now e cl m
          ])) [ none ↦ cluster_missing-Reach e m | some cl ↦ cluster_present-Reach e cl m ]

    unfoldable cluster_loop-Reach :
        (kweb_map : Dict ClusterInfo) (es : List ResourceEntry) (m : Monitor S K)
        → Leads m (cluster_loop St Kw config now kweb_map es m)
    unfolding cluster_loop cluster_round-Reach
    cluster_loop-Reach kweb_map [] m = here
    cluster_loop-Reach kweb_map (e ∷ es) m =
        trans St Kw config (cluster_round-Reach kweb_map e m)
          (cluster_loop-Reach kweb_map es (cluster_round St Kw config now kweb_map e m))

    unfoldable vms_listed-Reach :
        (r : Result KwebError (Option (List VmInfo))) (m : Monitor S K)
        → Leads m (vms_listed St Kw config now r m).0
    unfolding vms_listed vm_loop-Reach
    vms_listed-Reach (err _) m = here
    vms_listed-Reach (ok vms) m =
        elim (St.list "vm" m.store)
          as (λ o.
            Leads m
              (elim o as (λ _. Monitor S K × Option (List VmInfo) × List ResourceEntry) [
                | err _ ↦ (m, vms, [])
                | ok entries ↦
                    (vm_loop St Kw config now (vm_map (slice_of vms)) entries m, vms, entries)
              ]).0) [ err _ ↦ here | ok entries ↦ vm_loop-Reach (vm_map (slice_of vms)) entries m ]

    unfoldable poll_vms-Reach : (m : Monitor S K) → Leads m (poll_vms St Kw config now m).0
    unfolding poll_vms vms_listed-Reach
    poll_vms-Reach m =
        let (r, kweb) = Kw.list_vms m.kweb in
        next (elsewhere m.store kweb []) (vms_listed-Reach r (record m { kweb = kweb }))

    unfoldable clusters_listed-Reach :
        (r : Result KwebError (List ClusterInfo)) (m : Monitor S K)
        → Leads m (clusters_listed St Kw config now r m)
    unfolding clusters_listed cluster_loop-Reach
    clusters_listed-Reach (err _) m = here
    clusters_listed-Reach (ok clusters) m =
        elim (St.list "cluster" m.store)
          as (λ o. Leads m (elim o as (λ _. Monitor S K) [
            | err _ ↦ m
            | ok entries ↦ cluster_loop St Kw config now (cluster_map clusters) entries m
          ])) [ err _ ↦ here | ok entries ↦ cluster_loop-Reach (cluster_map clusters) entries m ]

    unfoldable poll_clusters-Reach : (m : Monitor S K) → Leads m (poll_clusters St Kw config now m)
    unfolding poll_clusters clusters_listed-Reach
    poll_clusters-Reach m =
        let (r, kweb) = Kw.list_clusters m.kweb in
        next (elsewhere m.store kweb []) (clusters_listed-Reach r (record m { kweb = kweb }))

    unfoldable poll-Reach : (m : Monitor S K) → Leads m (poll St Kw config now m)
    unfolding poll poll_vms-Reach poll_clusters-Reach
    poll-Reach m =
        let m₁ = refresh_profiles St Kw config now m in
        let (m₂, kweb_vms, store_vms) = poll_vms St Kw config now m₁ in
        next (refreshed now) (
          trans St Kw config (poll_vms-Reach m₁) (
            trans St Kw config (poll_clusters-Reach m₂)
              (next (flushed now) (next (compared kweb_vms store_vms) (next polled here)))))

  unfoldable pub poll_loop-Reach :
      (ticks : List ℕ) (m : Monitor S K) → Leads m (poll_loop St Kw config ticks m)
  unfolding poll_loop poll-Reach
  poll_loop-Reach [] m = here
  poll_loop-Reach (now ∷ ticks) m =
      trans St Kw config (poll-Reach now m) (poll_loop-Reach ticks (poll St Kw config now m))
