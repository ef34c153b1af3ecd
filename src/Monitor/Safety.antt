-- ===== src/Monitor/Safety.antt =====
-- A poll while kweb is down, the entries that a poll leaves alone, and a store that agrees with kweb.
use dcm_kcli_provider.Prelude.{
  All, ℕ, String, ◌≡◌, refl, ◌∙◌, ap, ◌⊎◌, true, false, Option, none, some, List, [], ◌∷◌, ◌==◌,
  arith, eq_iff, eq_refl,
}
use dcm_kcli_provider.Prelude.Dict.{Dict, lookup}
use dcm_kcli_provider.Prelude.Result.{Result, ok, err}
use dcm_kcli_provider.Store.Entry.{ResourceEntry, StateStore, StoreError}
use dcm_kcli_provider.Store.Contract.{StateStoreLaws}
use dcm_kcli_provider.Kweb.Api.{KwebClient, VmInfo, ClusterInfo, KwebError}
use dcm_kcli_provider.Monitor.Status.{map_vm_status}
use dcm_kcli_provider.Monitor.Publishing.{flush_pending}
use dcm_kcli_provider.Monitor.{
  Config, Monitor, refresh_profiles, vm_round, vm_loop, poll_vms, cluster_round, cluster_loop,
  poll_clusters, clusters_listed, detect_vm_orphans, poll,
}

-- Every listing of VMs and of clusters fails.
pub record IsDown {K : Type 0} (Kw : KwebClient K) : Type 0 where
  pub no_vms : (k : K) → (e : KwebError) × ((Kw.list_vms k).0 ≡ err e)
  pub no_clusters : (k : K) → (e : KwebError) × ((Kw.list_clusters k).0 ≡ err e)

module _ {S K : Type 0} (St : StateStore S) (Kw : KwebClient K) (config : Config) (now : ℕ) where
  refresh_frame :
      (m : Monitor S K)
      → let m' = refresh_profiles St Kw config now m in
        (m'.store ≡ m.store)
        × (m'.managed ≡ m.managed)
        × (m'.orphan_counter ≡ m.orphan_counter)
        × (m'.debounce ≡ m.debounce)
  unfolding refresh_profiles
  refresh_frame m = ground arith

  poll_vms_down :
      (m : Monitor S K) (e : KwebError)
      → (Kw.list_vms m.kweb).0 ≡ err e
      → poll_vms St Kw config now m ≡ (record m { kweb = (Kw.list_vms m.kweb).1 }, none, [])
  unfolding poll_vms
  poll_vms_down m e h = rw (h, poll_vms) refl

  poll_clusters_down :
      (m : Monitor S K) (e : KwebError)
      → (Kw.list_clusters m.kweb).0 ≡ err e
      → poll_clusters St Kw config now m ≡ record m { kweb = (Kw.list_clusters m.kweb).1 }
  unfolding poll_clusters clusters_listed
  poll_clusters_down m e h = rw (h, poll_clusters, clusters_listed) refl

  -- While kweb can list neither VMs nor clusters, a poll leaves the store, the gauge and the orphan
  -- counter as they were, and does to the events only what a flush of the pending ones does.
  pub poll_down :
      (m : Monitor S K)
      → IsDown Kw
      → let m' = poll St Kw config now m in
        (m'.store ≡ m.store)
        × (m'.managed ≡ m.managed)
        × (m'.orphan_counter ≡ m.orphan_counter)
        × (m'.debounce ≡ flush_pending config.debounce_window now m.debounce)
  unfolding poll detect_vm_orphans
  poll_down m h =
      let m₁ = refresh_profiles St Kw config now m in
      let (e, down) = h.no_vms m₁.kweb in
      let (e', down') = h.no_clusters (Kw.list_vms m₁.kweb).1 in
      let m₂ = record m₁ { kweb = (Kw.list_vms m₁.kweb).1 } in
      let (s, g, o, d) = refresh_frame m in
      rw (poll_vms_down m₁ e down, poll)
        (rw (poll_clusters_down m₂ e' down')
          (s, g, o, ap (flush_pending config.debounce_window now) d))

  -- What the store answers for the id `j` after a write to another id is what it answered before.
  module _ (L : StateStoreLaws St) (j : String) where
    update_frame :
        (id status : String) (s : S)
        → (id == j) ≡ false
        → St.get j (St.update_status id status s).1 ≡ St.get j s
    update_frame id status s h =
        go (St.update_status id status s).0 (St.update_status id status s).1 refl
      where
        go :
            (r : Result StoreError (Unit {0})) (s' : S)
            → St.update_status id status s ≡ (r, s')
            → St.get j s' ≡ St.get j s
        go (ok u) s' e = let (_, _, g) = L.get-update_status id status s s' j e in ground (arith, g)
        go (err x) s' e = L.get-update_status_failed id status s s' x j e

    delete_frame :
        (id : String) (s : S) → (id == j) ≡ false → St.get j (St.delete id s).1 ≡ St.get j s
    delete_frame id s h = go (St.delete id s).0 (St.delete id s).1 refl
      where
        go :
            (r : Result StoreError (Unit {0})) (s' : S)
            → St.delete id s ≡ (r, s')
            → St.get j s' ≡ St.get j s
        go (ok u) s' e = ground (arith, L.get-delete id s s' j e)
        go (err x) s' e = L.get-delete_failed id s s' x j e

    vm_round_frame :
        (kweb_map : Dict VmInfo) (entry : ResourceEntry) (m : Monitor S K)
        → (entry.id == j) ≡ false
        → St.get j (vm_round St Kw config now kweb_map entry m).store ≡ St.get j m.store
    unfolding vm_round
    vm_round_frame kweb_map entry m h = grind (arith, delete_frame, update_frame)

    cluster_round_frame :
        (kweb_map : Dict ClusterInfo) (entry : ResourceEntry) (m : Monitor S K)
        → (entry.id == j) ≡ false
        → St.get j (cluster_round St Kw config now kweb_map entry m).store ≡ St.get j m.store
    unfolding cluster_round
    cluster_round_frame kweb_map entry m h = grind (arith, delete_frame, update_frame)

    -- The poll's loop over VM entries changes what the store answers for no id but those of the
    -- entries that it walks.
    pub vm_loop_frame :
        (kweb_map : Dict VmInfo) (entries : List ResourceEntry) (m : Monitor S K)
        → All (λ e. (e.id == j) ≡ false) entries
        → St.get j (vm_loop St Kw config now kweb_map entries m).store ≡ St.get j m.store
    unfolding vm_loop
    vm_loop_frame kweb_map [] m h = refl
    vm_loop_frame kweb_map (entry ∷ entries) m h =
        vm_loop_frame kweb_map entries (vm_round St Kw config now kweb_map entry m) h.1
        ∙ vm_round_frame kweb_map entry m h.0

    -- The poll's loop over cluster entries changes what the store answers for no id but those of the
    -- entries that it walks.
    pub cluster_loop_frame :
        (kweb_map : Dict ClusterInfo) (entries : List ResourceEntry) (m : Monitor S K)
        → All (λ e. (e.id == j) ≡ false) entries
        → St.get j (cluster_loop St Kw config now kweb_map entries m).store ≡ St.get j m.store
    unfolding cluster_loop
    cluster_loop_frame kweb_map [] m h = refl
    cluster_loop_frame kweb_map (entry ∷ entries) m h =
        cluster_loop_frame kweb_map entries (cluster_round St Kw config now kweb_map entry m) h.1
        ∙ cluster_round_frame kweb_map entry m h.0

  -- The store has of an entry what kweb says of its VM, or the VM is gone and the entry says so.
  abbrev pub AgreesWith : ResourceEntry → Option VmInfo → Type 0
  AgreesWith entry none =
      ((entry.status == "DELETED") ≡ true) ⊎ ((entry.status == "DELETING") ≡ true)
  AgreesWith entry (some vm) = map_vm_status vm.status entry.created_at now ≡ entry.status

  abbrev pub Agrees : Dict VmInfo → ResourceEntry → Type 0
  Agrees kweb_map entry = AgreesWith entry (lookup entry.kcli_name kweb_map)

  vm_round_quiet :
      (kweb_map : Dict VmInfo) (entry : ResourceEntry) (m : Monitor S K)
      → Agrees kweb_map entry
      → vm_round St Kw config now kweb_map entry m ≡ m
  unfolding vm_round
  vm_round_quiet kweb_map entry m h = go (lookup entry.kcli_name kweb_map) refl
    where
      go :
          (o : Option VmInfo)
          → lookup entry.kcli_name kweb_map ≡ o
          → vm_round St Kw config now kweb_map entry m ≡ m
      go none e =
          let q : ((entry.status == "DELETED") ≡ true) ⊎ ((entry.status == "DELETING") ≡ true) =
            rw e at h in
          ground arith
      go (some vm) e =
          let q : map_vm_status vm.status entry.created_at now ≡ entry.status = rw e at h in
          ground (arith, eq_iff (map_vm_status vm.status entry.created_at now) entry.status)

  -- Where every entry has the status that kweb's maps to, or is missing in kweb and DELETED or
  -- DELETING, the loop over the VM entries leaves the monitor exactly as it was: nothing is
  -- published, written or counted.
  pub vm_loop_quiet :
      (kweb_map : Dict VmInfo) (entries : List ResourceEntry) (m : Monitor S K)
      → All (Agrees kweb_map) entries
      → vm_loop St Kw config now kweb_map entries m ≡ m
  unfolding vm_loop
  vm_loop_quiet kweb_map [] m h = refl
  vm_loop_quiet kweb_map (entry ∷ entries) m h =
      rw (vm_round_quiet kweb_map entry m h.0) (vm_loop_quiet kweb_map entries m h.1)

  -- After the round on a stored entry whose VM kweb lists, if the store takes the status, the store
  -- answers the entry with the status that kweb's maps to, and otherwise as it was.
  pub vm_round_syncs :
      (kweb_map : Dict VmInfo) (entry : ResourceEntry) (vm : VmInfo) (m : Monitor S K)
      → StateStoreLaws St
      → lookup entry.kcli_name kweb_map ≡ some vm
      → St.get entry.id m.store ≡ ok entry
      → (St.update_status entry.id (map_vm_status vm.status entry.created_at now) m.store).0 ≡ ok tt
      → St.get entry.id (vm_round St Kw config now kweb_map entry m).store
        ≡ ok (record entry { status = map_vm_status vm.status entry.created_at now })
  unfolding vm_round
  vm_round_syncs kweb_map entry vm m L present stored written =
      let new_status = map_vm_status vm.status entry.created_at now in
      let s' = (St.update_status entry.id new_status m.store).1 in
      let (old, g, at) =
        L.get-update_status entry.id new_status m.store s' entry.id (λ i. (written i, s')) in
      ground (arith, g, at, eq_refl entry.id, eq_iff new_status entry.status)
