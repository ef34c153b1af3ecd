-- ===== src/Monitor/Deletion.antt =====
-- What `pollVMs` and `pollClusters` do with a resource that has gone from kweb.
use dcm_kcli_provider.Prelude.{
  ℕ, String, ◌≡◌, refl, ◌∙◌, true, false, none, ◌∷◌, ◌==◌, ◌<>◌, arith, eq_refl, ap, if◌then◌else◌,
}
use dcm_kcli_provider.Prelude.Dict.{Dict, lookup}
use dcm_kcli_provider.Store.Entry.{ResourceEntry, StateStore, not_found}
use dcm_kcli_provider.Store.Contract.{StateStoreLaws}
use dcm_kcli_provider.Prelude.Result.{ok, err}
use dcm_kcli_provider.Kweb.Api.{KwebClient, VmInfo, ClusterInfo}
use dcm_kcli_provider.Metrics.{dec}
use dcm_kcli_provider.Monitor.{Config, Monitor, vm_round, cluster_round}
use dcm_kcli_provider.Monitor.Publishing.{
  Debounce, event_at, stamp, due, publish_with_debounce, forget,
}
use dcm_kcli_provider.Monitor.Publishing.Laws.{scheduled, publish_due, publish_held, forget_lem}

-- An entry that `pollVMs` takes for deleted when its VM is missing.
abbrev pub IsTracked : ResourceEntry → Type 0
IsTracked entry = ((entry.status == "DELETED") ≡ false) × ((entry.status == "DELETING") ≡ false)

-- An entry that `pollClusters` takes for deleted when its cluster is missing.
abbrev pub IsTrackedCluster : ResourceEntry → Type 0
IsTrackedCluster entry = IsTracked entry × ((entry.status == "CREATING") ≡ false)

abbrev vm_message : ResourceEntry → String
vm_message entry = "VM " <> entry.kcli_name <> " no longer found in kweb"

abbrev cluster_message : ResourceEntry → String
cluster_message entry = "Cluster " <> entry.kcli_name <> " no longer found"

module _ (window now : ℕ) (id kind message : String) (d : Debounce) where
  abbrev gone : Debounce
  gone = forget id (publish_with_debounce window now id kind "DELETED" message d)

  forgotten : (lookup id gone.pending ≡ none) × (lookup id gone.last_publish ≡ none)
  forgotten =
      let (_, p, l) =
        forget_lem id id (publish_with_debounce window now id kind "DELETED" message d) in
      ground (arith, p, l, eq_refl id)

  published_once :
      due window now id d ≡ true
      → gone.published
        ≡ event_at (stamp d) id (scheduled window now id kind "DELETED" message d) ∷ d.published
  published_once h =
      (forget_lem id id (publish_with_debounce window now id kind "DELETED" message d)).0
      ∙ (publish_due window now id kind "DELETED" message d id h).0

  never_published : due window now id d ≡ false → gone.published ≡ d.published
  never_published h =
      (forget_lem id id (publish_with_debounce window now id kind "DELETED" message d)).0
      ∙ (publish_held window now id kind "DELETED" message d id h).0

module _ {S K : Type 0} (St : StateStore S) (Kw : KwebClient K) (config : Config) (now : ℕ)
    (entry : ResourceEntry) (m : Monitor S K) where
  pub vm_gone :
      (kweb_map : Dict VmInfo)
      → lookup entry.kcli_name kweb_map ≡ none
      → IsTracked entry
      → vm_round St Kw config now kweb_map entry m ≡ record m {
        store = (St.delete entry.id m.store).1;
        managed = dec "vm" ∷ m.managed;
        debounce = gone config.debounce_window now entry.id "vm" (vm_message entry) m.debounce;
      }
  unfolding vm_round
  vm_gone kweb_map absent t = ground arith

  deleted_entry :
      (s' : S) (j : String)
      → StateStoreLaws St
      → St.delete entry.id m.store ≡ (ok tt, s')
      → St.get j (St.delete entry.id m.store).1
        ≡ (if entry.id == j then err not_found else St.get j m.store)
  deleted_entry s' j L deleted =
      ap (λ t. St.get j t.1) deleted ∙ L.get-delete entry.id m.store s' j deleted

  cluster_gone :
      (kweb_map : Dict ClusterInfo)
      → lookup entry.kcli_name kweb_map ≡ none
      → IsTrackedCluster entry
      → cluster_round St Kw config now kweb_map entry m ≡ record m {
        store = (St.delete entry.id m.store).1;
        managed = dec "cluster" ∷ m.managed;
        debounce =
            gone config.debounce_window now entry.id "cluster" (cluster_message entry) m.debounce;
      }
  unfolding cluster_round
  cluster_gone kweb_map absent t = ground arith

  -- In the round on a VM whose entry is neither DELETED nor DELETING and which kweb no longer lists,
  -- where no publish of it lies in the window and the store deletes the entry, one DELETED event is
  -- published, the store no longer knows the id and answers every other id as before, the gauge goes
  -- down, and neither a pending event nor a last publish of the VM is kept.
  pub vm_deletion_published :
      (kweb_map : Dict VmInfo) (s' : S) (j : String)
      → StateStoreLaws St
      → lookup entry.kcli_name kweb_map ≡ none
      → IsTracked entry
      → due config.debounce_window now entry.id m.debounce ≡ true
      → St.delete entry.id m.store ≡ (ok tt, s')
      → let m' = vm_round St Kw config now kweb_map entry m in
        (m'.debounce.published
          ≡ event_at (stamp m.debounce) entry.id (
              scheduled config.debounce_window now entry.id "vm" "DELETED"
                (vm_message entry)
                m.debounce)
            ∷ m.debounce.published)
        × (St.get j m'.store ≡ (if entry.id == j then err not_found else St.get j m.store))
        × (m'.managed ≡ dec "vm" ∷ m.managed)
        × (lookup entry.id m'.debounce.pending ≡ none)
        × (lookup entry.id m'.debounce.last_publish ≡ none)
  vm_deletion_published kweb_map s' j L absent t h deleted = rw (vm_gone kweb_map absent t) (
    published_once config.debounce_window now entry.id "vm" (vm_message entry) m.debounce h,
    deleted_entry s' j L deleted,
    refl,
    (forgotten config.debounce_window now entry.id "vm" (vm_message entry) m.debounce).0,
    (forgotten config.debounce_window now entry.id "vm" (vm_message entry) m.debounce).1,
  )

  -- In the round on a VM whose entry is neither DELETED nor DELETING and which kweb no longer lists,
  -- where a publish of it lies in the window and the store deletes the entry, the store no longer
  -- knows the id, yet no DELETED event is published, none is left pending, and no time of a last
  -- publish is kept.
  pub vm_deletion_lost :
      (kweb_map : Dict VmInfo) (s' : S)
      → StateStoreLaws St
      → lookup entry.kcli_name kweb_map ≡ none
      → IsTracked entry
      → due config.debounce_window now entry.id m.debounce ≡ false
      → St.delete entry.id m.store ≡ (ok tt, s')
      → let m' = vm_round St Kw config now kweb_map entry m in
        (m'.debounce.published ≡ m.debounce.published)
        × (lookup entry.id m'.debounce.pending ≡ none)
        × (lookup entry.id m'.debounce.last_publish ≡ none)
        × (St.get entry.id m'.store ≡ err not_found)
  vm_deletion_lost kweb_map s' L absent t h deleted = rw (vm_gone kweb_map absent t) (
    never_published config.debounce_window now entry.id "vm" (vm_message entry) m.debounce h,
    (forgotten config.debounce_window now entry.id "vm" (vm_message entry) m.debounce).0,
    (forgotten config.debounce_window now entry.id "vm" (vm_message entry) m.debounce).1,
    deleted_entry s' entry.id L deleted ∙ ground (arith, eq_refl entry.id),
  )

  -- In the round on a cluster whose entry is neither DELETED, DELETING nor CREATING and which kweb
  -- no longer lists, where a publish of it lies in the window, the store is asked to delete the entry,
  -- yet no DELETED event is published and none is left pending.
  cluster_deletion_lost :
      (kweb_map : Dict ClusterInfo)
      → lookup entry.kcli_name kweb_map ≡ none
      → IsTrackedCluster entry
      → due config.debounce_window now entry.id m.debounce ≡ false
      → let m' = cluster_round St Kw config now kweb_map entry m in
        (m'.debounce.published ≡ m.debounce.published)
        × (lookup entry.id m'.debounce.pending ≡ none)
        × (m'.store ≡ (St.delete entry.id m.store).1)
  cluster_deletion_lost kweb_map absent t h = rw (cluster_gone kweb_map absent t) (
    never_published config.debounce_window now entry.id "cluster" (cluster_message entry) m.debounce
        h,
    (forgotten config.debounce_window now entry.id "cluster" (cluster_message entry) m.debounce).0,
    refl,
  )
