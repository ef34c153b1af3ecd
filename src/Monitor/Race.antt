-- ===== src/Monitor/Race.antt =====
-- A `CreateVM` of internal/api/server/vm_handlers.go between the two listings of `pollVMs` of
-- internal/monitor/monitor.go: kweb is listed before it, and the store after it.
use dcm_kcli_provider.Prelude.{
  All, ℕ, ◌≡◌, refl, ◌∙◌, ap, false, Option, none, List, [], ◌∷◌, ◌++◌, ◌==◌, eq_refl, arith, inl,
  inr,
}
use dcm_kcli_provider.Prelude.Dict.{Dict, lookup}
use dcm_kcli_provider.Prelude.Result.{Result, ok, err, Result-cases}
use dcm_kcli_provider.Store.Entry.{ResourceEntry, StateStore, not_found}
use dcm_kcli_provider.Store.Contract.{StateStoreLaws}
use dcm_kcli_provider.Kweb.Api.{KwebClient, VmInfo, KwebError}
use dcm_kcli_provider.Monitor.{
  Config, Monitor, vm_map, slice_of, vm_missing, vm_present, publish, set_status, drop_entry,
  vm_round, vm_loop, vms_listed, poll_vms,
}
use dcm_kcli_provider.Monitor.Safety.{vm_loop_frame}
use dcm_kcli_provider.Monitor.Deletion.{IsTracked, vm_gone}
use dcm_kcli_provider.Api.Types.{VmSpec, resource}
use dcm_kcli_provider.Api.Server.{Server, Request, ProfileCache}
use dcm_kcli_provider.Api.Vms.{new_vm_entry, create_vm, created_vm}
use dcm_kcli_provider.Api.Vms.Create.{
  IsAdmitted, kweb_create, create_vm_stores, create_vm-stored, new_vm_entry-status,
}

module _ {S K : Type 0} (St : StateStore S) (Kw : KwebClient K) (config : Config) (now : ℕ) where
  -- `pollVMs` with what another goroutine does to the store and to kweb between the listings.
  unfoldable pub poll_vms_around : (S × K → S × K) → Monitor S K → Monitor S K
  unfolding vms_listed
  poll_vms_around other m =
      let (r, kweb) = Kw.list_vms m.kweb in
      let (store, kweb') = other (m.store, kweb) in
      (vms_listed St Kw config now r (record m { store = store; kweb = kweb' })).0

  poll_vms_alone : (m : Monitor S K) → poll_vms_around (λ p. p) m ≡ (poll_vms St Kw config now m).0
  unfolding poll_vms poll_vms_around
  poll_vms_alone m = refl

  vm_loop-append :
      (kweb_map : Dict VmInfo) (before after : List ResourceEntry) (m : Monitor S K)
      → vm_loop St Kw config now kweb_map (before ++ after) m
        ≡ vm_loop St Kw config now kweb_map after (vm_loop St Kw config now kweb_map before m)
  unfolding vm_loop
  vm_loop-append kweb_map [] after m = refl
  vm_loop-append kweb_map (e ∷ before) after m =
      vm_loop-append kweb_map before after (vm_round St Kw config now kweb_map e m)

  vm_round-kweb :
      (kweb_map : Dict VmInfo) (e : ResourceEntry) (m : Monitor S K)
      → (vm_round St Kw config now kweb_map e m).kweb ≡ m.kweb
  unfolding vm_round vm_missing vm_present publish set_status drop_entry
  vm_round-kweb kweb_map e m = ground arith

  vm_loop-kweb :
      (kweb_map : Dict VmInfo) (es : List ResourceEntry) (m : Monitor S K)
      → (vm_loop St Kw config now kweb_map es m).kweb ≡ m.kweb
  unfolding vm_loop
  vm_loop-kweb kweb_map [] m = refl
  vm_loop-kweb kweb_map (e ∷ es) m =
      vm_loop-kweb kweb_map es (vm_round St Kw config now kweb_map e m) ∙ vm_round-kweb kweb_map e m

  vms_listed-kweb :
      (r : Result KwebError (Option (List VmInfo))) (m : Monitor S K)
      → (vms_listed St Kw config now r m).0.kweb ≡ m.kweb
  unfolding vms_listed
  vms_listed-kweb (err _) m = refl
  vms_listed-kweb (ok vms) m = elim (Result-cases (St.list "vm" m.store)) [
    | inl (e, h) ↦ rw (h, vms_listed) refl
    | inr (entries, h) ↦ rw (h, vms_listed) (vm_loop-kweb (vm_map (slice_of vms)) entries m)
  ]

  poll_vms_around-kweb :
      (other : S × K → S × K) (m : Monitor S K)
      → (poll_vms_around other m).kweb ≡ (other (m.store, (Kw.list_vms m.kweb).1)).1
  unfolding poll_vms_around
  poll_vms_around-kweb other m = vms_listed-kweb (Kw.list_vms m.kweb).0 _

  -- An entry in the middle of the loop that kweb's list does not have is deleted.
  loop_deletes :
      (kweb_map : Dict VmInfo) (e : ResourceEntry) (s' : S) (before after : List ResourceEntry)
      (m : Monitor S K)
      → StateStoreLaws St
      → lookup e.kcli_name kweb_map ≡ none
      → IsTracked e
      → All (λ x. (x.id == e.id) ≡ false) after
      → St.delete e.id (vm_loop St Kw config now kweb_map before m).store ≡ (ok tt, s')
      → St.get e.id (vm_loop St Kw config now kweb_map (before ++ (e ∷ after)) m).store
        ≡ err not_found
  unfolding vm_loop
  loop_deletes kweb_map e s' before after m L absent t others deletes =
      let m₁ = vm_loop St Kw config now kweb_map before m in
      let m₂ = vm_round St Kw config now kweb_map e m₁ in
      ap (λ (x : Monitor S K). St.get e.id x.store) (vm_loop-append kweb_map before (e ∷ after) m)
      ∙ vm_loop_frame St Kw config now L e.id kweb_map after m₂ others
      ∙ ap (λ (x : Monitor S K). St.get e.id x.store)
          (vm_gone St Kw config now e m₁ kweb_map absent t)
      ∙ ap (λ p. St.get e.id p.1) deletes
      ∙ L.get-delete e.id m₁.store s' e.id deletes
      ∙ rw (eq_refl e.id) refl

  -- Whatever stores the entry between the listings, its VM is missing in kweb's list.
  dropped_between :
      (other : S × K → S × K) (vms : Option (List VmInfo)) (e : ResourceEntry) (s' s'' : S) (k' : K)
      (before after : List ResourceEntry) (m : Monitor S K)
      → StateStoreLaws St
      → (Kw.list_vms m.kweb).0 ≡ ok vms
      → other (m.store, (Kw.list_vms m.kweb).1) ≡ (s', k')
      → St.list "vm" s' ≡ ok (before ++ (e ∷ after))
      → lookup e.kcli_name (vm_map (slice_of vms)) ≡ none
      → IsTracked e
      → All (λ x. (x.id == e.id) ≡ false) after
      → St.delete e.id
          (vm_loop St Kw config now
            (vm_map (slice_of vms))
            before
            (record m { store = s'; kweb = k' })).store
        ≡ (ok tt, s'')
      → St.get e.id (poll_vms_around other m).store ≡ err not_found
  unfolding poll_vms_around vms_listed
  dropped_between other vms e s' s'' k' before after m L up between listed absent t others deletes =
      let after_other : S × K → Monitor S K = λ p. record m { store = p.0; kweb = p.1 } in
      let r = (Kw.list_vms m.kweb).0 in
      ap (λ (p : S × K). St.get e.id (vms_listed St Kw config now r (after_other p)).0.store)
        between
      ∙ rw (up, vms_listed)
          (rw (listed) (
            loop_deletes (vm_map (slice_of vms)) e s'' before after (after_other (s', k')) L absent
              t others deletes))

  -- A whole CreateVM, as what it does to the store and to kweb.
  abbrev pub creating : Option ProfileCache → Request → VmSpec → Server S K → S × K → S × K
  creating cache req spec w (store, kweb) =
      let w' = (create_vm St Kw cache req spec (record w { store = store; kweb = kweb })).1 in
      (w'.store, w'.kweb)

  module _ (cache : Option ProfileCache) (req : Request) (spec : VmSpec) (w : Server S K)
      (m : Monitor S K) where
    -- The server that the request meets: the monitor's store, and kweb after it has listed its VMs.
    abbrev pub met : Server S K
    met = record w { store = m.store; kweb = (Kw.list_vms m.kweb).1 }

    -- Where a request's CreateVM, which the store and kweb accept, runs after the poll has listed
    -- kweb and before it lists the store, kweb's list lacks the new VM's name, the store lists the
    -- new entry, no later entry has its id, and the store deletes it when the poll asks: CreateVM
    -- answers 201, after the poll's VMs the store no longer knows the id, and kweb is as CreateVM's
    -- call left it.
    pub created_vm_dropped :
        (vms : Option (List VmInfo)) (s' s'' : S) (before after : List ResourceEntry)
        → StateStoreLaws St
        → (Kw.list_vms m.kweb).0 ≡ ok vms
        → IsAdmitted St Kw cache req spec met
        → (kweb_create St Kw cache req spec met).0 ≡ ok tt
        → St.put (new_vm_entry St Kw req spec) m.store ≡ (ok tt, s')
        → St.list "vm" s' ≡ ok (before ++ (new_vm_entry St Kw req spec ∷ after))
        → lookup (new_vm_entry St Kw req spec).kcli_name (vm_map (slice_of vms)) ≡ none
        → All (λ x. (x.id == (new_vm_entry St Kw req spec).id) ≡ false) after
        → St.delete
            (new_vm_entry St Kw req spec).id
            (vm_loop St Kw config now
              (vm_map (slice_of vms))
              before
              (record m { store = s'; kweb = (kweb_create St Kw cache req spec met).1 })).store
          ≡ (ok tt, s'')
        → let e = new_vm_entry St Kw req spec in
          ((create_vm St Kw cache req spec met).0 ≡ resource 201 (created_vm St Kw e spec))
          × (let m' = poll_vms_around (creating cache req spec w) m in
              (St.get e.id m'.store ≡ err not_found)
              × (m'.kweb ≡ (kweb_create St Kw cache req spec met).1))
    created_vm_dropped vms s' s'' before after L up a made stored listed absent others deletes =
        let e = new_vm_entry St Kw req spec in
        let answer = create_vm_stores St Kw cache req spec met s' e.id L a made stored in
        let k' = (kweb_create St Kw cache req spec met).1 in
        let t = new_vm_entry-status St Kw req spec in
        let tracked : IsTracked e = (rw (t) refl, rw (t) refl) in
        let left = create_vm-stored St Kw cache req spec met s' a made stored in
        let between : creating cache req spec w (m.store, (Kw.list_vms m.kweb).1) ≡ (s', k') =
          λ i. ((left i).1.store, (left i).1.kweb) in
        let dropped =
          dropped_between (creating cache req spec w) vms e s' s'' k' before after m L up between
            listed absent tracked others deletes in
        (
          answer.0,
          (dropped, poll_vms_around-kweb (creating cache req spec w) m ∙ ap (λ p. p.1.kweb) left),
        )
