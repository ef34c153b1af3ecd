-- ===== src/Monitor/Orphans.antt =====
-- `detectVMOrphans`: which VMs of kweb are reported as orphans.
use text.Mathlib.Text.{starts_with}
use dcm_kcli_provider.Prelude.{
  ℕ, String, ◌≡◌, refl, ◌∙◌, ap, inl, inr, Bool, true, not, ◌&&◌, ◌||◌, some, List, [], ◌∷◌, ◌==◌,
  arith, eq_iff, eq_refl, if◌then◌else◌, Member, Bool-cases,
}
use dcm_kcli_provider.Prelude.Dict.{
  Dict, remove, contains, contains-insert, contains-remove, contains-cons, contains-nil,
}
use dcm_kcli_provider.Prelude.Result.{ok, err}
use dcm_kcli_provider.Store.Entry.{ResourceEntry, StateStore, StoreError}
use dcm_kcli_provider.Kweb.Api.{KwebClient, VmInfo}
use dcm_kcli_provider.Monitor.{
  Config, Monitor, known_names, is_orphan, note_orphan, orphan_loop, current_orphans,
  forget_orphans, detect_vm_orphans, poll_vms, vms_listed,
}

forget_orphans_lem :
    (current names seen : Dict Bool) (j : String)
    → contains j (forget_orphans current names seen)
      ≡ (contains j seen && (not (contains j names) || contains j current))
unfolding forget_orphans
forget_orphans_lem current [] seen j = ground (arith, contains-nil Bool j)
forget_orphans_lem current ((i, b) ∷ names) seen j = ground (
  arith,
  forget_orphans_lem current names (if contains i current then seen else remove i seen) j,
  contains-remove i j seen,
  contains-cons i j b names,
  eq_iff i j,
)

current_orphans-mem :
    (known : Dict Bool) (vms : List VmInfo) (vm : VmInfo)
    → Member vm vms
    → is_orphan known vm ≡ true
    → contains vm.name (current_orphans known vms) ≡ true
unfolding current_orphans
current_orphans-mem known [] vm h o = absurd h
current_orphans-mem known (v ∷ vms) vm (inl here) o = ground (
  arith,
  contains-insert v.name v.name true (current_orphans known vms),
  eq_refl v.name,
  ap (λ (x : VmInfo). x.name) here,
  ap (is_orphan known) here,
)
current_orphans-mem known (v ∷ vms) vm (inr later) o = ground (
  arith,
  contains-insert v.name vm.name true (current_orphans known vms),
  current_orphans-mem known vms vm later o,
)

module _ {S K : Type 0} where
  note_orphan-seen :
      (name j : String) (m : Monitor S K)
      → contains j (note_orphan name m).seen_orphans ≡ ((name == j) || contains j m.seen_orphans)
  unfolding note_orphan
  note_orphan-seen name j m =
      ground (arith, contains-insert name j true m.seen_orphans, eq_iff name j)

  orphan_loop-seen :
      (known : Dict Bool) (vms : List VmInfo) (j : String) (m : Monitor S K)
      → contains j (orphan_loop known vms m).seen_orphans
        ≡ (contains j (current_orphans known vms) || contains j m.seen_orphans)
  unfolding orphan_loop current_orphans
  orphan_loop-seen known [] j m = ground (arith, contains-nil Bool j)
  orphan_loop-seen known (vm ∷ vms) j m = ground (
    arith,
    orphan_loop-seen known vms j (if is_orphan known vm then note_orphan vm.name m else m),
    note_orphan-seen vm.name j m,
    contains-insert vm.name j true (current_orphans known vms),
  )

  -- Once the detection has run on a list of VMs, the names that it remembers are exactly those of
  -- the orphans on that list.
  pub detect-seen :
      (vms : List VmInfo) (entries : List ResourceEntry) (m : Monitor S K) (j : String)
      → contains j (detect_vm_orphans (some vms) entries m).seen_orphans
        ≡ contains j (current_orphans (known_names entries) vms)
  unfolding detect_vm_orphans
  detect-seen vms entries m j =
      let known = known_names entries in
      let noted = orphan_loop known vms m in
      ground (
        arith,
        forget_orphans_lem (current_orphans known vms) noted.seen_orphans noted.seen_orphans j,
        orphan_loop-seen known vms j m,
      )

  orphan_loop_known :
      (known : Dict Bool) (vms : List VmInfo) (m : Monitor S K)
      → ((vm : VmInfo)
          → Member vm vms
          → is_orphan known vm ≡ true
          → contains vm.name m.seen_orphans ≡ true)
      → orphan_loop known vms m ≡ m
  unfolding orphan_loop note_orphan
  orphan_loop_known known [] m h = refl
  orphan_loop_known known (vm ∷ vms) m h =
      let rest = orphan_loop_known known vms m (λ v at. h v (inr at)) in
      elim (Bool-cases (is_orphan known vm)) [
        | inl o ↦ rw (o, h vm (inl refl) o) rest
        | inr n ↦ rw n rest
      ]

  -- An orphan is counted once: the detection run again on the same lists leaves the counter as it
  -- was.
  pub detect_twice :
      (vms : List VmInfo) (entries : List ResourceEntry) (m : Monitor S K)
      → let m' = detect_vm_orphans (some vms) entries m in
        (detect_vm_orphans (some vms) entries m').orphan_counter ≡ m'.orphan_counter
  unfolding detect_vm_orphans
  detect_twice vms entries m =
      let m' = detect_vm_orphans (some vms) entries m in
      ap (λ (r : Monitor S K). r.orphan_counter)
        (orphan_loop_known (known_names entries) vms m' (λ vm at o.
          detect-seen vms entries m vm.name
          ∙ current_orphans-mem (known_names entries) vms vm at o))

module _ {S K : Type 0} (St : StateStore S) (Kw : KwebClient K) (config : Config) (now : ℕ)
    (m : Monitor S K) where
  -- Where the VMs of the store cannot be listed, every VM of kweb with the provider's prefix is
  -- remembered as an orphan, whatever the store holds.
  pub store_failure_orphans :
      (vms : List VmInfo) (e : StoreError) (vm : VmInfo)
      → (Kw.list_vms m.kweb).0 ≡ ok (some vms)
      → St.list "vm" m.store ≡ err e
      → Member vm vms
      → starts_with vm.name "dcm-" ≡ true
      → let (m', kweb_vms, store_vms) = poll_vms St Kw config now m in
        contains vm.name (detect_vm_orphans kweb_vms store_vms m').seen_orphans ≡ true
  unfolding poll_vms vms_listed
  store_failure_orphans vms e vm kw st at prefix =
      rw (kw, st, poll_vms, vms_listed, vms_listed)
        (detect-seen vms [] (record m { kweb = (Kw.list_vms m.kweb).1 }) vm.name
          ∙ current_orphans-mem (known_names []) vms vm at
              (unfold is_orphan known_names in ground (arith, contains-nil Bool vm.name)))
