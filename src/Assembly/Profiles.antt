-- ===== src/Assembly/Profiles.antt =====
-- The monitor as the cache of profiles that cmd/dcm-kcli-provider/server.go gives to the handlers.
use dcm_kcli_provider.Prelude.{
  ℕ, Bool, sym, ap, ◌∙◌, if◌then◌else◌, String, ◌≡◌, refl, ◌↔◌, ◌⊎◌, inl, inr, Option, none, some,
  List, [], ◌∷◌, ◌==◌, true, eq_iff, arith, Member, Bool-cases,
}
use dcm_kcli_provider.Prelude.Dict.{Dict, contains, contains-insert, contains-nil}
use dcm_kcli_provider.Metrics.{GaugeCall}
use dcm_kcli_provider.Store.Entry.{ResourceEntry, StateStore}
use dcm_kcli_provider.Kweb.Api.{KwebClient, VmInfo}
use dcm_kcli_provider.Api.Server.{ProfileCache}
use dcm_kcli_provider.Api.Vms.{profile_problem}
use dcm_kcli_provider.Api.Vms.Create.{profile_problem-none}
use dcm_kcli_provider.Monitor.{
  Config, Monitor, new_monitor, profiles_of, has_profile, profile_set_of, refresh_profiles,
  orphan_loop, note_orphan, detect_vm_orphans, is_orphan, publish, set_status, drop_entry, flush,
}
use dcm_kcli_provider.Monitor.Steps.{Reach}
use dcm_kcli_provider.Monitor.Steps.Reach.{here, next}
use dcm_kcli_provider.Monitor.Steps.Step.{
  refreshed, published, updated, dropped, flushed, compared, polled, elsewhere,
}

pub profile_cache : {S K : Type 0} → Monitor S K → ProfileCache
profile_cache m = record { profiles = profiles_of m; has_profile = λ name. has_profile name m }

contains-profile_set_of :
    (ps : List String) (p : String) → (contains p (profile_set_of ps) ≡ true) ↔ Member p ps
unfolding profile_set_of
contains-profile_set_of [] p =
    (λ h. absurd (ground (arith, contains-nil (Unit {0}) p)), λ m. absurd m)
contains-profile_set_of (q ∷ ps) p =
    let (member, known) = contains-profile_set_of ps p in
    elim (Bool-cases (q == p)) [
      | inl same ↦ (
        λ _. inl (sym ((eq_iff q p).0 same)),
        λ _. ground (arith, contains-insert q p tt (profile_set_of ps)),
      )
      | inr other ↦ (
        λ h. inr (member (ground (arith, contains-insert q p tt (profile_set_of ps)))),
        λ m. elim m [
          | inl e ↦ absurd (ground (arith, eq_iff q p))
          | inr n ↦
              let k : contains p (profile_set_of ps) ≡ true = known n in
              ground (arith, contains-insert q p tt (profile_set_of ps))
        ],
      )
    ]

-- The two fields that `refreshProfiles` writes agree.
abbrev Agree : {S K : Type 0} → Monitor S K → Type 0
Agree m = m.profile_set ≡ profile_set_of m.profiles

module _ {S K : Type 0} (St : StateStore S) (Kw : KwebClient K) (config : Config) where
  orphan_loop-Agree :
      (known : Dict Bool) (vms : List VmInfo) (m : Monitor S K)
      → Agree m
      → Agree (orphan_loop known vms m)
  unfolding orphan_loop note_orphan
  orphan_loop-Agree known [] m a = a
  orphan_loop-Agree known (vm ∷ vms) m a =
      orphan_loop-Agree known vms (if is_orphan known vm then note_orphan vm.name m else m)
        (ground arith)

  refresh-Agree :
      (now : ℕ) (m : Monitor S K) → Agree m → Agree (refresh_profiles St Kw config now m)
  unfolding refresh_profiles
  refresh-Agree now m a = ground arith

  detect-Agree :
      (vms : Option (List VmInfo)) (entries : List ResourceEntry) (m : Monitor S K)
      → Agree m
      → Agree (detect_vm_orphans vms entries m)
  unfolding detect_vm_orphans
  detect-Agree none entries m a = a
  detect-Agree (some vms) entries m a = orphan_loop-Agree _ vms m a

  Reach-Agree : {m n : Monitor S K} → Reach St Kw config m n → Agree m → Agree n
  unfolding publish set_status drop_entry flush
  Reach-Agree here a = a
  Reach-Agree {m} (next (refreshed now) r) a = Reach-Agree r (refresh-Agree now m a)
  Reach-Agree (next (published now id kind status message) r) a = Reach-Agree r a
  Reach-Agree (next (updated now id status) r) a = Reach-Agree r a
  Reach-Agree (next (dropped now id kind) r) a = Reach-Agree r a
  Reach-Agree (next (flushed now) r) a = Reach-Agree r a
  Reach-Agree {m} (next (compared vms entries) r) a = Reach-Agree r (detect-Agree vms entries m a)
  Reach-Agree (next polled r) a = Reach-Agree r a
  Reach-Agree (next (elsewhere s k own) r) a = Reach-Agree r a

  -- In every state that a new monitor reaches, requests and changes in kweb between its steps
  -- included, CreateVM's check passes a profile exactly when the monitor lists it or has no
  -- profiles.
  pub profile_problem-Reach :
      (clock : ℕ → ℕ) (s : S) (k : K) (managed : List GaugeCall) {n : Monitor S K}
      (profile : String)
      → Reach St Kw config (new_monitor clock s k managed) n
      → (profile_problem (some (profile_cache n)) profile ≡ none)
        ↔ (Member profile (profiles_of n) ⊎ (profiles_of n ≡ []))
  unfolding profile_cache has_profile profile_set_of
  profile_problem-Reach clock s k managed {n} profile r =
      let agree = Reach-Agree r refl in
      let (free, passes) = profile_problem-none (profile_cache n) profile in
      let (member, known) = contains-profile_set_of n.profiles profile in
      let at : contains profile n.profile_set ≡ contains profile (profile_set_of n.profiles) =
        ap (contains profile) agree in
      (
        λ h. elim (free h) [ inl k ↦ inl (member (sym at ∙ k)) | inr e ↦ inr e ],
        λ h. passes (elim h [ inl m ↦ inl (at ∙ known m) | inr e ↦ inr e ]),
      )
