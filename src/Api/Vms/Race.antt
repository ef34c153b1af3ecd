-- ===== src/Api/Vms/Race.antt =====
-- Two requests of `CreateVM` of internal/api/server/vm_handlers.go at once: no lock is held between the
-- look at the client's id and the call of kweb.
use dcm_kcli_provider.Prelude.{
  String, ◌≡◌, refl, ◌∙◌, ap, Option, none, some, ◌∷◌, ◌==◌, if◌then◌else◌, sym, arith,
}
use dcm_kcli_provider.Prelude.Result.{ok}
use dcm_kcli_provider.Metrics.{inc}
use dcm_kcli_provider.Store.Entry.{StateStore}
use dcm_kcli_provider.Store.Contract.{StateStoreLaws}
use dcm_kcli_provider.Kweb.Api.{KwebClient}
use dcm_kcli_provider.Api.Types.{VmSpec, Vm, Response, resource, problem_response}
use dcm_kcli_provider.Api.Helpers.{given, resolve_id, resolve_vm_profile}
use dcm_kcli_provider.Api.Server.{Server, Request, ProfileCache}
use dcm_kcli_provider.Api.Vms.{
  existing, existing_vm, profile_problem, new_vm_entry, created_vm, create_new_vm, create_vm,
}
use dcm_kcli_provider.Api.Vms.Create.{
  IsAdmitted, kweb_create, create_new_vm-stored, create_vm-stored, new_vm_entry-id,
}

module _ {S K : Type 0} (St : StateStore S) (Kw : KwebClient K) where
  -- `CreateVM` with what other requests do between its checks and its call of kweb.
  pub create_vm_around :
      (Server S K → Server S K)
      → Option ProfileCache
      → Request
      → VmSpec
      → Server S K
      → Response Vm × Server S K
  create_vm_around other cache req spec w = elim (existing St Kw req.client_id w) [
    | some entry ↦ (existing_vm St Kw (resolve_id req.client_id "") entry, other w)
    | none ↦ elim (profile_problem cache (resolve_vm_profile spec)) [
      | some detail ↦ (problem_response 400 detail, other w)
      | none ↦ create_new_vm St Kw req spec (other w)
    ]
  ]

  create_vm_alone :
      (cache : Option ProfileCache) (req : Request) (spec : VmSpec) (w : Server S K)
      → create_vm_around (λ v. v) cache req spec w ≡ create_vm St Kw cache req spec w
  unfolding create_vm_around create_vm
  create_vm_alone cache req spec w = refl

  around_admitted :
      (other : Server S K → Server S K) (cache : Option ProfileCache) (req : Request)
      (spec : VmSpec) (w : Server S K)
      → IsAdmitted St Kw cache req spec w
      → create_vm_around other cache req spec w ≡ create_new_vm St Kw req spec (other w)
  unfolding create_vm_around
  around_admitted other cache req spec w a = rw (a.fresh, create_vm_around) (rw (a.profile) refl)

  -- What a whole `CreateVM` leaves.
  abbrev pub handled : Option ProfileCache → Request → VmSpec → Server S K → Server S K
  handled cache req spec w = (create_vm St Kw cache req spec w).1

  module _ (cache : Option ProfileCache) (req req' : Request) (spec spec' : VmSpec)
      (w : Server S K) where
    -- Where two requests of CreateVM carry the same id, which is not taken, each request's profile
    -- may be used, the second is handled whole after the first has passed its checks, kweb creates
    -- both VMs and the store takes both entries: both are answered 201, with the same id, the gauge
    -- goes up by two, and the store answers the first's entry under the id and as before elsewhere.
    pub create_vm_twice :
        (id : String) (s' s'' : S) (j : String)
        → StateStoreLaws St
        → given req.client_id ≡ some id
        → given req'.client_id ≡ some id
        → IsAdmitted St Kw cache req spec w
        → IsAdmitted St Kw cache req' spec' w
        → (kweb_create St Kw cache req' spec' w).0 ≡ ok tt
        → St.put (new_vm_entry St Kw req' spec') w.store ≡ (ok tt, s')
        → (kweb_create St Kw cache req spec (handled cache req' spec' w)).0 ≡ ok tt
        → St.put (new_vm_entry St Kw req spec) s' ≡ (ok tt, s'')
        → let e = new_vm_entry St Kw req spec in
          let e' = new_vm_entry St Kw req' spec' in
          let (r, w') = create_vm_around (handled cache req' spec') cache req spec w in
          (r ≡ resource 201 (created_vm St Kw e spec))
          × ((create_vm St Kw cache req' spec' w).0 ≡ resource 201 (created_vm St Kw e' spec'))
          × (e.id ≡ e'.id)
          × (w'.managed ≡ inc "vm" ∷ inc "vm" ∷ w.managed)
          × (St.get j w'.store ≡ (if e.id == j then ok e else St.get j w.store))
    create_vm_twice id s' s'' j L g g' a a' made' put' made put =
        let e = new_vm_entry St Kw req spec in
        let e' = new_vm_entry St Kw req' spec' in
        let first = create_vm-stored St Kw cache req' spec' w s' a' made' put' in
        let put_after : St.put e (handled cache req' spec' w).store ≡ (ok tt, s'') =
          ap (λ p. St.put e p.1.store) first ∙ put in
        let same : e.id ≡ e'.id =
          new_vm_entry-id St Kw req spec id g ∙ sym (new_vm_entry-id St Kw req' spec' id g') in
        rw
          (around_admitted (handled cache req' spec') cache req spec w a
            ∙ create_new_vm-stored St Kw cache req spec (handled cache req' spec' w) s'' made
                put_after)
          (
            refl,
            ap (λ p. p.0) first,
            same,
            ap (λ p. inc "vm" ∷ p.1.managed) first,
            L.get-put e s' s'' j put ∙ ground (arith, L.get-put e' w.store s' j put', same),
          )
