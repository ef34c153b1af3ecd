-- ===== src/Api/Vms/Create.antt =====
-- What `CreateVM` does on its branches, over any store that keeps the store's laws.
use dcm_kcli_provider.Prelude.{
  ◌<>◌, true, ◌↔◌, ◌⊎◌, [], Bool-cases, ℕ, String, ◌≡◌, refl, ◌∙◌, ap, inl, inr, Option, none, some,
  ◌∷◌, ◌==◌, arith, eq_iff, eq_refl, if◌then◌else◌,
}
use dcm_kcli_provider.Prelude.Result.{Result, ok, err}
use dcm_kcli_provider.Metrics.{inc}
use dcm_kcli_provider.Store.Entry.{ResourceEntry, StoreError, StateStore}
use dcm_kcli_provider.Store.Contract.{StateStoreLaws}
use dcm_kcli_provider.Kweb.Api.{
  KwebError, conflict, unreachable, not_found, http_error, other_error, VmInfo, KwebClient,
}
use dcm_kcli_provider.Api.Types.{VmSpec, Vm, Response, resource, problem_response, http_status}
use dcm_kcli_provider.Api.Helpers.{
  dcm_prefix, resolve_vm_name, given, resolve_id, resolve_vm_profile, entry_to_vm,
}
use dcm_kcli_provider.Api.Server.{Server, Request, ProfileCache, create_problem, with_kweb}
use dcm_kcli_provider.Api.Vms.{
  enrich_vm, get_vm, vm_params, profile_problem, existing, existing_vm, new_vm_entry, created_vm,
  persist_vm, create_new_vm, create_vm,
}

-- The status of the answer to a create that kweb refuses.
abbrev pub refused_status : KwebError → ℕ
refused_status conflict = 409
refused_status unreachable = 502
refused_status not_found = 500
refused_status (http_error _ _) = 500
refused_status (other_error _) = 500

create_problem-status :
    (A : Type 0) (already : String) (e : KwebError)
    → http_status (create_problem {A = A} already e) ≡ refused_status e
unfolding create_problem problem_response
create_problem-status A already conflict = refl
create_problem-status A already unreachable = refl
create_problem-status A already not_found = refl
create_problem-status A already (http_error _ _) = refl
create_problem-status A already (other_error _) = refl

pub profile_problem-none :
    (cache : ProfileCache) (profile : String)
    → (profile_problem (some cache) profile ≡ none)
      ↔ ((cache.has_profile profile ≡ true) ⊎ (cache.profiles ≡ []))
unfolding profile_problem
profile_problem-none cache profile = (λ h. ground arith, λ h. ground arith)

pub new_vm_entry-id :
    {S K : Type 0} (St : StateStore S) (Kw : KwebClient K) (req : Request) (spec : VmSpec)
    (id : String)
    → given req.client_id ≡ some id
    → (new_vm_entry St Kw req spec).id ≡ id
unfolding new_vm_entry resolve_id
new_vm_entry-id St Kw req spec id h = rw (h, resolve_id) refl

pub new_vm_entry-status :
    {S K : Type 0} (St : StateStore S) (Kw : KwebClient K) (req : Request) (spec : VmSpec)
    → (new_vm_entry St Kw req spec).status ≡ "PROVISIONING"
unfolding new_vm_entry
new_vm_entry-status St Kw req spec = refl

module _ {S K : Type 0} (St : StateStore S) (Kw : KwebClient K) (cache : Option ProfileCache)
    (req : Request) (spec : VmSpec) (w : Server S K) where
  abbrev pub entry : ResourceEntry
  entry = new_vm_entry St Kw req spec

  abbrev pub kweb_create : Result KwebError (Unit {0}) × K
  kweb_create = Kw.create_vm entry.kcli_name (resolve_vm_profile spec) (vm_params spec) w.kweb

  -- The request reaches kweb: the id is not taken and the profile may be used.
  pub record IsAdmitted : Type 0 where
    pub fresh : existing St Kw req.client_id w ≡ none
    pub profile : profile_problem cache (resolve_vm_profile spec) ≡ none

  admitted_create : IsAdmitted → create_vm St Kw cache req spec w ≡ create_new_vm St Kw req spec w
  unfolding create_vm
  admitted_create a = rw (a.fresh, create_vm) (rw (a.profile) refl)

  -- What a create that succeeds answers and leaves.
  abbrev pub stored : S → Response Vm × Server S K
  stored s' = (
    resource 201 (created_vm St Kw entry spec),
    record w { store = s'; kweb = kweb_create.1; managed = inc "vm" ∷ w.managed },
  )

  pub create_new_vm-stored :
      (s' : S)
      → kweb_create.0 ≡ ok tt
      → St.put entry w.store ≡ (ok tt, s')
      → create_new_vm St Kw req spec w ≡ stored s'
  unfolding create_new_vm persist_vm
  create_new_vm-stored s' created put =
      rw (created, create_new_vm) (rw (put, persist_vm) (ap (λ p. stored p.1) put))

  pub create_vm-stored :
      (s' : S)
      → IsAdmitted
      → kweb_create.0 ≡ ok tt
      → St.put entry w.store ≡ (ok tt, s')
      → create_vm St Kw cache req spec w ≡ stored s'
  create_vm-stored s' a created put = admitted_create a ∙ create_new_vm-stored s' created put

  get-after :
      {A : Type 0} (t : A × S) {a : A} {s' : S}
      → t ≡ (a, s')
      → (j : String) → St.get j t.1 ≡ St.get j s'
  get-after t h j = ap (λ p. St.get j p.1) h

  pub create_vm_stores :
      (s' : S) (j : String)
      → StateStoreLaws St
      → IsAdmitted
      → kweb_create.0 ≡ ok tt
      → St.put entry w.store ≡ (ok tt, s')
      → let (r, w') = create_vm St Kw cache req spec w in
        (r ≡ resource 201 (created_vm St Kw entry spec))
        × (w'.managed ≡ inc "vm" ∷ w.managed)
        × (w'.published ≡ w.published)
        × (St.get j w'.store ≡ (if entry.id == j then ok entry else St.get j w.store))
  create_vm_stores s' j L a created put =
      rw (create_vm-stored s' a created put) (refl, refl, refl, L.get-put entry w.store s' j put)

  -- Where the client's id is not taken, the profile may be used, kweb creates the VM and the store
  -- takes the entry, CreateVM answers 201 with the client's id, or the fresh one without it, and a
  -- VM that is PROVISIONING; it has asked kweb for the prefixed name, counts the gauge up and
  -- publishes nothing, and the store answers the new entry under the id and as before elsewhere; and
  -- GetVM of the id, where kweb knows the name, answers 200 with the id, the status and kweb's
  -- address and user.
  pub create_vm_ok :
      (s' : S) (j : String) (kvm : VmInfo)
      → StateStoreLaws St
      → IsAdmitted
      → kweb_create.0 ≡ ok tt
      → St.put entry w.store ≡ (ok tt, s')
      → (Kw.get_vm entry.kcli_name kweb_create.1).0 ≡ ok kvm
      → let id = resolve_id req.client_id req.uuid_id in
        let name = dcm_prefix <> resolve_vm_name spec req.client_id req.uuid_name in
        let e : ResourceEntry = record {
          id = id;
          kcli_name = name;
          kind = "vm";
          status = "PROVISIONING";
          created_at = req.now;
        } in
        let (r, w') = create_vm St Kw cache req spec w in
        (r
          ≡ resource 201 (record {
            id = some id;
            ip = none;
            path = some ("vms/" <> id);
            spec = spec;
            ssh_user = none;
            status = some "PROVISIONING";
          }))
        × (w'.kweb ≡ (Kw.create_vm name (resolve_vm_profile spec) (vm_params spec) w.kweb).1)
        × (w'.managed ≡ inc "vm" ∷ w.managed)
        × (w'.published ≡ w.published)
        × (St.get j w'.store ≡ (if id == j then ok e else St.get j w.store))
        × ((get_vm St Kw id w').0
            ≡ resource 200 (record (entry_to_vm e) {
              id = some id;
              ip = if kvm.ip == "" then none else some kvm.ip;
              path = some ("vms/" <> id);
              ssh_user = if kvm.user == "" then none else some kvm.user;
              status = some "PROVISIONING";
            }))
  unfolding new_vm_entry created_vm get_vm enrich_vm entry_to_vm
  create_vm_ok s' j kvm L a created put known =
      let at : St.get entry.id s' ≡ ok entry =
        L.get-put entry w.store s' entry.id put ∙ ground (arith, eq_refl entry.id) in
      rw (create_vm-stored s' a created put) (
        refl,
        refl,
        refl,
        refl,
        L.get-put entry w.store s' j put,
        rw (at, get_vm) (rw (known) refl),
      )

  -- Where the client's id is not taken, the profile may be used, kweb creates the VM and the store
  -- refuses the entry, CreateVM answers 500, deletes the VM from kweb again, leaves the gauge, and
  -- the store answers every id as before.
  pub create_vm_rolled_back :
      (s' : S) (e : StoreError) (j : String)
      → StateStoreLaws St
      → IsAdmitted
      → kweb_create.0 ≡ ok tt
      → St.put entry w.store ≡ (err e, s')
      → let (r, w') = create_vm St Kw cache req spec w in
        (r ≡ problem_response 500 "failed to persist VM state")
        × (w'.kweb ≡ (Kw.delete_vm entry.kcli_name kweb_create.1).1)
        × (w'.managed ≡ w.managed)
        × (St.get j w'.store ≡ St.get j w.store)
  create_vm_rolled_back s' e j L a created failed = rw (admitted_create a) (
      unfold create_new_vm persist_vm in
      rw (created, create_new_vm)
        (
          rw (failed, persist_vm) refl,
          rw (failed, persist_vm) refl,
          rw (failed, persist_vm) refl,
          rw (failed, persist_vm)
              (get-after (St.put entry w.store) failed j
                ∙ L.get-put_failed entry w.store s' e j failed),
        ))

  -- Where the client's id is not taken, the profile may be used and kweb refuses to create the VM,
  -- CreateVM changes nothing but kweb's own state, and the answer's status is 409 for a conflict,
  -- 502 for an unreachable kweb and 500 for any other error.
  pub create_vm_refused :
      (e : KwebError)
      → IsAdmitted
      → kweb_create.0 ≡ err e
      → let (r, w') = create_vm St Kw cache req spec w in
        (w' ≡ with_kweb kweb_create.1 w) × (http_status r ≡ refused_status e)
  create_vm_refused e a refused =
      rw (admitted_create a)
        (unfold create_new_vm in rw (refused, create_new_vm) (refl, create_problem-status Vm _ e))

  existing_vm_kinds :
      (id : String) (e : ResourceEntry)
      → (e.kind ≡ "vm" → existing_vm St Kw id e ≡ resource 201 (entry_to_vm e))
        × ((e.kind ≡ "vm" → ⊥) → http_status (existing_vm St Kw id e) ≡ 409)
  unfolding existing_vm problem_response
  existing_vm_kinds id e = elim (Bool-cases (e.kind == "vm")) [
    | inl same ↦ (λ _. rw (same) refl, λ h. absurd (h ((eq_iff e.kind "vm").0 same)))
    | inr other ↦ (λ h. absurd (ground (arith, eq_iff e.kind "vm")), λ _. rw (other) refl)
  ]

  existing_status :
      (id : String) (e : ResourceEntry)
      → http_status (existing_vm St Kw id e) ≡ (if e.kind == "vm" then 201 else 409)
  unfolding existing_vm problem_response
  existing_status id e = elim (Bool-cases (e.kind == "vm")) [
    | inl same ↦ rw (same) refl
    | inr other ↦ rw (other) refl
  ]

  -- CreateVM with an id that the store knows changes nothing, whatever the specification: it answers
  -- 201 if the id is a VM's, and 409 if it is not.
  pub create_vm_existing :
      (e : ResourceEntry)
      → existing St Kw req.client_id w ≡ some e
      → let (r, w') = create_vm St Kw cache req spec w in
        (w' ≡ w) × (http_status r ≡ (if e.kind == "vm" then 201 else 409))
  unfolding create_vm
  create_vm_existing e found =
      rw (found, create_vm) (refl, existing_status (resolve_id req.client_id "") e)

  existing_answer :
      (e : ResourceEntry)
      → existing St Kw req.client_id w ≡ some e
      → e.kind ≡ "vm"
      → create_vm St Kw cache req spec w ≡ (resource 201 (entry_to_vm e), w)
  unfolding create_vm existing_vm
  existing_answer e found is_vm = rw (found, create_vm) (rw (is_vm) refl)

module _ {S K : Type 0} (St : StateStore S) (Kw : KwebClient K) (cache : Option ProfileCache) where
  found_again :
      (client_id : Option String) (id : String) (e : ResourceEntry) (w : Server S K)
      → given client_id ≡ some id
      → St.get id w.store ≡ ok e
      → existing St Kw client_id w ≡ some e
  unfolding existing
  found_again client_id id e w named got = rw (named, existing) (rw (got) refl)

  -- Where CreateVM with an id of the client's, not taken, and a profile that may be used has created
  -- and stored the VM, a second CreateVM with that id, at any time and with any specification,
  -- changes nothing and answers 201 with the stored VM.
  pub create_vm_again :
      (req req' : Request) (spec spec' : VmSpec) (w : Server S K) (id : String) (s' : S)
      → StateStoreLaws St
      → IsAdmitted St Kw cache req spec w
      → (kweb_create St Kw cache req spec w).0 ≡ ok tt
      → St.put (entry St Kw cache req spec w) w.store ≡ (ok tt, s')
      → given req.client_id ≡ some id
      → req'.client_id ≡ req.client_id
      → let (_, w') = create_vm St Kw cache req spec w in
        create_vm St Kw cache req' spec' w'
        ≡ (resource 201 (entry_to_vm (entry St Kw cache req spec w)), w')
  unfolding new_vm_entry resolve_id
  create_vm_again req req' spec spec' w id s' L a created stored named same =
      let e = entry St Kw cache req spec w in
      let w' = (create_vm St Kw cache req spec w).1 in
      let (_, _, _, got) = create_vm_stores St Kw cache req spec w s' id L a created stored in
      let is_id : e.id ≡ id = rw (named, resolve_id) refl in
      let kept : St.get id w'.store ≡ ok e = got ∙ (rw (is_id, eq_refl id) refl) in
      existing_answer St Kw cache req' spec' w' e
        (found_again req'.client_id id e w' (rw (same) named) kept) refl
