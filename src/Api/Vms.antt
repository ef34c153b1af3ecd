-- ===== src/Api/Vms.antt =====
-- internal/api/server/vm_handlers.go. Logging is left out; a text between quotes in a problem's detail
-- is not escaped as `%q` would.
pub mod Listing
pub mod Create
pub mod Delete
pub mod Race
pub mod Http
pub mod Runs
use dcm_kcli_provider.Prelude.{
  ℕ, ◌+◌, ◌*◌, String, Bool, true, false, not, ◌&&◌, ◌||◌, Option, none, some, List, [], ◌∷◌, ◌==◌,
  ◌<>◌, map, if◌then◌else◌,
}
use dcm_kcli_provider.Prelude.Result.{Result, ok, err}
use dcm_kcli_provider.Prelude.Dict.{Dict, lookup, insert}
use dcm_kcli_provider.Metrics.{inc, dec}
use dcm_kcli_provider.Events.{vm_event}
use dcm_kcli_provider.Store.Entry.{
  ResourceEntry, StoreError, not_found, store_error_text, StateStore,
}
use dcm_kcli_provider.Kweb.Api.{
  KwebError, unreachable, VmInfo, Params, str, number, array, nil, cons, KwebClient,
}
use dcm_kcli_provider.Monitor.{vm_map, slice_of}
use dcm_kcli_provider.Text.{is_positive}
use dcm_kcli_provider.Api.Types.{
  Access, Memory, Vcpu, VmSpec, Vm, ListParams, Response, resource, no_content, problem_response,
  Page,
}
use dcm_kcli_provider.Api.Helpers.{
  given, resolve_id, dcm_prefix, trim_dcm_prefix, merge_kcli_hints, parse_memory_size,
  resolve_vm_profile, resolve_vm_name, entry_to_vm,
}
use dcm_kcli_provider.Api.Paging.{page_size, start_index, paginate}
use dcm_kcli_provider.Api.Server.{
  Server, Request, ProfileCache, create_problem, delete_problem, with_store, with_kweb,
  sort_entries, join,
}

memory_params : Option Memory → Params → Params
memory_params none params = params
memory_params (some memory) params = elim (parse_memory_size memory.size) [
  | none ↦ params
  | some mb ↦ if is_positive mb then insert "parameters[memory]" (number mb) params else params
]

vcpu_params : Option Vcpu → Params → Params
vcpu_params none params = params
vcpu_params (some vcpu) params = elim vcpu.count [
  | none ↦ params
  | some count ↦ insert "parameters[numcpus]" (number count) params
]

access_params : Option Access → Params → Params
access_params none params = params
access_params (some access) params = elim (given access.ssh_public_key) [
  | none ↦ params
  | some key ↦ insert "parameters[keys]" (array (cons (str key) nil)) params
]

pub vm_params : VmSpec → Params
unfolding memory_params vcpu_params access_params
vm_params spec =
    merge_kcli_hints spec.provider_hints ("profile" ∷ [])
      (access_params spec.access (vcpu_params spec.vcpu (memory_params spec.memory [])))

-- `none` where the profile may be used
pub profile_problem : Option ProfileCache → String → Option String
profile_problem none profile = none
profile_problem (some cache) profile =
    if cache.has_profile profile then none else elim cache.profiles [
      | [] ↦ none
      | p ∷ ps ↦
          some ("profile '" <> profile <> "' not found; available profiles: " <> join (p ∷ ps))
    ]

-- the user and the address that kweb knows of a VM
unfoldable pub enrich_vm : VmInfo → Vm → Vm
enrich_vm kvm vm = record vm {
  ip = if kvm.ip == "" then vm.ip else some kvm.ip;
  ssh_user = if kvm.user == "" then vm.ssh_user else some kvm.user;
}

pub enrich_from : Dict VmInfo → ResourceEntry → Vm
unfolding enrich_vm
enrich_from kweb_map entry = elim (lookup entry.kcli_name kweb_map) [
  | none ↦ entry_to_vm entry
  | some kvm ↦ enrich_vm kvm (entry_to_vm entry)
]

abbrev pub shown : Option String → String
shown none = ""
shown (some t) = t

module _ {S K : Type 0} (St : StateStore S) (Kw : KwebClient K) where
  -- an entry under the id that the client gave
  unfoldable pub existing : Option String → Server S K → Option ResourceEntry
  existing client_id w = elim (given client_id) [
    | none ↦ none
    | some id ↦ elim (St.get id w.store) [ ok entry ↦ some entry | err _ ↦ none ]
  ]

  existing_vm : String → ResourceEntry → Response Vm
  existing_vm id entry =
      if entry.kind == "vm"
      then resource 201 (entry_to_vm entry)
      else problem_response 409 ("ID '" <> id <> "' already exists as a " <> entry.kind)

  unfoldable pub new_vm_entry : Request → VmSpec → ResourceEntry
  new_vm_entry req spec = record {
    id = resolve_id req.client_id req.uuid_id;
    kcli_name = dcm_prefix <> resolve_vm_name spec req.client_id req.uuid_name;
    kind = "vm";
    status = "PROVISIONING";
    created_at = req.now;
  }

  unfoldable pub created_vm : ResourceEntry → VmSpec → Vm
  created_vm entry spec = record {
    id = some entry.id;
    ip = none;
    path = some ("vms/" <> entry.id);
    spec = spec;
    ssh_user = none;
    status = some "PROVISIONING";
  }

  -- after kweb has created the VM: persist it, or take it back
  pub persist_vm : ResourceEntry → VmSpec → Server S K → Response Vm × Server S K
  unfolding created_vm
  persist_vm entry spec w =
      let (r, store) = St.put entry w.store in
      elim r [
        | ok _ ↦ (
          resource 201 (created_vm entry spec),
          record w { store = store; managed = inc "vm" ∷ w.managed },
        )
        | err _ ↦ (
          problem_response 500 "failed to persist VM state",
          record w { store = store; kweb = (Kw.delete_vm entry.kcli_name w.kweb).1 },
        )
      ]

  pub create_new_vm : Request → VmSpec → Server S K → Response Vm × Server S K
  unfolding vm_params new_vm_entry persist_vm
  create_new_vm req spec w =
      let entry = new_vm_entry req spec in
      let (r, kweb) =
        Kw.create_vm entry.kcli_name (resolve_vm_profile spec) (vm_params spec) w.kweb in
      let w₁ = with_kweb kweb w in
      elim r [
        | err e ↦
            (create_problem ("VM '" <> trim_dcm_prefix entry.kcli_name <> "' already exists") e, w₁)
        | ok _ ↦ persist_vm entry spec w₁
      ]

  pub create_vm : Option ProfileCache → Request → VmSpec → Server S K → Response Vm × Server S K
  unfolding existing existing_vm profile_problem create_new_vm
  create_vm cache req spec w = elim (existing req.client_id w) [
    | some entry ↦ (existing_vm (resolve_id req.client_id "") entry, w)
    | none ↦ elim (profile_problem cache (resolve_vm_profile spec)) [
      | some detail ↦ (problem_response 400 detail, w)
      | none ↦ create_new_vm req spec w
    ]
  ]

  -- the results before they are cut into pages
  unfoldable pub vm_results : List ResourceEntry → List VmInfo → List Vm
  unfolding enrich_from
  vm_results entries kweb_vms = map (enrich_from (vm_map kweb_vms)) (sort_entries entries)

  unfoldable pub vm_page : ListParams → ℕ → List ResourceEntry → List VmInfo → Response (Page Vm)
  unfolding vm_results
  vm_page params start_idx entries kweb_vms =
      let (token, page) =
        paginate (page_size params.max_page_size) start_idx (vm_results entries kweb_vms) in
      resource 200 (record { next_page_token = token; results = page })

  -- only an unreachable kweb fails the list; other errors leave its answer out
  unfoldable pub listed :
      ListParams
      → ℕ
      → List ResourceEntry
      → Result KwebError (Option (List VmInfo))
      → Response (Page Vm)
  unfolding vm_page
  listed params start_idx entries (err unreachable) = problem_response 502 "kweb is unreachable"
  listed params start_idx entries (err _) = vm_page params start_idx entries []
  listed params start_idx entries (ok kweb_vms) =
      vm_page params start_idx entries (slice_of kweb_vms)

  unfoldable pub list_vms : ListParams → Server S K → Response (Page Vm) × Server S K
  unfolding listed
  list_vms params w = elim (start_index params.page_token) [
    | none ↦ (problem_response 400 ("invalid page_token: \"" <> shown params.page_token <> "\""), w)
    | some start_idx ↦
        let (r, kweb) = Kw.list_vms w.kweb in
        elim (St.list "vm" w.store) [
          | err e ↦ (problem_response 500 (store_error_text e), with_kweb kweb w)
          | ok entries ↦ (listed params start_idx entries r, with_kweb kweb w)
        ]
  ]

  not_found_vm : {A : Type 0} → String → StoreError → Response A
  not_found_vm vm_id not_found = problem_response 404 ("VM '" <> vm_id <> "' not found")
  not_found_vm vm_id e = problem_response 500 (store_error_text e)

  unfoldable pub get_vm : String → Server S K → Response Vm × Server S K
  unfolding not_found_vm enrich_vm
  get_vm vm_id w = elim (St.get vm_id w.store) [
    | err e ↦ (not_found_vm vm_id e, w)
    | ok entry ↦
        let (r, kweb) = Kw.get_vm entry.kcli_name w.kweb in
        elim r [
          | err _ ↦ (resource 200 (entry_to_vm entry), with_kweb kweb w)
          | ok kvm ↦ (resource 200 (enrich_vm kvm (entry_to_vm entry)), with_kweb kweb w)
        ]
  ]

  -- after `UpdateStatus(vmID, "DELETING")`
  pub delete_in_kweb : ℕ → String → ResourceEntry → Server S K → Response Vm × Server S K
  delete_in_kweb now vm_id entry w =
      let (r, kweb) = Kw.delete_vm entry.kcli_name w.kweb in
      let w₁ = with_kweb kweb w in
      elim r [
        | err e ↦ (delete_problem e, with_store (St.update_status vm_id entry.status w₁.store).1 w₁)
        | ok _ ↦ (
          no_content,
          record w₁ {
            published =
                vm_event (record {
                  id = vm_id;
                  status = "DELETED";
                  message = "VM " <> entry.kcli_name <> " deleted";
                  timestamp = now;
                })
                ∷ w₁.published;
            store = (St.delete vm_id w₁.store).1;
            managed = dec "vm" ∷ w₁.managed;
          },
        )
      ]

  pub delete_vm : ℕ → String → Server S K → Response Vm × Server S K
  unfolding not_found_vm delete_in_kweb
  delete_vm now vm_id w = elim (St.get vm_id w.store) [
    | err e ↦ (not_found_vm vm_id e, w)
    | ok entry ↦
        if (entry.status == "DELETING") || (entry.status == "DELETED")
        then (no_content, w)
        else delete_in_kweb now vm_id entry
            (with_store (St.update_status vm_id "DELETING" w.store).1 w)
  ]
