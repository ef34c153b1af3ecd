-- ===== src/Api/Vms/Runs.antt =====
-- Runs of the VM handlers, on the store and the kwebs of the fixtures.
use dcm_kcli_provider.Prelude.{
  ℕ, suc, false, String, ◌≡◌, refl, none, some, List, [], ◌∷◌, ◌==◌, ◌<>◌, if◌then◌else◌,
}
use dcm_kcli_provider.Prelude.Result.{ok, err}
use dcm_kcli_provider.Metrics.{inc, dec}
use dcm_kcli_provider.Store.Entry.{ResourceEntry, db_error, not_found}
use dcm_kcli_provider.Store.Fixtures.{
  dict_bolt, web, provisioning_text, running_text, deleting_text, unmarshal,
}
use dcm_kcli_provider.Store.{Store, bolt_store, get}
use dcm_kcli_provider.Store.Runs.{
  the_store, the_laws, holding, failing, empty, put_new, put_fails, get_running, mark_deleting,
  mark_running, delete_marked, delete_fails, mark_deleting_full, filling, get_running_full,
}
use dcm_kcli_provider.Kweb.Api.{unreachable}
use dcm_kcli_provider.Kweb.Fixtures.{kweb_up, kweb_down, vm_info}
use dcm_kcli_provider.Api.Types.{VmSpec, resource, no_content, problem_response, http_status}
use dcm_kcli_provider.Api.Helpers.{resolve_id, resolve_vm_profile, resolve_vm_name, entry_to_vm}
use dcm_kcli_provider.Api.Server.{Server, Request}
use dcm_kcli_provider.Api.Vms.{
  existing, profile_problem, new_vm_entry, created_vm, create_vm, delete_vm, get_vm,
}
use dcm_kcli_provider.Api.Vms.Create.{
  IsAdmitted, create_vm_ok, create_vm_rolled_back, create_vm_again,
}
use dcm_kcli_provider.Api.Vms.Delete.{
  deleted_event, delete_vm_ok, delete_vm_refused, delete_vm_stranded,
}
use dcm_kcli_provider.Kweb.Client.{Network, Codec, Client}
use dcm_kcli_provider.Prelude.Dict.{Dict, lookup}
use dcm_kcli_provider.Store.Memory.{memory_store, memory_store-StateStoreLaws}
use dcm_kcli_provider.Api.Vms.Race.{handled, create_vm_around, create_vm_twice}

abbrev pub spec : VmSpec
spec = record {
  access = none;
  guest_os = none;
  memory = none;
  metadata = some (record { name = "web" });
  provider_hints = none;
  service_type = "vm";
  additional_properties = [];
  vcpu = none;
}

abbrev other_spec : VmSpec
other_spec = record spec { metadata = some (record { name = "db" }) }

abbrev pub request : Request
request = record {
  now = 1000;
  uuid_name = "11111111-aaaa";
  uuid_id = "22222222-bbbb";
  client_id = some "vm-1";
}

abbrev later_request : Request
later_request = record request { now = 5000 }

abbrev pub server_on : Store dict_bolt → Server (Store dict_bolt) (List String)
server_on s = record { store = s; kweb = []; published = []; managed = []; kc_cache = [] }

pub empty-IsAdmitted : IsAdmitted the_store kweb_up none request spec (server_on empty)
unfolding existing get bolt_store lookup profile_problem resolve_vm_profile unmarshal
empty-IsAdmitted = record { fresh = refl; profile = refl }

failing-IsAdmitted : IsAdmitted the_store kweb_up none request spec (server_on (failing empty))
unfolding existing get bolt_store lookup profile_problem resolve_vm_profile unmarshal
failing-IsAdmitted = record { fresh = refl; profile = refl }

create_vm_ok_example :
    let (r, w') = create_vm the_store kweb_up none request spec (server_on empty) in
    (r
      ≡ resource 201 (record {
        id = some "vm-1";
        ip = none;
        path = some ("vms/" <> "vm-1");
        spec = spec;
        ssh_user = none;
        status = some "PROVISIONING";
      }))
    × (w'.kweb ≡ "dcm-web" ∷ [])
    × (w'.managed ≡ inc "vm" ∷ [])
    × (w'.published ≡ [])
    × (the_store.get "vm-1" w'.store
        ≡ (if "vm-1" == "vm-1" then ok (web "PROVISIONING") else the_store.get "vm-1" empty))
    × ((get_vm the_store kweb_up "vm-1" w').0
        ≡ resource 200 (record (entry_to_vm (web "PROVISIONING")) {
          id = some "vm-1";
          ip = some "10.0.0.7";
          path = some ("vms/" <> "vm-1");
          ssh_user = some "fedora";
          status = some "PROVISIONING";
        }))
unfolding new_vm_entry resolve_id resolve_vm_name
create_vm_ok_example =
    create_vm_ok the_store kweb_up none request spec (server_on empty) (holding provisioning_text)
      "vm-1" (vm_info "dcm-web") the_laws empty-IsAdmitted refl put_new refl

create_vm_rolled_back_example :
    let (r, w') = create_vm the_store kweb_up none request spec (server_on (failing empty)) in
    (r ≡ problem_response 500 "failed to persist VM state")
    × (w'.kweb ≡ "dcm-web" ∷ [])
    × (w'.managed ≡ [])
    × (the_store.get "vm-1" w'.store ≡ the_store.get "vm-1" (failing empty))
unfolding new_vm_entry resolve_id resolve_vm_name
create_vm_rolled_back_example =
    create_vm_rolled_back the_store kweb_up none request spec (server_on (failing empty)) empty
      (db_error "no space left") "vm-1" the_laws failing-IsAdmitted refl put_fails

create_vm_again_example :
    let (_, w') = create_vm the_store kweb_up none request spec (server_on empty) in
    create_vm the_store kweb_up none later_request other_spec w'
    ≡ (resource 201 (entry_to_vm (web "PROVISIONING")), w')
unfolding new_vm_entry resolve_id resolve_vm_name
create_vm_again_example =
    create_vm_again the_store kweb_up none request later_request spec other_spec (server_on empty)
      "vm-1" (holding provisioning_text) the_laws empty-IsAdmitted refl put_new refl refl

delete_vm_ok_example :
    let (r, w') = delete_vm the_store kweb_up 9 "vm-1" (server_on (holding running_text)) in
    (r ≡ no_content)
    × (w'.managed ≡ dec "vm" ∷ [])
    × (w'.published ≡ deleted_event 9 "vm-1" (web "RUNNING") ∷ [])
    × ((get_vm the_store kweb_up "vm-1" w').0
        ≡ problem_response 404 ("VM '" <> "vm-1" <> "' not found"))
    × (the_store.get "cl-1" w'.store
        ≡ (if "vm-1" == "cl-1" then err not_found else the_store.get "cl-1" (holding running_text)))
delete_vm_ok_example =
    delete_vm_ok the_store kweb_up 9 "vm-1" (web "RUNNING") (server_on (holding running_text))
      (holding deleting_text) empty "cl-1" the_laws get_running refl refl mark_deleting
      delete_marked

delete_vm_refused_example :
    let (r, w') = delete_vm the_store kweb_down 9 "vm-1" (server_on (holding running_text)) in
    (w'.managed ≡ [])
    × (w'.published ≡ [])
    × (the_store.get "vm-1" w'.store ≡ the_store.get "vm-1" (holding running_text))
    × (http_status r ≡ 502)
delete_vm_refused_example =
    delete_vm_refused the_store kweb_down 9 "vm-1" (web "RUNNING")
      (server_on (holding running_text)) unreachable (holding deleting_text) (holding running_text)
      "vm-1" the_laws get_running refl refl mark_deleting mark_running

delete_vm_stranded_example :
    let (r, w') =
      delete_vm the_store kweb_up 9 "vm-1" (server_on (filling (holding running_text))) in
    (r ≡ no_content)
    × (w'.managed ≡ dec "vm" ∷ [])
    × (the_store.get "vm-1" w'.store ≡ ok (web "DELETING"))
    × (delete_vm the_store kweb_up 10 "vm-1" w' ≡ (no_content, w'))
delete_vm_stranded_example =
    delete_vm_stranded the_store kweb_up 9 "vm-1" (web "RUNNING")
      (server_on (filling (holding running_text))) (db_error "no space left") 10
      (failing (holding deleting_text)) (holding deleting_text) the_laws get_running_full refl refl
      mark_deleting_full delete_fails

abbrev fresh : Server (Dict ResourceEntry) (List String)
fresh = record { store = []; kweb = []; published = []; managed = []; kc_cache = [] }

fresh-IsAdmitted : IsAdmitted memory_store kweb_up none request spec fresh
unfolding existing lookup profile_problem
fresh-IsAdmitted = record { fresh = refl; profile = refl }

other-IsAdmitted : IsAdmitted memory_store kweb_up none later_request other_spec fresh
unfolding existing lookup profile_problem
other-IsAdmitted = record { fresh = refl; profile = refl }

-- A later request for "db" with the same id is handled between the checks and the call of kweb.
create_vm_twice_example :
    let e = new_vm_entry memory_store kweb_up request spec in
    let e' = new_vm_entry memory_store kweb_up later_request other_spec in
    let (r, w') =
      create_vm_around memory_store kweb_up
        (handled memory_store kweb_up none later_request other_spec)
        none
        request
        spec
        fresh in
    (r ≡ resource 201 (created_vm memory_store kweb_up e spec))
    × ((create_vm memory_store kweb_up none later_request other_spec fresh).0
        ≡ resource 201 (created_vm memory_store kweb_up e' other_spec))
    × (e.id ≡ e'.id)
    × (w'.managed ≡ inc "vm" ∷ inc "vm" ∷ [])
    × (memory_store.get "vm-1" w'.store
        ≡ (if e.id == "vm-1" then ok e else memory_store.get "vm-1" []))
create_vm_twice_example =
    create_vm_twice memory_store kweb_up none request later_request spec other_spec fresh "vm-1" _ _
      "vm-1" memory_store-StateStoreLaws refl refl fresh-IsAdmitted other-IsAdmitted refl refl refl
      refl

-- A kweb that answers every request with 409 and a text that is no JSON.
abbrev busy_network : Network ℕ
busy_network = record {
  request = λ _. none;
  wait = λ n. (none, n);
  exchange = λ _ _ _ n. (some (409, ok "busy"), suc n);
}

-- A codec that writes every body as "{}" and reads none.
abbrev writing : Codec
writing = record {
  marshal = λ _. ok "{}";
  structured = λ _. none;
  vm_list = λ _. err "invalid";
  vm = λ _. err "invalid";
  profile_names = λ _. err "invalid";
  kubes = λ _. err "invalid";
  kube_info = λ _. none;
  raw_fields = λ _. err "invalid";
  version = λ _. none;
  nodes = λ _. none;
  escape = λ s. s;
}

abbrev client : Client ℕ
client = record {
  net = 0;
  requests = [];
  health_cached = false;
  health = ok false;
  health_checked = 0;
}

abbrev client_server : Server (Dict ResourceEntry) (Client ℕ)
client_server = record { store = []; kweb = client; published = []; managed = []; kc_cache = [] }
