-- ===== src/Assembly/Runs.antt =====
-- Runs of the process, with an SPM that takes every provider.
use dcm_kcli_provider.Prelude.{
  ℕ, zero, suc, ◌+◌, ◌<◌, ◌≡◌, ◌≢◌, ◌↔◌, ◌⊎◌, refl, String, Bool, true, false, not, Option, none,
  some, List, [], ◌∷◌, map, Member, ◌==◌, Bool-cases, eq_iff, inl, inr, ◌<>◌, if◌then◌else◌, arith,
}
use dcm_kcli_provider.Prelude.Result.{Result, ok, err}
use dcm_kcli_provider.Prelude.Dict.{lookup}
use dcm_kcli_provider.Store.Entry.{ResourceEntry}
use dcm_kcli_provider.Kweb.Fixtures.{kweb_up, kweb_down}
use dcm_kcli_provider.Paths.{SpecPath, post_paths}
use dcm_kcli_provider.Paths.Laws.{last_path}
use dcm_kcli_provider.Config.{Config, load}
use dcm_kcli_provider.Registration.{SpmClient, Registrar, new_registrar}
use dcm_kcli_provider.Api.Health.{Process}
use dcm_kcli_provider.Assembly.Endpoints.{readiness_handler, readiness_handler_lem}
use dcm_kcli_provider.Assembly.Probe.{self_probe, own_health}
use dcm_kcli_provider.Assembly.Startup.{Environment, Server, noop, new_server, suffix_of}
use dcm_kcli_provider.Assembly.Startup.Laws.{announced, new_server_announces}
use dcm_kcli_provider.Assembly.Shutdown.{start}
use dcm_kcli_provider.Assembly.Shutdown.Order.{IsGraceful, start-IsGraceful}
use dcm_kcli_provider.Store.{Store}
use dcm_kcli_provider.Store.Fixtures.{dict_bolt}
use dcm_kcli_provider.Store.Runs.{the_store, empty}
use dcm_kcli_provider.Monitor.{Monitor, new_monitor}
use dcm_kcli_provider.Monitor.Loop
use dcm_kcli_provider.Monitor.Loop.{poll_loop}
use dcm_kcli_provider.Monitor.Steps.Polls.{poll_loop-Reach}
use dcm_kcli_provider.Monitor.{profiles_of}
use dcm_kcli_provider.Kweb.Api.{KwebClient}
use dcm_kcli_provider.Api.Vms.{profile_problem}
use dcm_kcli_provider.Assembly.Profiles.{profile_cache, profile_problem-Reach}
use dcm_kcli_provider.Assembly.Interval.{monitor_config, interval_unchecked}
use dcm_kcli_provider.Assembly.Process.{run, exit_status, run_without_kweb}

abbrev spec : List SpecPath
spec =
    record { path = "/health"; post = none }
    ∷ record { path = "/vms"; post = some ("vm" ∷ []) }
    ∷ record { path = "/clusters"; post = some ("cluster" ∷ []) }
    ∷ []

abbrev ready_spm : SpmClient ℕ
ready_spm = record {
  accepts = λ _. none;
  create_provider =
      λ id _ n. (ok (record { status_code = 201; id = some id; title = none }), suc n);
  delete_provider = λ _ n. (ok 204, n);
}

abbrev vm_entry : ResourceEntry
vm_entry = record { id = "7"; kcli_name = "dcm-7"; kind = "vm"; status = "RUNNING"; created_at = 3 }

abbrev host : Environment (List ResourceEntry) ℕ ℕ
host = record {
  open_store = λ _. ok (vm_entry ∷ []);
  list_all = λ s. ok s;
  connect = λ _. err "no servers";
  get_swagger = ok spec;
  spm_client = ready_spm;
  spm = 0;
  vm_uuid = "u-1";
  cluster_uuid = "u-2";
}

abbrev host_env : String → String
host_env key = "9s"

abbrev parse : String → Result String ℕ
parse _ = ok 9_000_000_000

abbrev parsed : String → Result String String
parsed s = ok s

abbrev never : ℕ → Bool
never _ = false

abbrev host_config : Config
host_config = record {
  listen_address = "9s";
  kweb_url = "9s";
  spm_url = "9s";
  nats_url = "9s";
  provider_id_vm = "9s";
  provider_id_cluster = "9s";
  provider_name_vm = "9s";
  provider_name_cluster = "9s";
  schema_version = "9s";
  poll_interval = 9_000_000_000;
  debounce_window = 9_000_000_000;
  state_store_path = "9s";
  log_level = "9s";
  shutdown_timeout = 9_000_000_000;
  read_timeout = 9_000_000_000;
  write_timeout = 9_000_000_000;
  idle_timeout = 9_000_000_000;
  request_timeout = 9_000_000_000;
  kweb_timeout = 9_000_000_000;
  cluster_create_timeout = 9_000_000_000;
}

abbrev process : Process
process = record { version = "0.2.0"; started_at = 0 }

abbrev fresh : String → String → String → Registrar ℕ
fresh display_name service_type path = record {
  spm = 0;
  provider_cfg = record {
    id = "9s";
    name = "9s";
    display_name = display_name;
    endpoint = "http://9s/api/v1alpha1" <> path;
    service_type = service_type;
    schema_version = "9s";
    operations = "create" ∷ "delete" ∷ "get" ∷ "list" ∷ [];
    metadata = ("backend", "libvirt") ∷ ("kweb_url", "9s") ∷ [];
  };
  initial_backoff = 1_000_000_000;
  max_backoff = 60_000_000_000;
  started = false;
  succeeded = false;
  attempts = [];
  status = [];
}

abbrev host_server : Server (List ResourceEntry) ℕ ℕ
host_server = record {
  cfg = host_config;
  store = vm_entry ∷ [];
  publisher = noop;
  registrars =
      fresh "kcli Virtual Machines" "vm" "/vms"
      ∷ fresh "kcli Kubernetes Clusters" "cluster" "/clusters"
      ∷ [];
  seeded = record { vms = 1; clusters = 0 };
}

-- a registrar that `NewRegistrar` makes
abbrev made : String → Registrar ℕ
made name = record {
  spm = 0;
  provider_cfg = record {
    id = name;
    name = name;
    display_name = "";
    endpoint = "";
    service_type = "vm";
    schema_version = "v1alpha1";
    operations = [];
    metadata = [];
  };
  initial_backoff = 1_000_000_000;
  max_backoff = 60_000_000_000;
  started = true;
  succeeded = true;
  attempts = [];
  status = ("a", 1) ∷ [];
}

readiness_handler_lem_example :
    ((readiness_handler kweb_up (made "a" ∷ []) true []).0.code ≡ 200) ↔ (
      ((kweb_up.check_health []).0 ≡ ok true)
      × ((r : Registrar ℕ) → Member r (made "a" ∷ []) → r.succeeded ≡ true)
      × (true ≡ true))
readiness_handler_lem_example = readiness_handler_lem kweb_up (made "a" ∷ []) true []

host_server_made : new_server host host_config ≡ ok host_server
unfolding new_server post_paths dcm_kcli_provider.Prelude.Dict.insert new_registrar lookup
host_server_made = refl

new_server_announces_example :
    map announced host_server.registrars
    ≡ ("vm", "http://" <> "9s" <> "/api/v1alpha1" <> suffix_of (last_path "vm" spec))
      ∷ ("cluster", "http://" <> "9s" <> "/api/v1alpha1" <> suffix_of (last_path "cluster" spec))
      ∷ []
new_server_announces_example =
    new_server_announces host host_config host_server spec refl host_server_made

start-IsGraceful_example :
    IsGraceful parsed host_server.registrars
      (start parsed ready_spm (ok tt) true 1 never 3 true true host_server.registrars)
unfolding dcm_kcli_provider.Assembly.Shutdown.registration_panics dcm_kcli_provider.Registration.run
    dcm_kcli_provider.Registration.register
start-IsGraceful_example =
    start-IsGraceful parsed ready_spm 1 never 3 true true host_server.registrars refl refl

run_without_kweb_example :
    let probed = (self_probe never (own_health kweb_down process (λ _. 9)) (0, [])).0 in
    exit_status (run host_env parse host parsed (ok tt) probed never 3 true true) ≡ some 1
run_without_kweb_example =
    run_without_kweb host_env parse host parsed kweb_down process (λ _. 9) never [] (ok tt) never 3
      true true (λ k e. ground arith)

abbrev zero_env : String → String
zero_env key = if key == "POLL_INTERVAL" then "0s" else "9s"

abbrev zero_parse : String → Result String ℕ
zero_parse raw = if raw == "0s" then ok 0 else ok 9_000_000_000

abbrev zero_times : String → ℕ
zero_times key = if key == "POLL_INTERVAL" then 0 else 9_000_000_000

abbrev fresh_monitor : Monitor (Store dict_bolt) (List String)
fresh_monitor = new_monitor (λ n. n) empty [] []

interval_unchecked_example :
    (cfg : Config) × (load zero_env zero_parse ≡ ok cfg)
    × (cfg.poll_interval ≡ 0)
    × (Loop.run the_store kweb_up (monitor_config cfg) 5 [] fresh_monitor ≡ none)
interval_unchecked_example =
    interval_unchecked the_store kweb_up zero_env zero_parse zero_times 5 [] fresh_monitor
      (λ e. ground (arith, eq_iff "9s" "")) (λ e. ground (arith, eq_iff "9s" ""))
      (λ key fallback m. elim (Bool-cases (key == "POLL_INTERVAL")) [
        | inl e ↦ rw e refl
        | inr e ↦ rw e refl
      ])
      refl

-- A monitor of a kweb with the profiles "fedora41" and "ubuntu".
abbrev kweb_profiles : KwebClient (List String)
kweb_profiles = record kweb_up { list_profiles = λ k. (ok ("fedora41" ∷ "ubuntu" ∷ []), k) }

abbrev polled_monitor : Monitor (Store dict_bolt) (List String)
polled_monitor =
    poll_loop the_store kweb_profiles (monitor_config host_config) (5 ∷ []) fresh_monitor

profile_problem-Reach_example :
    (profile_problem (some (profile_cache polled_monitor)) "debian" ≡ none)
    ↔ (Member "debian" (profiles_of polled_monitor) ⊎ (profiles_of polled_monitor ≡ []))
profile_problem-Reach_example =
    profile_problem-Reach the_store kweb_profiles (monitor_config host_config) (λ n. n) empty [] []
      "debian"
      (poll_loop-Reach the_store kweb_profiles (monitor_config host_config) (5 ∷ []) fresh_monitor)
