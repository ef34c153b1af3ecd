-- ===== src/Config/Runs.antt =====
-- A load from an environment that gives the two required variables and a poll interval.
use dcm_kcli_provider.Prelude.{ℕ, String, ◌==◌, refl, if◌then◌else◌}
use dcm_kcli_provider.Prelude.Result.{Result, ok, err}
use dcm_kcli_provider.Config.{Config, ConfigError, invalid_duration, required, load}
use dcm_kcli_provider.Config.Loading.{IsLoaded, load-IsLoaded}

abbrev plain_env : String → String
plain_env key =
    if key == "KWEB_URL"
    then "http://kweb:9000"
    else if key == "SPM_URL"
    then "http://spm:8080"
    else if key == "POLL_INTERVAL"
    then "1m"
    else if key == "KWEB_TIMEOUT"
    then "soon"
    else ""

abbrev lenient : String → Result String ℕ
lenient raw = if raw == "1m" then ok 60_000_000_000 else ok 5_000_000_000

abbrev strict : String → Result String ℕ
strict raw = if raw == "soon" then err "time: invalid duration" else ok 5_000_000_000

abbrev plain_config : Config
plain_config = record {
  listen_address = ":8080";
  kweb_url = "http://kweb:9000";
  spm_url = "http://spm:8080";
  nats_url = "";
  provider_id_vm = "";
  provider_id_cluster = "";
  provider_name_vm = "kcli-vm";
  provider_name_cluster = "kcli-cluster";
  schema_version = "v1alpha1";
  poll_interval = 60_000_000_000;
  debounce_window = 5_000_000_000;
  state_store_path = "/data/state.db";
  log_level = "info";
  shutdown_timeout = 5_000_000_000;
  read_timeout = 5_000_000_000;
  write_timeout = 5_000_000_000;
  idle_timeout = 5_000_000_000;
  request_timeout = 5_000_000_000;
  kweb_timeout = 5_000_000_000;
  cluster_create_timeout = 5_000_000_000;
}

load-IsLoaded_example : IsLoaded plain_env lenient plain_config
unfolding load dcm_kcli_provider.Config.required_env dcm_kcli_provider.Config.parse_duration
load-IsLoaded_example = load-IsLoaded plain_env lenient plain_config refl
