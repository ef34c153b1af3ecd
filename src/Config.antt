-- ===== src/Config.antt =====
-- internal/config/config.go: the configuration from environment variables. The environment is a
-- function, "" for a variable that is not set, as os.Getenv has it, and time.ParseDuration is a
-- parameter.
pub mod Loading
pub mod Runs
use dcm_kcli_provider.Prelude.{ℕ, String, ◌==◌, if◌then◌else◌}
use dcm_kcli_provider.Prelude.Result.{Result, ok, err, ◌>>=◌}

-- A duration is the 64-bit pattern of its nanoseconds.
pub record Config : Type 0 where
  pub listen_address : String
  pub kweb_url : String
  pub spm_url : String
  pub nats_url : String
  pub provider_id_vm : String
  pub provider_id_cluster : String
  pub provider_name_vm : String
  pub provider_name_cluster : String
  pub schema_version : String
  pub poll_interval : ℕ
  pub debounce_window : ℕ
  pub state_store_path : String
  pub log_level : String
  pub shutdown_timeout : ℕ
  pub read_timeout : ℕ
  pub write_timeout : ℕ
  pub idle_timeout : ℕ
  pub request_timeout : ℕ
  pub kweb_timeout : ℕ
  pub cluster_create_timeout : ℕ

-- The errors of `Load`: "... is required", and "invalid duration for ...: ...: ...".
pub data ConfigError : Type 0 where
  required : String → ConfigError
  invalid_duration : String → String → String → ConfigError

module _ (env : String → String) where
  abbrev pub env_or_default : String → String → String
  env_or_default key fallback = if env key == "" then fallback else env key

  -- the tests of `Load` on the two variables that it requires
  unfoldable pub required_env : String → Result ConfigError String
  required_env key = if env key == "" then err (required key) else ok (env key)

  module _ (parse : String → Result String ℕ) where
    unfoldable pub parse_duration : String → String → Result ConfigError ℕ
    parse_duration key fallback =
        let raw = env_or_default key fallback in
        elim (parse raw) [ err m ↦ err (invalid_duration key raw m) | ok d ↦ ok d ]

    unfoldable pub load : Result ConfigError Config
    load = do
      kweb_url ← required_env "KWEB_URL"
      spm_url ← required_env "SPM_URL"
      poll_interval ← parse_duration "POLL_INTERVAL" "30s"
      debounce_window ← parse_duration "DEBOUNCE_WINDOW" "5s"
      shutdown_timeout ← parse_duration "SHUTDOWN_TIMEOUT" "10s"
      read_timeout ← parse_duration "READ_TIMEOUT" "15s"
      write_timeout ← parse_duration "WRITE_TIMEOUT" "60s"
      idle_timeout ← parse_duration "IDLE_TIMEOUT" "60s"
      request_timeout ← parse_duration "REQUEST_TIMEOUT" "45s"
      kweb_timeout ← parse_duration "KWEB_TIMEOUT" "120s"
      cluster_create_timeout ← parse_duration "CLUSTER_CREATE_TIMEOUT" "30m"
      ok (record {
        listen_address = env_or_default "LISTEN_ADDRESS" ":8080";
        kweb_url = kweb_url;
        spm_url = spm_url;
        nats_url = env "NATS_URL";
        provider_id_vm = env_or_default "PROVIDER_ID_VM" "";
        provider_id_cluster = env_or_default "PROVIDER_ID_CLUSTER" "";
        provider_name_vm = env_or_default "PROVIDER_NAME_VM" "kcli-vm";
        provider_name_cluster = env_or_default "PROVIDER_NAME_CLUSTER" "kcli-cluster";
        schema_version = env_or_default "SCHEMA_VERSION" "v1alpha1";
        poll_interval = poll_interval;
        debounce_window = debounce_window;
        state_store_path = env_or_default "STATE_STORE_PATH" "/data/state.db";
        log_level = env_or_default "LOG_LEVEL" "info";
        shutdown_timeout = shutdown_timeout;
        read_timeout = read_timeout;
        write_timeout = write_timeout;
        idle_timeout = idle_timeout;
        request_timeout = request_timeout;
        kweb_timeout = kweb_timeout;
        cluster_create_timeout = cluster_create_timeout;
      })
