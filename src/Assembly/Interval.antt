-- ===== src/Assembly/Interval.antt =====
-- The poll interval from the environment to the monitor: `Load` of internal/config/config.go, the
-- monitor's configuration in cmd/dcm-kcli-provider/server.go, and `Run` of internal/monitor/monitor.go.
use dcm_kcli_provider.Prelude.{ℕ, String, ◌≡◌, ◌≢◌, false, none, List, arith, refl, Member}
use dcm_kcli_provider.Prelude.Result.{Result, ok}
use dcm_kcli_provider.Text.{is_positive}
use dcm_kcli_provider.Store.Entry.{StateStore}
use dcm_kcli_provider.Kweb.Api.{KwebClient}
use dcm_kcli_provider.Config
use dcm_kcli_provider.Config.{env_or_default, load}
use dcm_kcli_provider.Config.Loading.{durations, config_of, load_given}
use dcm_kcli_provider.Monitor.{Config, Monitor}
use dcm_kcli_provider.Monitor.Loop.{run}

-- the configuration that `NewServer` gives the monitor
abbrev pub monitor_config : Config.Config → Config
monitor_config cfg = record {
  poll_interval = cfg.poll_interval;
  debounce_window = cfg.debounce_window;
  cluster_create_timeout = cfg.cluster_create_timeout;
}

-- Where the environment has the two required URLs, every duration's variable or its default parses,
-- and the poll interval's parses to a duration that is not positive, a configuration is loaded all
-- the same, with that interval, and the monitor that is given it panics when it makes its ticker.
pub interval_unchecked :
    {S K : Type 0} (St : StateStore S) (Kw : KwebClient K) (env : String → String)
    (parse : String → Result String ℕ) (times : String → ℕ) (now : ℕ) (ticks : List ℕ)
    (m : Monitor S K)
    → env "KWEB_URL" ≢ ""
    → env "SPM_URL" ≢ ""
    → ((key fallback : String)
        → Member (key, fallback) durations
        → parse (env_or_default env key fallback) ≡ ok (times key))
    → is_positive (times "POLL_INTERVAL") ≡ false
    → (cfg : Config.Config) × (load env parse ≡ ok cfg)
      × (cfg.poll_interval ≡ times "POLL_INTERVAL")
      × (run St Kw (monitor_config cfg) now ticks m ≡ none)
unfolding run
interval_unchecked St Kw env parse times now ticks m kweb spm given zero = (
  config_of env parse times,
  load_given env parse times kweb spm given,
  refl,
  ground (arith, zero),
)
