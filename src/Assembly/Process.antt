-- ===== src/Assembly/Process.antt =====
-- `run` of cmd/dcm-kcli-provider/server.go and `main` of cmd/dcm-kcli-provider/main.go: the
-- configuration, the server and its start, one after the other, down to the exit status.
use dcm_kcli_provider.Prelude.{
  ℕ, ◌≡◌, ◌≢◌, refl, String, Bool, true, Option, none, some, ◌==◌, arith, false, List,
  if◌then◌else◌,
}
use dcm_kcli_provider.Prelude.Result.{Result, ok, err}
use dcm_kcli_provider.Kweb.Api.{KwebClient}
use dcm_kcli_provider.Text.{is_positive}
use dcm_kcli_provider.Registration.{Registrar}
use dcm_kcli_provider.Config.{Config, ConfigError, load}
use dcm_kcli_provider.Api.Health.{Process}
use dcm_kcli_provider.Assembly.Probe.{self_probe, own_health, self_probe_needs_kweb}
use dcm_kcli_provider.Assembly.Startup.{Environment, Failure, Server, new_server}
use dcm_kcli_provider.Assembly.Shutdown.Order.{IsGraceful, start-IsGraceful}
use dcm_kcli_provider.Assembly.Shutdown.{
  Outcome, listening_failed, probe_failed, hangs, crashed, served, registration_panics, start,
}

-- `slog.Level`
pub data Level : Type 0 where
  level_debug level_info level_warn level_error : Level

unfoldable pub level_of : String → Level
level_of log_level =
    if log_level == "debug"
    then level_debug
    else if log_level == "warn"
    then level_warn
    else if log_level == "error"
    then level_error
    else level_info

-- What `run` comes to.
pub data Ending (W : Type 0) : Type 0 where
  config_failed : ConfigError → Ending W
  server_failed : Failure → Ending W
  started : Level → Outcome W → Ending W

-- The exit status, `none` for a process that does not end.
unfoldable pub exit_status : {W : Type 0} → Ending W → Option ℕ
exit_status (config_failed _) = some 1
exit_status (server_failed _) = some 1
exit_status (started _ (listening_failed _)) = some 1
exit_status (started _ probe_failed) = some 1
exit_status (started _ hangs) = none
exit_status (started _ crashed) = some 2
exit_status (started _ (served _ _)) = some 0

module _ {S N W : Type 0} (env : String → String) (parse : String → Result String ℕ)
    (E : Environment S N W) (uuid_parse : String → Result String String) where
  unfoldable pub run : Result String (Unit {0}) → Bool → (ℕ → Bool) → ℕ → Bool → Bool → Ending W
  unfolding level_of
  run listening probed done fuel http_ok in_time = elim (load env parse) [
    | err e ↦ config_failed e
    | ok cfg ↦ elim (new_server E cfg) [
      | err f ↦ server_failed f
      | ok s ↦ started (level_of cfg.log_level) (
          start uuid_parse E.spm_client listening probed cfg.poll_interval done fuel http_ok in_time
            s.registrars)
    ]
  ]

  -- Where kweb's health check never says healthy, the process exits with status 1 whatever else
  -- holds: its self-probe asks its own /health, which answers 503 then.
  pub run_without_kweb :
      {K : Type 0} (Kw : KwebClient K) (process : Process) (clock : ℕ → ℕ) (ctx_done : ℕ → Bool)
      (k : K) (listening : Result String (Unit {0})) (done : ℕ → Bool) (fuel : ℕ)
      (http_ok in_time : Bool)
      → ((k' : K) → (Kw.check_health k').0 ≢ ok true)
      → let probed = (self_probe ctx_done (own_health Kw process clock) (0, k)).0 in
        exit_status (run listening probed done fuel http_ok in_time) ≡ some 1
  unfolding run exit_status start
  run_without_kweb Kw process clock ctx_done k listening done fuel http_ok in_time down =
      ground (arith, self_probe_needs_kweb Kw process clock ctx_done (0, k) down)

  graceful_exit :
      (l : Level) (o : Outcome W) (rs : List (Registrar W))
      → IsGraceful uuid_parse rs o
      → exit_status (started l o) ≡ some 0
  unfolding exit_status IsGraceful
  graceful_exit l (listening_failed m) rs g = absurd g
  graceful_exit l probe_failed rs g = absurd g
  graceful_exit l hangs rs g = absurd g
  graceful_exit l crashed rs g = absurd g
  graceful_exit l (served steps rs') rs g = refl

  pub run_exits :
      (cfg : Config) (s : Server S N W) (done : ℕ → Bool) (fuel : ℕ) (http_ok in_time : Bool)
      → load env parse ≡ ok cfg
      → new_server E cfg ≡ ok s
      → is_positive cfg.poll_interval ≡ true
      → registration_panics uuid_parse E.spm_client done fuel s.registrars ≡ false
      → exit_status (run (ok tt) true done fuel http_ok in_time) ≡ some 0
  unfolding run
  run_exits cfg s done fuel http_ok in_time loaded made ticks calm =
      let o =
        start uuid_parse E.spm_client (ok tt) true cfg.poll_interval done fuel http_ok in_time
          s.registrars in
      let graceful =
        start-IsGraceful uuid_parse E.spm_client cfg.poll_interval done fuel http_ok in_time
          s.registrars ticks calm in
      ground (arith, loaded, made, graceful_exit (level_of cfg.log_level) o s.registrars graceful)
