-- ===== src/Assembly/Shutdown.antt =====
-- `Start` and `shutdown` of cmd/dcm-kcli-provider/server.go, as the steps that they take in order. How
-- the HTTP server shuts down and whether the monitor ends within the timeout are parameters. The
-- registrars that a shutdown stops have retried up to then, by the parameters of Registration. The
-- listing of kweb's profiles, which Start only logs, and the goroutine that tells the readiness of
-- the first poll are left out.
pub mod Order
pub mod Gauge
use dcm_kcli_provider.Prelude.{
  ℕ, zero, suc, String, Bool, true, false, not, ◌&&◌, ◌||◌, Option, none, some, List, [], ◌∷◌, ◌++◌,
  map, if◌then◌else◌,
}
use dcm_kcli_provider.Text.{is_positive}
use dcm_kcli_provider.Prelude.Result.{Result, ok, err}
use dcm_kcli_provider.Registration.{
  SpmClient, Registrar, Ended, registered, failed, panicked, still_trying, returned, cancelled, run,
  start_background, stop, deregister,
}

pub data Step : Type 0 where
  http_shut_down http_shutdown_failed : Step
  monitor_cancelled monitor_ended wait_timed_out : Step
  registrar_stopped deregistration_sent : String → Step
  publisher_closed store_closed : Step

-- How `Start` ends; `crashed` is a panic in one of the goroutines that it starts, which ends the process.
pub data Outcome (W : Type 0) : Type 0 where
  listening_failed : String → Outcome W
  probe_failed : Outcome W
  hangs : Outcome W
  crashed : Outcome W
  served : List Step → List (Registrar W) → Outcome W

abbrev has_panicked : Ended → Bool
has_panicked still_trying = false
has_panicked (returned registered) = false
has_panicked (returned (failed _)) = false
has_panicked (returned panicked) = true
has_panicked cancelled = false

module _ {W : Type 0} (uuid_parse : String → Result String String) (spm : SpmClient W) where
  -- for _, reg := range s.registrars { reg.Stop() }
  unfoldable pub stop_all : List (Registrar W) → Option (List Step)
  stop_all [] = some []
  stop_all (r ∷ rs) =
      let rest = stop_all rs in
      elim (stop uuid_parse spm r) [
        | none ↦ none
        | some r' ↦ elim rest [
          | none ↦ none
          | some steps ↦ some (registrar_stopped r'.provider_cfg.name ∷ steps)
        ]
      ]

  -- for _, reg := range s.registrars { reg.Deregister(deregCtx) }: a call is sent for an id that parses
  unfoldable pub deregistrations : List (Registrar W) → List Step
  deregistrations [] = []
  deregistrations (r ∷ rs) =
      let rest = deregistrations rs in
      elim (uuid_parse r.provider_cfg.id) [
        | err _ ↦ rest
        | ok _ ↦ deregistration_sent r.provider_cfg.name ∷ rest
      ]

  unfoldable pub shutdown : Bool → Bool → List (Registrar W) → Outcome W
  unfolding stop_all deregistrations
  shutdown http_ok in_time registrars = elim (stop_all registrars) [
    | none ↦ hangs
    | some stopped ↦
        served
          ((if http_ok then http_shut_down else http_shutdown_failed)
            ∷ monitor_cancelled
            ∷ (if in_time then monitor_ended else wait_timed_out)
            ∷ (stopped ++ (deregistrations registrars ++ (publisher_closed ∷ store_closed ∷ []))))
          (map (deregister uuid_parse spm) registrars)
  ]

  -- `register` panics in the goroutine of a registrar that is started
  unfoldable pub registration_panics : (ℕ → Bool) → ℕ → List (Registrar W) → Bool
  registration_panics done fuel [] = false
  registration_panics done fuel (r ∷ rs) =
      let rest = registration_panics done fuel rs in
      (not r.started
        && has_panicked (run uuid_parse spm done fuel (record r { started = true })).ended)
      || rest

  -- `listening` is the result of net.Listen, `probed` that of the self-probe; time.NewTicker in the
  -- goroutine of the monitor panics on a poll interval that is not positive.
  unfoldable pub start :
      Result String (Unit {0})
      → Bool
      → ℕ
      → (ℕ → Bool)
      → ℕ
      → Bool
      → Bool
      → List (Registrar W)
      → Outcome W
  unfolding shutdown registration_panics
  start listening probed poll_interval done fuel http_ok in_time registrars = elim listening [
    | err m ↦ listening_failed m
    | ok _ ↦
        if not probed
        then probe_failed
        else if not (is_positive poll_interval) || registration_panics done fuel registrars
        then crashed
        else shutdown http_ok in_time (map (start_background uuid_parse spm done fuel) registrars)
  ]
