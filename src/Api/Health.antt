-- ===== src/Api/Health.antt =====
-- internal/api/server/health_handlers.go: the three health endpoints of the API. An uptime is counted
-- in nanoseconds; its conversion to seconds in a float32 is left out.
use dcm_kcli_provider.Prelude.{ℕ, ◌-◌, String, Bool, Option, none, some, true, false}
use dcm_kcli_provider.Prelude.Result.{Result, ok, err}
use dcm_kcli_provider.Kweb.Api.{KwebError, KwebClient}
use dcm_kcli_provider.Api.Types.{Response, resource}
use dcm_kcli_provider.Api.Server.{kweb_error_text}

pub data HealthStatus : Type 0 where
  healthy unhealthy : HealthStatus

pub record Health : Type 0 where
  pub status : HealthStatus
  pub version : String
  pub uptime : ℕ
  pub message : Option String

-- the fields of `StrictServerImpl` that tell of the process
pub record Process : Type 0 where
  pub version : String
  pub started_at : ℕ

unfoldable pub health_of : Process → ℕ → Result KwebError Bool → Health
unfolding kweb_error_text
health_of p now (err e) = record {
  status = unhealthy;
  version = p.version;
  uptime = now - p.started_at;
  message = some (kweb_error_text e);
}
health_of p now (ok false) = record {
  status = unhealthy;
  version = p.version;
  uptime = now - p.started_at;
  message = some "kweb unreachable";
}
health_of p now (ok true) = record {
  status = healthy;
  version = p.version;
  uptime = now - p.started_at;
  message = none;
}

-- the answer that each of the three handlers makes of it
unfoldable pub health_response : Health → Response Health
health_response h = elim h.status [
  | unhealthy ↦ resource 503 h
  | healthy ↦ resource 200 (record h { message = none })
]

module _ {K : Type 0} (Kw : KwebClient K) (p : Process) (now : ℕ) (k : K) where
  unfoldable pub do_health_check : Health × K
  unfolding health_of
  do_health_check = let (answer, k') = Kw.check_health k in (health_of p now answer, k')

  unfoldable pub get_health : Response Health × K
  unfolding do_health_check health_response
  get_health = let (h, k') = do_health_check in (health_response h, k')

  unfoldable pub get_vm_health : Response Health × K
  unfolding do_health_check health_response
  get_vm_health = let (h, k') = do_health_check in (health_response h, k')

  unfoldable pub get_cluster_health : Response Health × K
  unfolding do_health_check health_response
  get_cluster_health = let (h, k') = do_health_check in (health_response h, k')
