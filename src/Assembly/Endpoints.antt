-- ===== src/Assembly/Endpoints.antt =====
-- The endpoints /health and /ready of cmd/dcm-kcli-provider/server.go, and that all health endpoints
-- give the same answer.
use dcm_kcli_provider.Prelude.{
  ℕ, ◌-◌, String, Bool, true, false, ◌&&◌, ◌≡◌, ◌↔◌, refl, inl, inr, ap, List, [], ◌∷◌, Member,
  if◌then◌else◌, arith,
}
use dcm_kcli_provider.Prelude.Result.{Result, ok, err}
use dcm_kcli_provider.Kweb.Api.{KwebError, KwebClient}
use dcm_kcli_provider.Api.Types.{http_status}
use dcm_kcli_provider.Api.Server.{kweb_error_text}
use dcm_kcli_provider.Api.Health.{Process, get_health, get_vm_health, get_cluster_health}
use dcm_kcli_provider.Registration.{Registrar}

-- A response of one of the two handlers: its status and the value that is encoded.
pub record Answer (A : Type 0) : Type 0 where
  pub code : ℕ
  pub payload : A

-- `healthResp`, whose status is a text and whose empty message is left out of the JSON
pub record RootHealth : Type 0 where
  pub status : String
  pub version : String
  pub uptime : ℕ
  pub message : String

pub record Ready : Type 0 where
  pub ready : Bool
  pub kweb : Bool
  pub registered : Bool
  pub polled : Bool

unfoldable pub root_health_of : Process → ℕ → Result KwebError Bool → Answer RootHealth
unfolding kweb_error_text
root_health_of p now answer =
    let uptime = now - p.started_at in
    elim answer [
      | err e ↦ record {
        code = 503;
        payload = record {
          status = "unhealthy";
          version = p.version;
          uptime = uptime;
          message = kweb_error_text e;
        };
      }
      | ok is_healthy ↦
          if is_healthy
          then record {
            code = 200;
            payload = record {
              status = "healthy";
              version = p.version;
              uptime = uptime;
              message = "";
            };
          }
          else record {
            code = 503;
            payload = record {
              status = "unhealthy";
              version = p.version;
              uptime = uptime;
              message = "kweb unreachable";
            };
          }
    ]

-- for _, reg := range s.registrars { if !reg.Registered() { registered = false; break } }
unfoldable pub all_registered : {W : Type 0} → List (Registrar W) → Bool
all_registered [] = true
all_registered (r ∷ rs) = if r.succeeded then all_registered rs else false

abbrev pub is_healthy : Result KwebError Bool → Bool
is_healthy (ok h) = h
is_healthy (err _) = false

-- The status that a health check calls for.
abbrev pub health_code : Result KwebError Bool → ℕ
health_code answer = if is_healthy answer then 200 else 503

module _ {K : Type 0} (Kw : KwebClient K) where
  unfoldable pub root_health_handler : Process → ℕ → K → Answer RootHealth × K
  unfolding root_health_of
  root_health_handler p now k =
      let (answer, k') = Kw.check_health k in (root_health_of p now answer, k')

  -- `poll_complete` says that the channel of that name is closed.
  unfoldable pub readiness_handler : {W : Type 0} → List (Registrar W) → Bool → K → Answer Ready × K
  unfolding all_registered
  readiness_handler registrars poll_complete k =
      let (answer, k') = Kw.check_health k in
      let kweb_ok = is_healthy answer in
      let registered = all_registered registrars in
      let ready = kweb_ok && registered && poll_complete in
      (
        record {
          code = if ready then 200 else 503;
          payload = record {
            ready = ready;
            kweb = kweb_ok;
            registered = registered;
            polled = poll_complete;
          };
        },
        k',
      )

  all_registered_iff :
      {W : Type 0} (rs : List (Registrar W))
      → (all_registered rs ≡ true) ↔ ((r : Registrar W) → Member r rs → r.succeeded ≡ true)
  unfolding all_registered
  all_registered_iff [] = (λ h r m. absurd m, λ h. refl)
  all_registered_iff (r ∷ rs) =
      let (to, from) = all_registered_iff rs in
      (
        λ h r' m. elim m [
          | inl e ↦ ground (arith, ap Registrar.succeeded e)
          | inr m' ↦ to (ground arith) r' m'
        ],
        λ h. rw (h r (inl refl)) (from (λ r' m. h r' (inr m))),
      )

  -- The endpoint /ready answers 200 exactly if kweb's health check says healthy, every registrar has
  -- succeeded, and the first poll is complete.
  pub readiness_handler_lem :
      {W : Type 0} (registrars : List (Registrar W)) (poll_complete : Bool) (k : K)
      → ((readiness_handler registrars poll_complete k).0.code ≡ 200) ↔ (
          ((Kw.check_health k).0 ≡ ok true)
          × ((r : Registrar W) → Member r registrars → r.succeeded ≡ true)
          × (poll_complete ≡ true))
  unfolding readiness_handler
  readiness_handler_lem registrars poll_complete k =
      let (to, from) = all_registered_iff registrars in
      (
        λ h. (ground arith, to (ground arith), ground arith),
        λ (up, all, polled). ground (arith, up, from all, polled),
      )

  pub health_agrees :
      (p : Process) (now : ℕ) (k : K)
      → let code = health_code (Kw.check_health k).0 in
        (http_status (get_health Kw p now k).0 ≡ code)
        × (http_status (get_vm_health Kw p now k).0 ≡ code)
        × (http_status (get_cluster_health Kw p now k).0 ≡ code)
        × ((root_health_handler p now k).0.code ≡ code)
  unfolding get_health get_vm_health get_cluster_health root_health_handler
  health_agrees p now k = ground arith
