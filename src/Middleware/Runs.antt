-- ===== src/Middleware/Runs.antt =====
-- Requests through the middleware, to a handler that panics and to one that answers.
use dcm_kcli_provider.Prelude.{Bool, String, true, false, none, [], ◌≡◌, refl}
use dcm_kcli_provider.Prelude.Result.{Result, ok}
use dcm_kcli_provider.Api.Types.{Response, resource}
use dcm_kcli_provider.Middleware.{HttpRequest, Handler, DecodeError, chain, timed_out}
use dcm_kcli_provider.Middleware.Recovery.{reaching, chain_recovers}
use dcm_kcli_provider.Middleware.Strict.{Encoder}

abbrev post : HttpRequest
post = record {
  method = "POST";
  path = "/api/v1alpha1/vms";
  route_pattern = "";
  request_id = "host/1";
  context_id = none;
  limit = none;
}

abbrev panics : Handler
panics _ = record { calls = []; panicked = true; counted = [] }

abbrev plain : Encoder String
plain = record { resource_json = λ s. ok s; problem_json = λ p. ok p.title; write_to = λ _. none }

abbrev body_text : HttpRequest → Result DecodeError String
body_text r = ok r.path

abbrev create : String → Response String
create s = resource 201 s

-- The deadline has passed.
abbrev late : Handler → HttpRequest → Bool
late next r = true

abbrev timeout : Handler → Handler
timeout next r = timed_out true (next r)

chain_recovers_example :
    ((chain timeout panics post).panicked ≡ false)
    × ((chain timeout panics post).counted ≡ (panics (reaching post)).counted)
chain_recovers_example = chain_recovers late timeout panics post (λ next r. refl) refl
