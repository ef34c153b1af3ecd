-- ===== src/Middleware/Strict.antt =====
-- The strict handlers that internal/api/server/server.gen.go generates around the handlers of the API:
-- they decode the request, call the handler and write its response. The JSON encoding and decoding and
-- the connection are parameters; an answer of a handler is one of Api/Types.
use dcm_kcli_provider.Prelude.{ℕ, String, false, Option, none, some, List, [], ◌∷◌, ◌++◌}
use dcm_kcli_provider.Prelude.Result.{Result, ok, err}
use dcm_kcli_provider.Api.Types.{Response, resource, no_content, problem, Problem}
use dcm_kcli_provider.Middleware.{
  Call, set_header, write_header, write, bytes, HttpRequest, Served, Handler, DecodeError,
  request_error_calls, response_error_calls,
}

-- encoding/json at the types that are written, and the error of `buf.WriteTo(w)`, if it has one, by
-- the text that is written
pub record Encoder (A : Type 0) : Type 0 where
  pub resource_json : A → Result String String
  pub problem_json : Problem → Result String String
  pub write_to : String → Option String

module _ {A : Type 0} (enc : Encoder A) where
  -- what the methods `Visit...Response` write, and their error
  unfoldable pub visit_text : String → ℕ → Result String String → List Call × Option String
  visit_text content_type status (err m) = ([], some m)
  visit_text content_type status (ok text) = (
    set_header "Content-Type" content_type ∷ write_header status ∷ write (bytes text) ∷ [],
    enc.write_to text,
  )

  unfoldable pub visit : Response A → List Call × Option String
  unfolding visit_text
  visit (resource status a) = visit_text "application/json" status (enc.resource_json a)
  visit no_content = (write_header 204 ∷ [], none)
  visit (problem status p) = visit_text "application/problem+json" status (enc.problem_json p)

  -- `ResponseErrorHandlerFunc` comes after what has been written
  unfoldable pub reported : List Call × Option String → List Call
  unfolding response_error_calls
  reported (calls, none) = calls
  reported (calls, some m) = calls ++ response_error_calls m

  -- what a handler's response and the writing of it come to
  unfoldable pub answered : Response A → Served
  unfolding visit reported
  answered x = record { calls = reported (visit x); panicked = false; counted = [] }

  -- the strict handler of an operation with a body, and of one without
  unfoldable pub strict_with_body :
      {B : Type 0} → (HttpRequest → Result DecodeError B) → (B → Response A) → Handler
  unfolding answered request_error_calls
  strict_with_body decode call r = elim (decode r) [
    | err e ↦ record { calls = request_error_calls e; panicked = false; counted = [] }
    | ok payload ↦ answered (call payload)
  ]

  unfoldable pub strict_without_body : Response A → Handler
  unfolding answered
  strict_without_body x r = answered x
