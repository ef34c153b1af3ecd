-- ===== src/Middleware.antt =====
-- The HTTP middleware: internal/handlers and `Middleware` of internal/metrics/metrics.go. A handler is
-- what it does to the ResponseWriter, as a list of calls, and whether it panics after them; the values
-- that are encoded as JSON stand for their encoding. Logging and the duration metric are left out.
pub mod Recovery
pub mod Counting
pub mod Strict
pub mod Runs
use dcm_kcli_provider.Prelude.{
  ℕ, ◌-◌, String, Bool, true, false, not, ◌&&◌, ◌||◌, Option, none, some, List, [], ◌∷◌, ◌++◌, ◌==◌,
  leb, ltb, if◌then◌else◌, ◌≡◌,
}
use dcm_kcli_provider.Prelude.Result.{Result, ok, err}
use dcm_kcli_provider.Prelude.Dict.{Dict, lookup, insert}
use dcm_kcli_provider.Text.{itoa}

-- `ProblemDetail`, and `problemDetail`, which has no instance
pub record ProblemDetail : Type 0 where
  pub kind : String  -- `Type` in the source
  pub title : String
  pub status : ℕ
  pub detail : String
  pub instance_path : Option String

-- What is written into a response body: bytes, or the JSON of a problem.
pub data Chunk : Type 0 where
  bytes : String → Chunk
  problem_json : ProblemDetail → Chunk

-- A call on the ResponseWriter.
pub data Call : Type 0 where
  set_header : String → String → Call
  write_header : ℕ → Call
  write : Chunk → Call

-- A request as far as the middleware reads it. `request_id` is chi's, "" if there is none;
-- `context_id` is the value of `reqIDKey` in its context; `limit` bounds what may be read of the body.
pub record HttpRequest : Type 0 where
  pub method : String
  pub path : String
  pub route_pattern : String
  pub request_id : String
  pub context_id : Option String
  pub limit : Option ℕ

-- An increment of the counter `RequestsTotal`.
pub record RequestCount : Type 0 where
  pub method : String
  pub route : String
  pub code : String

-- What serving a request comes to; `counted` are the increments, the newest first.
pub record Served : Type 0 where
  pub calls : List Call
  pub panicked : Bool
  pub counted : List RequestCount

abbrev pub Handler : Type 0
Handler = HttpRequest → Served

-- WriteProblem, over http.StatusText
unfoldable pub write_problem : (ℕ → String) → String → ℕ → String → List Call
write_problem status_text path status detail =
    set_header "Content-Type" "application/problem+json"
    ∷ write_header status
    ∷ write (
        problem_json (record {
          kind = "about:blank";
          title = status_text status;
          status = status;
          detail = detail;
          instance_path = some path;
        }))
    ∷ []

unfoldable pub write_rfc7807 : ℕ → String → String → List Call
write_rfc7807 status title detail =
    set_header "Content-Type" "application/problem+json"
    ∷ write_header status
    ∷ write (
        problem_json (record {
          kind = "about:blank";
          title = title;
          status = status;
          detail = detail;
          instance_path = none;
        }))
    ∷ []

-- what the deferred function of `PanicRecovery` writes
unfoldable pub recovery_calls : String → List Call
recovery_calls path =
    set_header "Content-Type" "application/problem+json"
    ∷ write_header 500
    ∷ write (
        problem_json (record {
          kind = "about:blank";
          title = "Internal Server Error";
          status = 500;
          detail = "an unexpected error occurred";
          instance_path = some path;
        }))
    ∷ []

unfoldable pub panic_recovery : Handler → Handler
unfolding recovery_calls
panic_recovery next r =
    let s = next r in
    if s.panicked
    then record s { calls = s.calls ++ recovery_calls r.path; panicked = false }
    else s

unfoldable pub max_body_size : ℕ → Handler → Handler
max_body_size max_bytes next r =
    if not (r.method == "GET") && not (r.method == "HEAD") && not (r.method == "OPTIONS")
    then next (record r { limit = some max_bytes })
    else next r

unfoldable pub request_logger : Handler → Handler
request_logger next r =
    if r.request_id == "" then next r else next (record r { context_id = some r.request_id })

unfoldable pub request_id_from_context : HttpRequest → String
request_id_from_context r = elim r.context_id [ some id ↦ id | none ↦ "" ]

-- `LoggerFromContext`: the request id that it adds to the logger
unfoldable pub logger_from_context : HttpRequest → Option String
logger_from_context r = elim r.context_id [
  | some id ↦ if id == "" then none else some id
  | none ↦ none
]

-- `statusWriter`: the code of the last WriteHeader, 200 before the first
unfoldable pub status_writer : ℕ → List Call → ℕ
status_writer code [] = code
status_writer code (set_header _ _ ∷ calls) = status_writer code calls
status_writer code (write_header c ∷ calls) = status_writer c calls
status_writer code (write _ ∷ calls) = status_writer code calls

-- `Middleware` of the metrics: its lines after next.ServeHTTP do not run on a panic.
unfoldable pub count_requests : Handler → Handler
unfolding status_writer
count_requests next r =
    let s = next r in
    let count : RequestCount = record {
      method = r.method;
      route = if r.route_pattern == "" then r.path else r.route_pattern;
      code = itoa (status_writer 200 s.calls);
    } in
    if s.panicked then s else record s { counted = count ∷ s.counted }

-- The middleware in the order in which `NewServer` of cmd/dcm-kcli-provider/server.go puts it around
-- the API. `timeout` is chi's middleware.Timeout for the configured duration, and `next` is the
-- OpenAPI validator around the API; chi's RequestID, the outermost, has set the request's id.
unfoldable pub chain : (Handler → Handler) → Handler → Handler
unfolding request_logger panic_recovery count_requests max_body_size
chain timeout next =
    request_logger (panic_recovery (count_requests (timeout (max_body_size 1_048_576 next))))

-- chi's Timeout calls the next handler and, in a deferred function, writes 504 if the deadline has
-- passed by then, which `late` tells.
abbrev pub timed_out : Bool → Served → Served
timed_out late s = if late then record s { calls = s.calls ++ (write_header 504 ∷ []) } else s

abbrev pub IsTimeout : (Handler → HttpRequest → Bool) → (Handler → Handler) → Type 0
IsTimeout late timeout =
    (next : Handler) (r : HttpRequest) → timeout next r ≡ timed_out (late next r) (next r)

-- Why a body cannot be decoded: it is longer than the limit, or another reason.
pub data DecodeError : Type 0 where
  too_long : DecodeError
  malformed : String → DecodeError

-- `RequestErrorHandlerFunc` of `NewServer`
unfoldable pub request_error_calls : DecodeError → List Call
unfolding write_rfc7807
request_error_calls too_long =
    write_rfc7807 413 "Request Entity Too Large" "Request body exceeds the maximum allowed size."
request_error_calls (malformed m) = write_rfc7807 400 "Bad Request" m

-- `ResponseErrorHandlerFunc`
unfoldable pub response_error_calls : String → List Call
unfolding write_rfc7807
response_error_calls message = write_rfc7807 500 "Internal Server Error" message

-- The response that net/http makes of the calls: the first status that is written is the one sent, a
-- body alone sends 200, and headers set later are not sent.
pub record HttpResponse : Type 0 where
  pub status : Option ℕ
  pub headers : Dict String
  pub sent : Dict String
  pub content : List Chunk

abbrev pub commit : ℕ → HttpResponse → HttpResponse
commit status p = elim p.status [
  | some _ ↦ p
  | none ↦ record p { status = some status; sent = p.headers }
]

unfoldable pub respond : List Call → HttpResponse → HttpResponse
respond [] p = p
respond (set_header k v ∷ calls) p = respond calls (record p { headers = insert k v p.headers })
respond (write_header c ∷ calls) p = respond calls (commit c p)
respond (write chunk ∷ calls) p =
    let q = commit 200 p in respond calls (record q { content = q.content ++ (chunk ∷ []) })

abbrev pub nothing_sent : HttpResponse
nothing_sent = record { status = none; headers = []; sent = []; content = [] }

-- The response of a handler, 200 with no body where it wrote nothing.
unfoldable pub response_to : List Call → HttpResponse
unfolding respond
response_to calls = commit 200 (respond calls nothing_sent)
