-- ===== src/Middleware/Recovery.antt =====
-- A panic of a handler, behind the middleware.
use dcm_kcli_provider.Prelude.{
  true, false, not, ◌&&◌, Bool, Bool-cases, inl, inr, some, [], ◌==◌, ◌≡◌, ◌∙◌, ap, refl, arith,
  if◌then◌else◌,
}
use dcm_kcli_provider.Middleware.{
  HttpRequest, Served, Handler, chain, max_body_size, timed_out, IsTimeout, panic_recovery,
  count_requests, response_to, recovery_calls,
}

-- The request with its id in the context.
abbrev pub logged : HttpRequest → HttpRequest
logged r = if r.request_id == "" then r else record r { context_id = some r.request_id }

-- The request that reaches the handler behind the chain.
unfoldable pub reaching : HttpRequest → HttpRequest
reaching r =
    let logged = if r.request_id == "" then r else record r { context_id = some r.request_id } in
    if not (logged.method == "GET")
      && not (logged.method == "HEAD")
      && not (logged.method == "OPTIONS")
    then record logged { limit = some 1_048_576 }
    else logged

-- The chain, by the request that reaches the handler.
abbrev pub behind : Served → Handler
behind s = panic_recovery (count_requests (λ _. s))

chain-timeout :
    (timeout : Handler → Handler) (next : Handler) (r : HttpRequest)
    → chain timeout next r ≡ behind (timeout (max_body_size 1_048_576 next) (logged r)) r
unfolding chain panic_recovery count_requests recovery_calls
chain-timeout timeout next r = ground arith

limited :
    (next : Handler) (r : HttpRequest) → max_body_size 1_048_576 next (logged r) ≡ next (reaching r)
unfolding max_body_size reaching
limited next r = ground arith

-- The deadline of the request has passed when the handler behind the chain is done.
abbrev pub is_late : (Handler → HttpRequest → Bool) → Handler → HttpRequest → Bool
is_late late next r = late (max_body_size 1_048_576 next) (logged r)

pub chain-behind :
    (late : Handler → HttpRequest → Bool) (timeout : Handler → Handler) (next : Handler)
    (r : HttpRequest)
    → IsTimeout late timeout
    → chain timeout next r ≡ behind (timed_out (is_late late next r) (next (reaching r))) r
chain-behind late timeout next r t =
    let m = max_body_size 1_048_576 next in
    chain-timeout timeout next r
    ∙ ap (λ s. behind s r) (t m (logged r) ∙ ap (timed_out (is_late late next r)) (limited next r))

-- A panic of the handler, in time or not, does not leave the middleware, yet the request is not
-- counted: the counter's increment is skipped by the panic.
pub chain_recovers :
    (late : Handler → HttpRequest → Bool) (timeout : Handler → Handler) (next : Handler)
    (r : HttpRequest)
    → IsTimeout late timeout
    → (next (reaching r)).panicked ≡ true
    → ((chain timeout next r).panicked ≡ false)
      × ((chain timeout next r).counted ≡ (next (reaching r)).counted)
unfolding panic_recovery count_requests
chain_recovers late timeout next r t p =
    rw (chain-behind late timeout next r t) (elim (Bool-cases (is_late late next r)) [
      | inl h ↦ rw h (ground (arith, p))
      | inr h ↦ rw h (ground (arith, p))
    ])

-- Where the handler panics before it has written anything and in time, the client gets 500.
pub chain_reports :
    (next : Handler) (r : HttpRequest)
    → (next (reaching r)).panicked ≡ true
    → (next (reaching r)).calls ≡ []
    → (response_to (behind (next (reaching r)) r).calls).status ≡ some 500
unfolding panic_recovery count_requests response_to
chain_reports next r p silent = rw p (rw silent refl)
