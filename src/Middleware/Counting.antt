-- ===== src/Middleware/Counting.antt =====
-- The status that a client sees, and the one that the counter of the requests records.
use dcm_kcli_provider.Prelude.{ℕ, some, List, [], ◌∷◌, ◌++◌, ◌==◌, ◌≡◌, if◌then◌else◌}
use dcm_kcli_provider.Prelude.Result.{Result}
use dcm_kcli_provider.Text.{itoa}
use dcm_kcli_provider.Middleware.{
  Call, write_header, HttpRequest, RequestCount, status_writer, response_to,
}

-- The increment that a request is counted by.
abbrev pub count_of : HttpRequest → ℕ → RequestCount
count_of r code = record {
  method = r.method;
  route = if r.route_pattern == "" then r.path else r.route_pattern;
  code = itoa code;
}

-- What is written sends a status, which the counter records, and a WriteHeader(504) that comes after it
-- does not change what is sent.
record IsAnswer (code : ℕ) (calls : List Call) : Type 0 where
  counted : status_writer 200 calls ≡ code
  sent : (response_to calls).status ≡ some code
  sent_late : (response_to (calls ++ (write_header 504 ∷ []))).status ≡ some code
  counted_late : status_writer 200 (calls ++ (write_header 504 ∷ [])) ≡ 504
