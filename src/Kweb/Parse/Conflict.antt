-- ===== src/Kweb/Parse/Conflict.antt =====
-- Which answers of kweb `parseErrorBody` takes for a conflict.
use dcm_kcli_provider.Prelude.{
  ℕ, String, Bool, true, false, ◌≡◌, refl, sym, ap, ◌∙◌, ◌||◌, ◌&&◌, Option, none, some, leb, ltb,
  eq_iff, arith, Option-cases, inl, inr,
}
use dcm_kcli_provider.Prelude.Result.{err}
use dcm_kcli_provider.Prelude.Dict.{Dict}
use dcm_kcli_provider.Kweb.Api.{
  KwebError, conflict, http_error, unreachable, not_found, other_error, Value,
}
use dcm_kcli_provider.Kweb.Parse.{
  text_at, lower_has_part, has_part, begins, lower, trimmed, structured_error, raw_error,
  parse_error_body, parse_response,
}

-- The reason that a decoded body gives says that there is such a resource.
unfoldable pub reason_says : Option (Dict Value) → Bool
reason_says none = false
reason_says (some m) =
    lower_has_part (text_at "reason" m) "already exists"
    || lower_has_part (text_at "reason" m) "conflict"

-- An error with the status of kweb's answer.
abbrev pub Carries : ℕ → KwebError → Type 0
Carries status (http_error code reason) = code ≡ status
Carries status unreachable = ⊥
Carries status not_found = ⊥
Carries status conflict = ⊥
Carries status (other_error m) = ⊥

no_reason-says : (m : Dict Value) → text_at "reason" m ≡ "" → reason_says (some m) ≡ false
unfolding reason_says lower_has_part has_part begins lower
no_reason-says m h = rw (h, reason_says) refl

raw_error-Carries : (status : ℕ) (raw : String) → Carries status (raw_error status raw)
unfolding raw_error
raw_error-Carries status raw = ground arith

structured_error-says :
    (status : ℕ) (m : Dict Value)
    → reason_says (some m) ≡ true
    → structured_error status m ≡ some conflict
unfolding structured_error reason_says
structured_error-says status m h = ground (arith, no_reason-says m, eq_iff (text_at "reason" m) "")

-- What an unwrapped error carries, if there is one.
abbrev CarriesIfAny : ℕ → Option KwebError → Type 0
CarriesIfAny status none = Unit
CarriesIfAny status (some e) = Carries status e

structured_error-Carries :
    (status : ℕ) (m : Dict Value)
    → reason_says (some m) ≡ false
    → CarriesIfAny status (structured_error status m)
unfolding structured_error reason_says
structured_error-Carries status m h = ground arith

module _ (unmarshal : String → Option (Dict Value)) (status : ℕ) (body : String) where
  -- An answer whose body decodes to a reason that says so is a conflict, whatever its status.
  pub parse_error_body-says :
      reason_says (unmarshal body) ≡ true → parse_error_body unmarshal status body ≡ conflict
  unfolding parse_error_body
  parse_error_body-says h = elim (Option-cases (unmarshal body)) [
    | inl n ↦ absurd (unfold reason_says in ground arith)
    | inr (m, d) ↦
        let e : structured_error status m ≡ some conflict =
          structured_error-says status m (sym (ap reason_says d) ∙ h) in
        rw (d, parse_error_body) (rw (e) refl)
  ]

  -- Any other answer's error carries the answer's status.
  pub parse_error_body-Carries :
      reason_says (unmarshal body) ≡ false → Carries status (parse_error_body unmarshal status body)
  unfolding parse_error_body
  parse_error_body-Carries h = elim (Option-cases (unmarshal body)) [
    | inl n ↦ rw (n, parse_error_body) (raw_error-Carries status (trimmed body))
    | inr (m, d) ↦
        let k = structured_error-Carries status m (sym (ap reason_says d) ∙ h) in
        ground (arith, raw_error-Carries status (trimmed body))
  ]

  pub parse_response-refused :
      (leb 200 status && ltb status 300) ≡ false
      → parse_response unmarshal status body ≡ err (parse_error_body unmarshal status body)
  unfolding parse_response
  parse_response-refused h = rw (h, parse_response) refl
