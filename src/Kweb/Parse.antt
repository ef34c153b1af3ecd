-- ===== src/Kweb/Parse.antt =====
-- internal/kweb/client.go: how the answers of kweb are read, `parseResponse` and `parseErrorBody`.
-- A text is a sequence of code points; strings.ToLower is modelled as far as a letter can become an
-- ASCII one. What json.Unmarshal makes of a text as a map is a parameter.
pub mod Conflict
use Prim.Native.Char.{code}
use dcm_kcli_provider.Prelude.{
  ℕ, ◌+◌, String, Bool, true, false, not, ◌&&◌, ◌||◌, Option, none, some, List, [], ◌∷◌, ◌==◌, ◌<>◌,
  map, leb, ltb, eqb, if◌then◌else◌,
}
use dcm_kcli_provider.Prelude.Result.{Result, ok, err}
use dcm_kcli_provider.Prelude.Dict.{Dict, lookup}
use dcm_kcli_provider.Text.{codes, is_space, strip_prefix, itoa}
use dcm_kcli_provider.Kweb.Api.{KwebError, conflict, http_error, Value, str}

lower : ℕ → ℕ
lower c =
    if leb b'A' c && leb c b'Z'
    then c + 32
    else if eqb c 0x130
    then b'i'
    else if eqb c 0x212a
    then b'k'
    else c

begins : List ℕ → List ℕ → Bool
begins t s = elim (strip_prefix t s) [ none ↦ false | some _ ↦ true ]

-- strings.Contains(s, t)
has_part : List ℕ → List ℕ → Bool
unfolding begins
has_part [] t = begins t []
has_part (c ∷ s) t = let rest = has_part s t in begins t (c ∷ s) || rest

-- strings.Contains(strings.ToLower(s), t)
pub lower_has_part : String → String → Bool
unfolding lower has_part
lower_has_part s t = has_part (map lower (codes s)) (codes t)

trim_left : String → String
trim_left String.[] = ""
trim_left (String.◌∷◌ c s) =
    let rest = trim_left s in if is_space (code c) then rest else String.◌∷◌ c s

trim_right : String → String
trim_right String.[] = ""
trim_right (String.◌∷◌ c s) =
    let rest = trim_right s in if is_space (code c) && (rest == "") then "" else String.◌∷◌ c rest

-- strings.TrimSpace
pub trimmed : String → String
unfolding trim_left trim_right
trimmed s = trim_right (trim_left s)

-- m[k].(string), or "" where it is none
pub text_at : String → Dict Value → String
text_at k m = text_of (lookup k m)
  where
    text_of : Option Value → String
    text_of (some (str s)) = s
    text_of _ = ""

-- the answer that the decoded body gives, if it gives one
structured_error : ℕ → Dict Value → Option KwebError
unfolding text_at lower_has_part
structured_error status m =
    let reason = text_at "reason" m in
    if not (reason == "")
    then some (
        if lower_has_part reason "already exists" || lower_has_part reason "conflict"
        then conflict
        else http_error status reason)
    else if text_at "result" m == "failure"
    then some (http_error status "")
    else none

raw_error : ℕ → String → KwebError
unfolding has_part
raw_error status raw =
    if (raw == "") || (raw == "{}")
    then http_error status ""
    else if has_part (codes raw) (codes "<html") || has_part (codes raw) (codes "<!DOCTYPE")
    then http_error status ("kweb returned HTML error (HTTP " <> itoa status <> ")")
    else http_error status raw

pub parse_error_body : (String → Option (Dict Value)) → ℕ → String → KwebError
unfolding structured_error raw_error trimmed
parse_error_body unmarshal status body = elim (unmarshal body) [
  | none ↦ raw_error status (trimmed body)
  | some m ↦ elim (structured_error status m) [
    | some e ↦ e
    | none ↦ raw_error status (trimmed body)
  ]
]

-- a success status whose body may still say that the call failed
accepted : ℕ → Option (Dict Value) → Result KwebError (Unit {0})
unfolding text_at lower_has_part
accepted status none = ok tt
accepted status (some m) =
    if text_at "result" m == "failure"
    then err (
        if lower_has_part (text_at "reason" m) "already exists"
        then conflict
        else http_error status (text_at "reason" m))
    else ok tt

pub parse_response : (String → Option (Dict Value)) → ℕ → String → Result KwebError (Unit {0})
unfolding parse_error_body accepted
parse_response unmarshal status body =
    if leb 200 status && ltb status 300
    then (if has_part (codes body) (codes "failure")
        then accepted status (unmarshal body)
        else ok tt)
    else err (parse_error_body unmarshal status body)
