-- ===== src/Api/Server.antt =====
-- The state of `StrictServerImpl` (internal/api/server/impl.go) and what the handlers of both kinds of
-- resource share. A request is handled at one instant; the two fresh UUIDs that it may need come with
-- it. What the publisher returns is dropped by every handler, so a publish is recorded as a call.
use Prim.Native.String.{compare}
use Prim.Native.Nat.{Ordering}
use dcm_kcli_provider.Prelude.{
  ℕ, String, Bool, true, false, Option, List, [], ◌∷◌, ◌==◌, ◌<>◌, ltb, eqb, if◌then◌else◌,
}
use dcm_kcli_provider.Prelude.Dict.{Dict}
use dcm_kcli_provider.Metrics.{GaugeCall}
use dcm_kcli_provider.Events.{Published}
use dcm_kcli_provider.Store.Entry.{ResourceEntry}
use dcm_kcli_provider.Kweb.Api.{
  KwebError, unreachable, conflict, not_found, http_error, other_error,
}
use dcm_kcli_provider.Text.{itoa}
use dcm_kcli_provider.Api.Types.{Response, problem_response}

pub record CachedKubeconfig : Type 0 where
  pub kubeconfig : String
  pub endpoint : String
  pub fetched_at : ℕ

-- 5 minutes, in nanoseconds
abbrev pub kubeconfig_cache_ttl : ℕ
kubeconfig_cache_ttl = 300_000_000_000

-- `published` and `managed` hold the calls made, the newest first.
pub record Server (S K : Type 0) : Type 0 where
  pub store : S
  pub kweb : K
  pub published : List Published
  pub managed : List GaugeCall
  pub kc_cache : Dict CachedKubeconfig

pub record Request : Type 0 where
  pub now : ℕ
  pub uuid_name : String
  pub uuid_id : String
  pub client_id : Option String

-- `ProfileCache`, at one instant
pub record ProfileCache : Type 0 where
  pub profiles : List String
  pub has_profile : String → Bool

abbrev pub with_store : {S K : Type 0} → S → Server S K → Server S K
with_store s w = record w { store = s }

abbrev pub with_kweb : {S K : Type 0} → K → Server S K → Server S K
with_kweb k w = record w { kweb = k }

-- what `err.Error()` gives for a client error
unfoldable pub kweb_error_text : KwebError → String
kweb_error_text unreachable = "kweb is unreachable"
kweb_error_text conflict = "resource already exists"
kweb_error_text not_found = "resource not found in kweb"
kweb_error_text (http_error code reason) =
    if reason == ""
    then "kweb error " <> itoa code
    else "kweb error " <> itoa code <> ": " <> reason
kweb_error_text (other_error m) = m

-- the problem that a handler makes of a client error; `already` is its answer to `ErrConflict`
unfoldable pub create_problem : {A : Type 0} → String → KwebError → Response A
create_problem already conflict = problem_response 409 already
create_problem already unreachable = problem_response 502 "kweb is unreachable"
create_problem already e = problem_response 500 (kweb_error_text e)

unfoldable pub delete_problem : {A : Type 0} → KwebError → Response A
delete_problem unreachable = problem_response 502 "kweb is unreachable"
delete_problem e = problem_response 500 (kweb_error_text e)

-- the order of `sort.Slice`: the newest first, and by id where two are as old
abbrev is_lt : Ordering → Bool
is_lt Ordering.lt = true
is_lt Ordering.eq = false
is_lt Ordering.gt = false

unfoldable pub less : ResourceEntry → ResourceEntry → Bool
less a b =
    if eqb a.created_at b.created_at
    then is_lt (compare a.id b.id)
    else ltb b.created_at a.created_at

unfoldable pub insert_entry : ResourceEntry → List ResourceEntry → List ResourceEntry
insert_entry e [] = e ∷ []
insert_entry e (x ∷ xs) = let rest = insert_entry e xs in if less x e then x ∷ rest else e ∷ x ∷ xs

-- sort.Slice by `less`: the order is total where ids differ, so that every sort has this result
unfoldable pub sort_entries : List ResourceEntry → List ResourceEntry
unfolding insert_entry
sort_entries [] = []
sort_entries (e ∷ es) = insert_entry e (sort_entries es)

-- strings.Join(ss, ", ")
unfoldable pub join : List String → String
join [] = ""
join (s ∷ []) = s
join (s ∷ t ∷ ss) = s <> ", " <> join (t ∷ ss)
