-- ===== src/Api/Paging.antt =====
-- The pages of `ListVMs` and `ListClusters` (internal/api/server/vm_handlers.go and
-- cluster_handlers.go), which cut the sorted results in the same way.
pub mod Walk
pub mod Client
use dcm_kcli_provider.Prelude.{
  ℕ, ◌+◌, String, Bool, true, false, Option, none, some, List, [], ◌∷◌, ltb, length, take, drop,
  min, if◌then◌else◌,
}
use dcm_kcli_provider.Text.{int_limit, is_positive, codes, atoi, itoa}
use dcm_kcli_provider.Api.Types.{Page}
use dcm_kcli_provider.Api.Helpers.{given}

abbrev pub default_page_size : ℕ
default_page_size = 50

unfoldable pub page_size : Option ℕ → ℕ
page_size none = default_page_size
page_size (some n) = if is_positive n then n else default_page_size

-- `none` where the token is not a number, or a negative one
abbrev not_negative : Option ℕ → Option ℕ
not_negative none = none
not_negative (some v) = if ltb v int_limit then some v else none

unfoldable pub start_index : Option String → Option ℕ
start_index token = elim (given token) [ none ↦ some 0 | some t ↦ not_negative (atoi (codes t)) ]

unfoldable pub paginate {ℓ} : {A : Type ℓ} → ℕ → ℕ → List A → Option String × List A
paginate max_page_size start_idx results =
    let start = (if ltb (length results) start_idx then length results else start_idx) in
    let rest = drop start results in
    if ltb max_page_size (length rest)
    then (some (itoa (start + max_page_size)), take max_page_size rest)
    else (none, rest)
