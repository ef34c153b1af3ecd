-- ===== src/Api/Runs.antt =====
-- Runs of what the handlers share.
use dcm_kcli_provider.Prelude.{
  refl, ◌↔◌, ℕ, String, ◌<>◌, ◌*◌, ◌%◌, ◌^◌, ◌≡◌, true, false, ◌⊎◌, none, some, List, [], ◌∷◌,
  arith, ap, map,
}
use dcm_kcli_provider.Prelude.Dict.{Dict, lookup}
use dcm_kcli_provider.Text.{codes, atoi, itoa}
use dcm_kcli_provider.Text.Decimal.{atoi-itoa}
use dcm_kcli_provider.Kweb.Api.{str, field, end, object, Params}
use mathlib.Core.List.{Perm}
use dcm_kcli_provider.Store.Entry.{ResourceEntry}
use dcm_kcli_provider.Api.Server.{Server, sort_entries}
use dcm_kcli_provider.Api.Sorting.{InOrder}
use dcm_kcli_provider.Api.Sorting.Unique.{sort_entries_unique}
use dcm_kcli_provider.Api.MemorySize.{parse_memory_size_wraps}
use dcm_kcli_provider.Api.Types.{ProviderHints}
use dcm_kcli_provider.Api.Helpers.{
  allowed_kcli_hint_keys, slice_contains, merge_kcli_hints, parse_memory_size,
}
use dcm_kcli_provider.Api.Hints.{merge_kcli_hints_lem}
use dcm_kcli_provider.Prelude.Result.{ok}
use dcm_kcli_provider.Store.Memory.{memory_store}
use dcm_kcli_provider.Kweb.Fixtures.{vm_info, kweb_up}
use dcm_kcli_provider.Api.Paging.Client.{list_pages}
use dcm_kcli_provider.Api.Vms.{vm_results, list_vms}
use dcm_kcli_provider.Api.Vms.Listing.{list_vms_complete}

abbrev hints : ProviderHints
hints = ("kcli", object (field "profile" (str "tiny") (field "name" (str "x") end))) ∷ []

abbrev set_params : Params
set_params = ("parameters[memory]", str "512") ∷ []

atoi-itoa_example : atoi (codes (itoa 207)) ≡ some 207
atoi-itoa_example = atoi-itoa 207 (ground arith)

abbrev entry_at : String → ℕ → ResourceEntry
entry_at id created_at = record {
  id = id;
  kcli_name = id;
  kind = "vm";
  status = "RUNNING";
  created_at = created_at;
}

abbrev stored : List ResourceEntry
stored = entry_at "b" 5 ∷ entry_at "a" 9 ∷ entry_at "c" 5 ∷ []

-- What a listing makes of them.
abbrev sorted : List ResourceEntry
sorted = entry_at "a" 9 ∷ entry_at "b" 5 ∷ entry_at "c" 5 ∷ []

sort_entries_unique_example : (Perm sorted stored × InOrder sorted) ↔ (sorted ≡ sort_entries stored)
sort_entries_unique_example =
    sort_entries_unique stored sorted ((refl, (refl, tt)), ((refl, tt), (tt, tt)))

-- The state of kweb, and of a server that keeps the entries.
abbrev names : List String
names = "b" ∷ "c" ∷ []

abbrev keeping : Server (Dict ResourceEntry) (List String)
keeping = record {
  store = ("b", entry_at "b" 5) ∷ ("a", entry_at "a" 9) ∷ ("c", entry_at "c" 5) ∷ [];
  kweb = names;
  published = [];
  managed = [];
  kc_cache = [];
}

list_vms_complete_example :
    list_pages (list_vms memory_store kweb_up) 4 (some 2) none keeping
    ≡ vm_results memory_store kweb_up stored (vm_info "b" ∷ vm_info "c" ∷ [])
list_vms_complete_example =
    list_vms_complete memory_store kweb_up (λ k. k ≡ names)
      (ok (some (vm_info "b" ∷ vm_info "c" ∷ []))) stored 4 (some 2) keeping
      (λ k p. (ap (λ x. ok (some (map vm_info x))) p, p)) (λ e. ground arith) refl refl
      (ground arith) (ground arith)

-- A size of so many terabytes comes to one.
parse_memory_size_wraps_example :
    (parse_memory_size (itoa 17592186044417 <> "TB")
      ≡ some (17592186044417 * (1024 * 1024) % 2 ^ 64))
    × (parse_memory_size (itoa 17592186044417 <> "GB") ≡ some (17592186044417 * 1024 % 2 ^ 64))
    × (parse_memory_size (itoa 17592186044417 <> "MB") ≡ some 17592186044417)
parse_memory_size_wraps_example = parse_memory_size_wraps 17592186044417 (omega arith)

merge_kcli_hints_lem_example :
    (lookup "name" (merge_kcli_hints (some hints) ("profile" ∷ []) set_params)
      ≡ lookup "name" set_params)
    ⊎ ((lookup "name" set_params ≡ none)
        × (slice_contains allowed_kcli_hint_keys "name" ≡ true)
        × (slice_contains ("profile" ∷ []) "name" ≡ false))
merge_kcli_hints_lem_example = merge_kcli_hints_lem (some hints) ("profile" ∷ []) set_params "name"
