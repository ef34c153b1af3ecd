-- ===== src/Api/Paging/Client.antt =====
-- A client that lists through the handlers `ListVMs` and `ListClusters` (internal/api/server), asking
-- for each page with the token of the one before.
use dcm_kcli_provider.Prelude.{
  ℕ, zero, suc, ◌<◌, ◌≡◌, ◌∙◌, refl, String, Option, none, some, List, [], ◌++◌, Option-cases, inl,
  inr, arith, length,
}
use dcm_kcli_provider.Text.{int_limit}
use dcm_kcli_provider.Api.Types.{ListParams, Page, Response, resource, no_content, problem}
use dcm_kcli_provider.Api.Paging.{page_size, start_index, paginate}
use dcm_kcli_provider.Api.Paging.Walk.{walk, walk_complete}

-- A listing handler.
abbrev pub Handler : Type 0 → Type 0 → Type 0
Handler A W = ListParams → W → Response (Page A) × W

-- The page of a response that has one.
unfoldable pub paged : {A : Type 0} → Response (Page A) → Option (Page A)
paged (resource _ page) = some page
paged no_content = none
paged (problem _ _) = none

abbrev pub page_of : {A : Type 0} → Option String × List A → Page A
page_of (token, page) = record { next_page_token = token; results = page }

-- What the client collects, in the order of the pages; it stops at a problem.
pub list_pages : {A W : Type 0} → Handler A W → ℕ → Option ℕ → Option String → W → List A
unfolding paged
list_pages handler zero size token w = []
list_pages handler (suc fuel) size token w =
    let (r, w') = handler (record { max_page_size = size; page_token = token }) w in
    elim (paged r) [
      | none ↦ []
      | some page ↦ page.results ++ (elim page.next_page_token [
        | none ↦ []
        | some t ↦ list_pages handler fuel size (some t) w'
      ])
    ]

page_size-IsPositive : (size : Option ℕ) → 0 < page_size size
unfolding page_size
page_size-IsPositive none = omega arith
page_size-IsPositive (some n) = ground arith

module _ {A W : Type 0} (handler : Handler A W) (P : W → Type 0) (size : Option ℕ)
    (results : List A)
    (served : (token : Option String) (start : ℕ) (w : W)
      → start_index token ≡ some start
      → P w
      → let (r, w') = handler (record { max_page_size = size; page_token = token }) w in
        (r ≡ resource 200 (page_of (paginate (page_size size) start results))) × P w')
    (refused : (token : Option String) (w : W)
      → start_index token ≡ none
      → paged (handler (record { max_page_size = size; page_token = token }) w).0 ≡ none) where
  list_pages_refused :
      (fuel : ℕ) (token : Option String) (w : W)
      → start_index token ≡ none
      → list_pages handler fuel size token w ≡ []
  unfolding list_pages
  list_pages_refused zero token w h = refl
  list_pages_refused (suc fuel) token w h = rw (refused token w h, list_pages) refl

  -- The client's list is the walk over the results.
  list_pages-walk :
      (fuel : ℕ) (token : Option String) (start : ℕ) (w : W)
      → start_index token ≡ some start
      → P w
      → list_pages handler fuel size token w ≡ walk fuel (page_size size) start results
  unfolding list_pages walk paged
  list_pages-walk zero token start w h p = refl
  list_pages-walk (suc fuel) token start w h p =
      let (answer, p') = served token start w h p in
      rw (answer, list_pages)
        (elim (Option-cases (paginate (page_size size) start results).0) [
          | inl e ↦ rw e refl
          | inr (t, e) ↦ elim (Option-cases (start_index (some t))) [
            | inl bad ↦ rw (e, bad) (rw (list_pages_refused fuel (some t) _ bad) refl)
            | inr (next, good) ↦
                rw (e, good) (rw (list_pages-walk fuel (some t) next _ good p') refl)
          ]
        ])

  -- From the first page on, the client collects all the results.
  pub list_pages_complete :
      (fuel : ℕ) (w : W)
      → P w
      → length results < int_limit
      → length results < fuel
      → list_pages handler fuel size none w ≡ results
  unfolding start_index
  list_pages_complete fuel w p h l =
      list_pages-walk fuel none 0 w refl p
      ∙ walk_complete fuel (page_size size) 0 results (page_size-IsPositive size) h (omega arith)
          (omega arith)
