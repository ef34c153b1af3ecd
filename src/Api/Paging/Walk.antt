-- ===== src/Api/Paging/Walk.antt =====
-- A client that follows `next_page_token` through the pages.
use dcm_kcli_provider.Prelude.{
  ℕ, zero, suc, ◌+◌, ◌≤◌, ◌<◌, ◌≡◌, ◌∙◌, sym, ap, none, some, List, [], ◌++◌, arith, ltb, length,
  take, drop, if◌then◌else◌, Bool-cases, inl, inr, take-append-drop, length-take, length-drop,
  drop-drop, eq_iff, ◌==◌, le→ltb, lt→ltb, ltb→lt,
}
use mathlib.Core.List.{append-nil}
use dcm_kcli_provider.Text.{int_limit, codes, atoi, itoa}
use dcm_kcli_provider.Text.Decimal.{atoi-itoa}
use dcm_kcli_provider.Api.Paging.{start_index, paginate}

-- The pages that follow from an index: each is asked for with the token of the one before.
unfoldable pub walk {ℓ} : {A : Type ℓ} → ℕ → ℕ → ℕ → List A → List A
walk zero size start results = []
walk (suc fuel) size start results =
    let (token, page) = paginate size start results in
    page ++ (elim token [
      | none ↦ []
      | some t ↦ elim (start_index (some t)) [ none ↦ [] | some next ↦ walk fuel size next results ]
    ])

-- A printed number is no empty text.
itoa_given : (n : ℕ) → n < int_limit → start_index (some (itoa n)) ≡ some n
unfolding start_index
itoa_given n h = elim (Bool-cases (itoa n == "")) [
  | inl e ↦
      let q : none ≡ some n =
        unfold atoi in
        (ap (λ s. atoi (codes s)) (sym ((eq_iff (itoa n) "").0 e)) ∙ atoi-itoa n h) in
      cc
  | inr e ↦ rw (e, start_index) (rw (atoi-itoa n h) (ground arith))
]

module _ {ℓ} {A : Type ℓ} where
  -- A page has at most the size asked for.
  pub page_bounded :
      (size start : ℕ) (results : List A) → length (paginate size start results).1 ≤ size
  unfolding paginate
  page_bounded size start results =
      let from : ℕ = (if ltb (length results) start then length results else start) in
      elim (Bool-cases (ltb size (length (drop from results)))) [
        | inl more ↦ rw more (omega (arith, length-take size (drop from results)))
        | inr last ↦ rw last (ground arith)
      ]

  paginate_more :
      (size start : ℕ) (results : List A)
      → start ≤ length results
      → size < length (drop start results)
      → paginate size start results ≡ (some (itoa (start + size)), take size (drop start results))
  unfolding paginate
  paginate_more size start results b h = rw (le→ltb (length results) start b) (rw (lt→ltb _ _ h))

  paginate_last :
      (size start : ℕ) (results : List A)
      → start ≤ length results
      → length (drop start results) ≤ size
      → paginate size start results ≡ (none, drop start results)
  unfolding paginate
  paginate_last size start results b h = rw (le→ltb (length results) start b) (rw (le→ltb _ _ h))

  -- With a positive page size, fewer results than the largest int, and fuel for one page of each
  -- result, following next_page_token from an index inside the results yields exactly the results
  -- from that index on.
  pub walk_complete :
      (fuel size start : ℕ) (results : List A)
      → 0 < size
      → length results < int_limit
      → start ≤ length results
      → length results < start + fuel
      → walk fuel size start results ≡ drop start results
  unfolding walk
  walk_complete zero size start results h l b f = absurd (omega arith)
  walk_complete (suc fuel) size start results h l b f =
      elim (Bool-cases (ltb size (length (drop start results)))) [
        | inl more ↦
            let lt = ltb→lt _ _ more in
            let next = start + size in
            let fits : next < length results = omega (arith, length-drop start results) in
            rw (paginate_more size start results b lt) (
              rw (itoa_given next (omega arith)) (
                rw (walk_complete fuel size next results h l (omega arith) (omega arith)) (
                  rw (← drop-drop size start results)
                    (take-append-drop size (drop start results)))))
        | inr last ↦
            rw (paginate_last size start results b (ground arith)) (append-nil (drop start results))
      ]
