-- ===== src/Api/Hints.antt =====
-- What a client's `provider_hints.kcli` can and cannot put into the parameters sent to kweb.
use dcm_kcli_provider.Prelude.{
  String, ◌≡◌, refl, ◌∙◌, ◌⊎◌, sym, Option-cases, inl, inr, true, false, Option, none, some, List,
  arith, eq_iff,
}
use dcm_kcli_provider.Prelude.Dict.{lookup, contains, lookup-insert}
use dcm_kcli_provider.Kweb.Api.{Value, Fields, end, field, Params}
use dcm_kcli_provider.Api.Types.{ProviderHints}
use dcm_kcli_provider.Api.Helpers.{
  allowed_kcli_hint_keys, slice_contains, merge_hint, merge_loop, kcli_hints, merge_kcli_hints,
}

-- The parameter stood there before the merge, or its key is allowed and not excluded.
abbrev pub IsMerged : List String → String → Params → Params → Type 0
IsMerged exclude_keys k before after =
    (lookup k after ≡ lookup k before)
    ⊎ ((slice_contains allowed_kcli_hint_keys k ≡ true) × (slice_contains exclude_keys k ≡ false))

merge_hint_lem :
    (exclude_keys : List String) (k j : String) (v : Value) (params : Params)
    → IsMerged exclude_keys j params (merge_hint exclude_keys k v params)
unfolding merge_hint
merge_hint_lem exclude_keys k j v params = ground (arith, lookup-insert k j v params, eq_iff k j)

merge_hint-keeps :
    (exclude_keys : List String) (k j : String) (v w : Value) (params : Params)
    → lookup j params ≡ some w
    → lookup j (merge_hint exclude_keys k v params) ≡ some w
unfolding merge_hint contains
merge_hint-keeps exclude_keys k j v w params h =
    ground (arith, lookup-insert k j v params, eq_iff k j)

merge_loop_lem :
    (exclude_keys : List String) (hints : Fields) (j : String) (params : Params)
    → IsMerged exclude_keys j params (merge_loop exclude_keys hints params)
unfolding merge_loop
merge_loop_lem exclude_keys end j params = inl refl
merge_loop_lem exclude_keys (field k v hints) j params =
    elim (merge_loop_lem exclude_keys hints j (merge_hint exclude_keys k v params)) [
      | inr allowed ↦ inr allowed
      | inl same ↦ elim (merge_hint_lem exclude_keys k j v params) [
        | inl same' ↦ inl (same ∙ same')
        | inr allowed ↦ inr allowed
      ]
    ]

merge_loop-keeps :
    (exclude_keys : List String) (hints : Fields) (j : String) (w : Value) (params : Params)
    → lookup j params ≡ some w
    → lookup j (merge_loop exclude_keys hints params) ≡ some w
unfolding merge_loop
merge_loop-keeps exclude_keys end j w params h = h
merge_loop-keeps exclude_keys (field k v hints) j w params h =
    merge_loop-keeps exclude_keys hints j w (merge_hint exclude_keys k v params)
      (merge_hint-keeps exclude_keys k j v w params h)

merge_kcli_hints-allowed :
    (hints : Option ProviderHints) (exclude_keys : List String) (params : Params) (j : String)
    → IsMerged exclude_keys j params (merge_kcli_hints hints exclude_keys params)
unfolding merge_kcli_hints
merge_kcli_hints-allowed hints exclude_keys params j = merged (kcli_hints hints)
  where
    merged :
        (o : Option Fields)
        → IsMerged exclude_keys j params
            (elim o [ none ↦ params | some m ↦ merge_loop exclude_keys m params ])
    merged none = inl refl
    merged (some m) = merge_loop_lem exclude_keys m j params

merge_kcli_hints-keeps :
    (hints : Option ProviderHints) (exclude_keys : List String) (params : Params) (j : String)
    (w : Value)
    → lookup j params ≡ some w
    → lookup j (merge_kcli_hints hints exclude_keys params) ≡ some w
unfolding merge_kcli_hints
merge_kcli_hints-keeps hints exclude_keys params j w h = kept (kcli_hints hints)
  where
    kept :
        (o : Option Fields)
        → lookup j (elim o [ none ↦ params | some m ↦ merge_loop exclude_keys m params ]) ≡ some w
    kept none = h
    kept (some m) = merge_loop-keeps exclude_keys m j w params h

-- Whatever hints a client sends, the merge leaves each parameter as it was, unless it was not set
-- before and its key is on the list of allowed keys and not among the excluded ones.
pub merge_kcli_hints_lem :
    (hints : Option ProviderHints) (exclude_keys : List String) (params : Params) (j : String)
    → (lookup j (merge_kcli_hints hints exclude_keys params) ≡ lookup j params)
      ⊎ ((lookup j params ≡ none)
          × (slice_contains allowed_kcli_hint_keys j ≡ true)
          × (slice_contains exclude_keys j ≡ false))
merge_kcli_hints_lem hints exclude_keys params j =
    elim (merge_kcli_hints-allowed hints exclude_keys params j) [
      | inl same ↦ inl same
      | inr (allowed, free) ↦ elim (Option-cases (lookup j params)) [
        | inl unset ↦ inr (unset, allowed, free)
        | inr (w, set) ↦ inl (merge_kcli_hints-keeps hints exclude_keys params j w set ∙ sym set)
      ]
    ]
