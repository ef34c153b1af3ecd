-- ===== src/Api/Sorting/Unique.antt =====
-- The listings do not depend on the order in which the store gives its entries, nor on how sort.Slice
-- sorts them.
use Prim.Native.String.compare
use Prim.Native.String.{compare}
use Prim.Native.Nat.{Ordering}
use mathlib.Core.Path.{ap₂}
use mathlib.Core.List.{Perm, Mem, mem-cons_self, mem-cons_of_mem, mem-cons, not-mem-nil}
use mathlib.Core.List.Perm
use mathlib.Core.List.{Permᴰ}
use mathlib.Core.List.Permᴰ
use mathlib.Core.Logic.{∥∥₁_elim}
use mathlib.Core.Logic.Or
use mathlib.Core.HLevel.{hedberg}
use native.Mathlib.Nat.{ℕ_set}
use text.Mathlib.TextEquality.{path_by_compare}
use dcm_kcli_provider.Prelude.{
  All, String, ◌≡◌, ◌∙◌, ◌↔◌, sym, ap, refl, true, false, not, List, [], ◌∷◌, ◌==◌, eq_iff, arith,
  Bool-cases, inl, inr,
}
use dcm_kcli_provider.Store.Entry.{ResourceEntry}
use dcm_kcli_provider.Api.Server.{less, insert_entry, sort_entries}
use dcm_kcli_provider.Api.Sorting.{InOrder, compare-flip, sort_entries_sorts}

compare_trans :
    (s t u : String)
    → compare s t ≡ Ordering.lt
    → compare t u ≡ Ordering.lt
    → compare s u ≡ Ordering.lt
compare_trans String.[] t String.[] h k =
    absurd (ground (arith, compare-flip t String.[], compare-flip String.[] t))
compare_trans String.[] t (String.◌∷◌ e u) h k = compare.nil-cons e u
compare_trans (String.◌∷◌ c s) String.[] u h k = absurd (ground (arith, compare.cons-nil c s))
compare_trans (String.◌∷◌ c s) (String.◌∷◌ d t) String.[] h k =
    absurd (ground (arith, compare.cons-nil d t))
compare_trans (String.◌∷◌ c s) (String.◌∷◌ d t) (String.◌∷◌ e u) h k = ground (
  arith,
  compare.cons-cons c d s t,
  compare.cons-cons d e t u,
  compare.cons-cons c e s u,
  compare_trans s t u,
)

-- What is not after x comes before what x comes before.
less_cotrans : (x y z : ResourceEntry) → less z y ≡ true → less x y ≡ false → less z x ≡ true
unfolding less
less_cotrans x y z h k = ground (
  arith,
  compare-flip x.id y.id,
  compare-flip z.id x.id,
  compare_trans z.id y.id x.id,
  path_by_compare x.id y.id,
)

less_total : (x y : ResourceEntry) → ((x.id == y.id) ≡ false) → less x y ≡ not (less y x)
unfolding less
less_total x y h = ground (arith, compare-flip x.id y.id, eq_iff x.id y.id)

string_discrete : Discrete String
string_discrete s t = elim (Bool-cases (s == t)) [
  | inl same ↦ yes ((eq_iff s t).0 same)
  | inr other ↦ no (λ e. absurd (ground (arith, eq_iff s t)))
]

string_set : IsSet String
string_set = hedberg string_discrete

entry_set : IsSet ResourceEntry
entry_set = hlevel (string_set, ℕ_set)

entries_set : IsSet (List ResourceEntry)
entries_set = hlevel (entry_set)

-- Entries with the same id are the same.
abbrev pub HasUniqueIds : List ResourceEntry → Type 0
HasUniqueIds es = (a b : ResourceEntry) → Mem a es → Mem b es → a.id ≡ b.id → a ≡ b

insert_comm_distinct :
    (x y : ResourceEntry) (es : List ResourceEntry)
    → less x y ≡ not (less y x)
    → insert_entry x (insert_entry y es) ≡ insert_entry y (insert_entry x es)
unfolding insert_entry
insert_comm_distinct x y [] t = ground arith
insert_comm_distinct x y (z ∷ zs) t =
    ground (arith, less_cotrans x y z, less_cotrans y x z, insert_comm_distinct x y zs t)

insert_comm :
    (x y : ResourceEntry) (es : List ResourceEntry)
    → (x.id ≡ y.id → x ≡ y)
    → insert_entry x (insert_entry y es) ≡ insert_entry y (insert_entry x es)
insert_comm x y es u = elim (Bool-cases (x.id == y.id)) [
  | inl same ↦ let e : x ≡ y = u ((eq_iff x.id y.id).0 same) in rw e refl
  | inr other ↦ insert_comm_distinct x y es (less_total x y other)
]

sort-Permᴰ :
    {xs ys : List ResourceEntry} → Permᴰ xs ys → HasUniqueIds xs → sort_entries xs ≡ sort_entries ys
unfolding sort_entries
sort-Permᴰ Permᴰ.nil u = refl
sort-Permᴰ (Permᴰ.cons e p) u =
    ap₂ insert_entry e (sort-Permᴰ p (λ a b m n. u a b (mem-cons_of_mem _ m) (mem-cons_of_mem _ n)))
sort-Permᴰ (Permᴰ.swap {a} {b} {l} e f) u =
    insert_comm a b (sort_entries l) (u a b mem-cons_self (mem-cons_of_mem _ mem-cons_self))
    ∙ ap₂ (λ x y. insert_entry x (insert_entry y (sort_entries l))) f e
sort-Permᴰ (Permᴰ.trans p q) u =
    let back = Permᴰ.symm p in
    sort-Permᴰ p u ∙ sort-Permᴰ q (λ a b m n. u a b (Permᴰ.mem back m) (Permᴰ.mem back n))

sort-InOrder : (es : List ResourceEntry) → InOrder es → sort_entries es ≡ es
unfolding sort_entries insert_entry InOrder
sort-InOrder [] h = refl
sort-InOrder (x ∷ []) h = refl
sort-InOrder (x ∷ y ∷ es) h =
    ap (insert_entry x) (sort-InOrder (y ∷ es) h.1) ∙ rw (h.0, insert_entry) refl

-- The listing order is the same for every order in which the store gives entries of distinct ids.
sort-Perm :
    (xs ys : List ResourceEntry) → HasUniqueIds xs → Perm xs ys → sort_entries xs ≡ sort_entries ys
sort-Perm xs ys u p = ∥∥₁_elim p (entries_set _ _) (λ q. sort-Permᴰ q u)

-- No two entries of the list have the same id.
abbrev pub Distinct : List ResourceEntry → Type 0
Distinct [] = Unit
Distinct (e ∷ es) = All (λ x. (x.id == e.id) ≡ false) es × Distinct es

All-Mem :
    (k : String) (a : ResourceEntry) (es : List ResourceEntry)
    → All (λ x. (x.id == k) ≡ false) es
    → Mem a es
    → (a.id ≡ k)
    → ⊥
All-Mem k a [] h m e = not-mem-nil m
All-Mem k a (x ∷ xs) h m e =
    Or.elim (λ p. absurd p) (mem-cons.0 m) (λ (same : a ≡ x). ground (arith, eq_iff x.id k))
      (λ n. All-Mem k a xs h.1 n e)

pub Distinct-HasUniqueIds : (es : List ResourceEntry) → Distinct es → HasUniqueIds es
Distinct-HasUniqueIds [] d a b m n e = absurd (not-mem-nil m)
Distinct-HasUniqueIds (x ∷ xs) d a b m n e =
    Or.elim (entry_set a b) (mem-cons.0 m)
      (λ (p : a ≡ x).
        Or.elim (entry_set a b) (mem-cons.0 n) (λ (q : b ≡ x). p ∙ sym q)
          (λ (q : Mem b xs). absurd (All-Mem x.id b xs d.0 q (sym e ∙ ap ResourceEntry.id p))))
      (λ (p : Mem a xs).
        Or.elim (entry_set a b) (mem-cons.0 n)
          (λ (q : b ≡ x). absurd (All-Mem x.id a xs d.0 p (e ∙ ap ResourceEntry.id q)))
          (λ (q : Mem b xs). Distinct-HasUniqueIds xs d.1 a b p q e))

-- Where no two entries have the same id, a list is a permutation of the entries in which no entry
-- comes before its predecessor by the handlers' comparison exactly when it is their `sort_entries`.
pub sort_entries_unique :
    (es sorted : List ResourceEntry)
    → Distinct es
    → (Perm sorted es × InOrder sorted) ↔ (sorted ≡ sort_entries es)
sort_entries_unique es sorted d =
    let u = Distinct-HasUniqueIds es d in
    (
      λ h. sym (sort-InOrder sorted h.1) ∙ sym (sort-Perm es sorted u (Perm.symm h.0)),
      λ e. rw e ((sort_entries_sorts es).1, (sort_entries_sorts es).0),
    )
