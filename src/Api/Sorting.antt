-- ===== src/Api/Sorting.antt =====
-- The order of the listings: `sort_entries`, the sort.Slice of internal/api/server/vm_handlers.go and
-- cluster_handlers.go.
pub mod Unique
use Prim.Native.String.compare
use Prim.Native.String.{compare, then}
use Prim.Native.Nat.{Ordering, compare as compare_nat}
use Prim.Native.Char.{code}
use mathlib.Core.List.{Perm}
use mathlib.Core.List.Perm
use mathlib.Core.Path.{ap₂}
use dcm_kcli_provider.Prelude.{
  ℕ, String, ◌≡◌, ◌∙◌, sym, ap, refl, true, false, List, [], ◌∷◌, arith, Bool-cases, inl, inr, suc,
  length,
}
use dcm_kcli_provider.Store.Entry.{ResourceEntry}
use dcm_kcli_provider.Api.Server.{less, insert_entry, sort_entries}

abbrev flip : Ordering → Ordering
flip Ordering.lt = Ordering.gt
flip Ordering.eq = Ordering.eq
flip Ordering.gt = Ordering.lt

compare_nat-flip : (m n : ℕ) → compare_nat n m ≡ flip (compare_nat m n)
compare_nat-flip m n = ground arith

flip-then : (o q : Ordering) → (then) (flip o) (flip q) ≡ flip ((then) o q)
flip-then Ordering.lt q = refl
flip-then Ordering.eq q = refl
flip-then Ordering.gt q = refl

pub compare-flip : (s t : String) → compare t s ≡ flip (compare s t)
compare-flip String.[] String.[] = refl
compare-flip String.[] (String.◌∷◌ d t) =
    compare.cons-nil d t ∙ ap flip (sym (compare.nil-cons d t))
compare-flip (String.◌∷◌ c s) String.[] =
    compare.nil-cons c s ∙ ap flip (sym (compare.cons-nil c s))
compare-flip (String.◌∷◌ c s) (String.◌∷◌ d t) =
    compare.cons-cons d c t s
    ∙ ap₂ (then) (compare_nat-flip (code c) (code d)) (compare-flip s t)
    ∙ flip-then (compare_nat (code c) (code d)) (compare s t)
    ∙ ap flip (sym (compare.cons-cons c d s t))

-- No two entries come before each other.
less_asym : (a b : ResourceEntry) → less a b ≡ true → less b a ≡ false
unfolding less
less_asym a b h = ground (arith, compare-flip a.id b.id)

-- Neighbours are in order: no entry comes before the one that stands in front of it.
pub InOrder : List ResourceEntry → Type 0
InOrder [] = Unit
InOrder (x ∷ []) = Unit
InOrder (x ∷ y ∷ es) = (less y x ≡ false) × InOrder (y ∷ es)

insert-InOrder :
    (e : ResourceEntry) (es : List ResourceEntry) → InOrder es → InOrder (insert_entry e es)
unfolding InOrder insert_entry
insert-InOrder e [] h = tt
insert-InOrder e (x ∷ xs) h = elim (Bool-cases (less x e)) [
  | inl before ↦ rw before (behind x e xs before h)
  | inr after ↦ rw after (after, h)
]
  where
    behind :
        (x e : ResourceEntry) (xs : List ResourceEntry)
        → less x e ≡ true
        → InOrder (x ∷ xs)
        → InOrder (x ∷ insert_entry e xs)
    behind x e [] b h = (less_asym x e b, tt)
    behind x e (y ∷ ys) b h = elim (Bool-cases (less y e)) [
      | inl b' ↦ rw b' (h.0, behind y e ys b' h.1)
      | inr a' ↦ rw a' (less_asym x e b, (a', h.1))
    ]

insert-Perm : (e : ResourceEntry) (es : List ResourceEntry) → Perm (insert_entry e es) (e ∷ es)
unfolding insert_entry
insert-Perm e [] = Perm.rfl
insert-Perm e (x ∷ xs) = elim (Bool-cases (less x e)) [
  | inl h ↦ rw h (Perm.trans (Perm.cons x (insert-Perm e xs)) (Perm.swap e x xs))
  | inr h ↦ rw h Perm.rfl
]

pub sort_entries-InOrder : (es : List ResourceEntry) → InOrder (sort_entries es)
unfolding sort_entries InOrder
sort_entries-InOrder [] = tt
sort_entries-InOrder (e ∷ es) = insert-InOrder e (sort_entries es) (sort_entries-InOrder es)

sort_entries-Perm : (es : List ResourceEntry) → Perm (sort_entries es) es
unfolding sort_entries
sort_entries-Perm [] = Perm.rfl
sort_entries-Perm (e ∷ es) =
    Perm.trans (insert-Perm e (sort_entries es)) (Perm.cons e (sort_entries-Perm es))

-- The order of a listing is a permutation of the entries in which no entry comes before its
-- predecessor by the handlers' comparison: the newest first, and by id among entries of the same
-- time.
pub sort_entries_sorts :
    (es : List ResourceEntry) → InOrder (sort_entries es) × Perm (sort_entries es) es
sort_entries_sorts es = (sort_entries-InOrder es, sort_entries-Perm es)

length-insert :
    (e : ResourceEntry) (es : List ResourceEntry) → length (insert_entry e es) ≡ suc (length es)
unfolding insert_entry
length-insert e [] = refl
length-insert e (x ∷ xs) = elim (Bool-cases (less x e)) [
  | inl h ↦ rw h (ap suc (length-insert e xs))
  | inr h ↦ rw h refl
]

pub length-sort : (es : List ResourceEntry) → length (sort_entries es) ≡ length es
unfolding sort_entries
length-sort [] = refl
length-sort (e ∷ es) = length-insert e (sort_entries es) ∙ ap suc (length-sort es)
