-- ===== src/Prelude/Dict.antt =====
-- Go's `map[string]V`, as an association list. `range` over a map walks the list: Go leaves the
-- order open, and a statement here that depends on it says so.
use Prim.Native.String.{String}
use mathlib.Core.Path.{◌≡◌, refl}
use mathlib.Core.Bool.{Bool, true, false, ◌||◌}
use mathlib.Core.Option.{Option, none, some}
use mathlib.Core.List.{List, [], ◌∷◌}
use native.Mathlib.Omega.{arith}
use text.Mathlib.Text.{◌==◌}
use text.Mathlib.TextEquality.{eq_iff}
use dcm_kcli_provider.Prelude.Tests.{if◌then◌else◌}

abbrev pub Dict {ℓ} : Type ℓ → Type ℓ
Dict V = List (String × V)

module _ {ℓ} {V : Type ℓ} where
  -- v, ok := d[k]
  unfoldable pub lookup : String → Dict V → Option V
  lookup k [] = none
  lookup k ((j, v) ∷ d) = if j == k then some v else lookup k d

  -- d[k] = v
  unfoldable pub insert : String → V → Dict V → Dict V
  insert k v [] = (k, v) ∷ []
  insert k v ((j, w) ∷ d) = if j == k then (k, v) ∷ d else (j, w) ∷ insert k v d

  -- delete(d, k)
  unfoldable pub remove : String → Dict V → Dict V
  remove k [] = []
  remove k ((j, v) ∷ d) = let rest = remove k d in if j == k then rest else (j, v) ∷ rest

  pub lookup-insert :
      (k j : String) (v : V) (d : Dict V)
      → lookup j (insert k v d) ≡ (if k == j then some v else lookup j d)
  unfolding lookup insert
  lookup-insert k j v [] = refl
  lookup-insert k j v ((i, w) ∷ d) =
      ground (arith, eq_iff k j, eq_iff i k, eq_iff i j, lookup-insert k j v d)

  pub lookup-remove :
      (k j : String) (d : Dict V) → lookup j (remove k d) ≡ (if k == j then none else lookup j d)
  unfolding lookup remove
  lookup-remove k j [] = ground arith
  lookup-remove k j ((i, w) ∷ d) =
      ground (arith, eq_iff k j, eq_iff i k, eq_iff i j, lookup-remove k j d)

-- _, ok := d[k]
unfoldable pub contains {ℓ} : {V : Type ℓ} → String → Dict V → Bool
contains k d = elim (lookup k d) [ none ↦ false | some _ ↦ true ]

pub ruleset dict_laws = (lookup-insert, lookup-remove)

module _ {ℓ} {V : Type ℓ} where
  pub contains-insert :
      (k j : String) (v : V) (d : Dict V)
      → contains j (insert k v d) ≡ (if k == j then true else contains j d)
  unfolding contains
  contains-insert k j v d = ground (arith, lookup-insert k j v d)

  pub contains-remove :
      (k j : String) (d : Dict V)
      → contains j (remove k d) ≡ (if k == j then false else contains j d)
  unfolding contains
  contains-remove k j d = ground (arith, lookup-remove k j d)

  pub contains-cons :
      (i j : String) (v : V) (d : Dict V) → contains j ((i, v) ∷ d) ≡ ((i == j) || contains j d)
  unfolding contains lookup
  contains-cons i j v d = ground arith

pub contains-nil {ℓ} : (V : Type ℓ) (j : String) → contains {V = V} j [] ≡ false
unfolding contains lookup
contains-nil V j = refl
