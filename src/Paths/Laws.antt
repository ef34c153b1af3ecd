-- ===== src/Paths/Laws.antt =====
-- What the paths of api/v1alpha1/paths.go are.
use dcm_kcli_provider.Prelude.{
  String, Option, none, some, List, [], ◌∷◌, ◌≡◌, refl, ◌==◌, arith, ◌∙◌, if◌then◌else◌,
}
use dcm_kcli_provider.Prelude.Result.{ok}
use dcm_kcli_provider.Prelude.Dict.{Dict, lookup, lookup-insert}
use dcm_kcli_provider.Paths.{SpecPath, note_path, paths_loop, nonempty, post_paths}

-- The last path of a document whose POST operation has the tag first.
abbrev pub has_tag : String → Option (List String) → String → Option String → Option String
has_tag tag none path later = later
has_tag tag (some []) path later = later
has_tag tag (some (t ∷ ts)) path (some p) = some p
has_tag tag (some (t ∷ ts)) path none = if t == tag then some path else none

pub last_path : String → List SpecPath → Option String
last_path tag [] = none
last_path tag (p ∷ ps) = has_tag tag p.post p.path (last_path tag ps)

or_before : Option String → Option String → Option String
or_before (some p) before = some p
or_before none before = before

has_tag-lookup :
    (tag : String) (post : Option (List String)) (path : String) (later : Option String)
    (result : Dict String)
    → or_before later (lookup tag (note_path post path result))
      ≡ or_before (has_tag tag post path later) (lookup tag result)
unfolding or_before note_path
has_tag-lookup tag none path later result = refl
has_tag-lookup tag (some []) path later result = refl
has_tag-lookup tag (some (t ∷ ts)) path (some p) result = refl
has_tag-lookup tag (some (t ∷ ts)) path none result =
    ground (arith, lookup-insert t tag path result)

paths_loop-lookup :
    (tag : String) (spec : List SpecPath) (result : Dict String)
    → lookup tag (paths_loop spec result) ≡ or_before (last_path tag spec) (lookup tag result)
unfolding paths_loop last_path or_before note_path
paths_loop-lookup tag [] result = refl
paths_loop-lookup tag (p ∷ ps) result =
    let ih = paths_loop-lookup tag ps (note_path p.post p.path result) in
    grind (arith, ih, has_tag-lookup tag p.post p.path (last_path tag ps) result)

nonempty_ok : (d paths : Dict String) → nonempty d ≡ ok paths → paths ≡ d
nonempty_ok [] paths h = ground arith
nonempty_ok (e ∷ es) paths h = ground arith

or_before-none : (o : Option String) → or_before o none ≡ o
unfolding or_before
or_before-none none = refl
or_before-none (some p) = refl

pub post_paths-lookup :
    (spec : List SpecPath) (paths : Dict String) (tag : String)
    → post_paths (ok spec) ≡ ok paths
    → lookup tag paths ≡ last_path tag spec
unfolding post_paths lookup
post_paths-lookup spec paths tag h =
    rw (nonempty_ok (paths_loop spec []) paths h)
      (paths_loop-lookup tag spec [] ∙ or_before-none (last_path tag spec))
