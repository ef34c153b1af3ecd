-- ===== src/Paths.antt =====
-- api/v1alpha1/paths.go: the paths of the embedded OpenAPI document that take a POST. The loading of
-- the document is a parameter; a path of it is read as its POST operation's tags, where it has one.
pub mod Laws
use dcm_kcli_provider.Prelude.{String, Option, none, some, List, [], ◌∷◌, ◌<>◌}
use dcm_kcli_provider.Prelude.Result.{Result, ok, err, ◌>>=◌}
use dcm_kcli_provider.Prelude.Dict.{Dict, insert}

-- A path, in the order of `InMatchingOrder`.
pub record SpecPath : Type 0 where
  pub path : String
  pub post : Option (List String)

abbrev loaded : Result String (List SpecPath) → Result String (List SpecPath)
loaded (ok spec) = ok spec
loaded (err m) = err ("loading OpenAPI spec: " <> m)

first_post : List SpecPath → Result String String
first_post [] = err "no POST path found in OpenAPI spec"
first_post (p ∷ ps) = elim p.post [ some _ ↦ ok p.path | none ↦ first_post ps ]

-- if item.Post != nil && len(item.Post.Tags) > 0 { result[item.Post.Tags[0]] = p }
note_path : Option (List String) → String → Dict String → Dict String
note_path none path result = result
note_path (some []) path result = result
note_path (some (tag ∷ tags)) path result = insert tag path result

paths_loop : List SpecPath → Dict String → Dict String
unfolding note_path
paths_loop [] result = result
paths_loop (p ∷ ps) result = paths_loop ps (note_path p.post p.path result)

abbrev pub nonempty : Dict String → Result String (Dict String)
nonempty [] = err "no POST paths found in OpenAPI spec"
nonempty (e ∷ es) = ok (e ∷ es)

module _ (get_swagger : Result String (List SpecPath)) where
  unfoldable pub post_path : Result String String
  unfolding first_post
  post_path = do spec ← loaded get_swagger; first_post spec

  unfoldable pub post_paths : Result String (Dict String)
  unfolding paths_loop
  post_paths = do spec ← loaded get_swagger; nonempty (paths_loop spec [])
