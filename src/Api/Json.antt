-- ===== src/Api/Json.antt =====
-- What the generated methods `UnmarshalJSON` and `MarshalJSON` of internal/api/server/server.gen.go share:
-- the named fields and the additional properties of an object, over encoding/json as a parameter.
-- Go leaves the order of a `range` over a map open; here it goes from the end of the list.
pub mod Laws
pub mod Cluster
pub mod RoundTrip
pub mod Runs
use dcm_kcli_provider.Prelude.{String, Option, none, some, List, [], ◌∷◌, ◌<>◌}
use dcm_kcli_provider.Prelude.Dict.{Dict, lookup, insert, remove}
use dcm_kcli_provider.Prelude.Result.{Result, ok, err, ◌>>=◌}
use dcm_kcli_provider.Kweb.Api.{Value}
use dcm_kcli_provider.Api.Types.{ServiceMetadata, Nodes, ProviderHints}

-- json.Marshal of a value of type `A` and json.Unmarshal into a pointer to it, which is `none` for null.
pub record Codec (A : Type 0) : Type 0 where
  pub marshal : A → Result String String
  pub unmarshal : String → Result String (Option A)

-- encoding/json, at the types that the methods use it with
pub record Json : Type 0 where
  pub metadata : Codec ServiceMetadata
  pub nodes : Codec Nodes
  pub provider_hints : Codec ProviderHints
  pub text : Codec String
  pub marshal_any : Value → Result String String
  pub unmarshal_any : String → Result String Value
  pub marshal_object : Dict String → Result String String
  pub unmarshal_object : String → Result String (Dict String)

-- a field that is written unless it is nil
unfoldable pub write_field :
    {A : Type 0}
    → String
    → (A → Result String String)
    → Option A
    → Dict String
    → Result String (Dict String)
write_field name marshal none object = ok object
write_field name marshal (some a) object = elim (marshal a) [
  | err e ↦ err ("error marshaling '" <> name <> "': " <> e)
  | ok raw ↦ ok (insert name raw object)
]

-- the additional properties
unfoldable pub write_rest :
    (Value → Result String String) → Dict Value → Dict String → Result String (Dict String)
unfolding write_field
write_rest marshal [] object = ok object
write_rest marshal ((name, v) ∷ rest) object =
    write_rest marshal rest object >>= λ o. write_field name marshal (some v) o

-- a field that is read where the object has it, and taken out of the object
unfoldable pub read_field :
    {A T : Type 0}
    → String
    → (String → Result String (Option A))
    → (Option A → T → T)
    → T × Dict String
    → Result String (T × Dict String)
read_field name unmarshal set (t, object) = elim (lookup name object) [
  | none ↦ ok (t, object)
  | some raw ↦ elim (unmarshal raw) [
    | err e ↦ err ("error reading '" <> name <> "': " <> e)
    | ok v ↦ ok (set v t, remove name object)
  ]
]

-- what is left of the object
unfoldable pub read_rest : (String → Result String Value) → Dict String → Result String (Dict Value)
read_rest unmarshal [] = ok []
read_rest unmarshal ((name, raw) ∷ object) = read_rest unmarshal object >>= λ rest.
    elim (unmarshal raw) [
      | err e ↦ err ("error unmarshaling field " <> name <> ": " <> e)
      | ok v ↦ ok (insert name v rest)
    ]
