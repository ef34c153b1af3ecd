-- ===== src/Api/Json/Cluster.antt =====
-- `UnmarshalJSON` and `MarshalJSON` of ClusterSpec (internal/api/server/server.gen.go). What
-- a failed UnmarshalJSON leaves in its receiver is dropped.
use dcm_kcli_provider.Prelude.{String, Option, none, some, [], ◌∷◌}
use dcm_kcli_provider.Prelude.Dict.{Dict}
use dcm_kcli_provider.Prelude.Result.{Result, ok, ◌>>=◌}
use dcm_kcli_provider.Api.Types.{ServiceMetadata, Nodes, ProviderHints, ClusterSpec}
use dcm_kcli_provider.Api.Json.{Json, write_field, write_rest, read_field, read_rest}

-- The spec that a request's body is read into.
abbrev pub zero_spec : ClusterSpec
zero_spec = record {
  metadata = none;
  nodes = none;
  provider_hints = none;
  service_type = "";
  version = none;
  additional_properties = [];
}

abbrev pub set_metadata : Option ServiceMetadata → ClusterSpec → ClusterSpec
set_metadata v a = record a { metadata = v }

abbrev pub set_nodes : Option Nodes → ClusterSpec → ClusterSpec
set_nodes v a = record a { nodes = v }

abbrev pub set_provider_hints : Option ProviderHints → ClusterSpec → ClusterSpec
set_provider_hints v a = record a { provider_hints = v }

abbrev pub set_version : Option String → ClusterSpec → ClusterSpec
set_version v a = record a { version = v }

-- null leaves a field that is no pointer as it is
abbrev pub set_service_type : Option String → ClusterSpec → ClusterSpec
set_service_type none a = a
set_service_type (some t) a = record a { service_type = t }

module _ (J : Json) where
  -- the additional properties, where any are left
  unfoldable pub read_additional : ClusterSpec × Dict String → Result String ClusterSpec
  read_additional (a, []) = ok a
  read_additional (a, p ∷ object) = read_rest J.unmarshal_any (p ∷ object) >>= λ rest.
      ok (record a { additional_properties = rest })

  unfoldable pub unmarshal_json : ClusterSpec → String → Result String ClusterSpec
  unfolding read_additional
  unmarshal_json a b = J.unmarshal_object b >>= λ object.
      read_field "metadata" J.metadata.unmarshal set_metadata (a, object) >>= λ s.
      read_field "nodes" J.nodes.unmarshal set_nodes s >>= λ s.
      read_field "provider_hints" J.provider_hints.unmarshal set_provider_hints s >>= λ s.
      read_field "service_type" J.text.unmarshal set_service_type s >>= λ s.
      read_field "version" J.text.unmarshal set_version s >>= λ s. read_additional s

  unfoldable pub marshal_json : ClusterSpec → Result String String
  marshal_json a = write_field "metadata" J.metadata.marshal a.metadata [] >>= λ o.
      write_field "nodes" J.nodes.marshal a.nodes o >>= λ o.
      write_field "provider_hints" J.provider_hints.marshal a.provider_hints o >>= λ o.
      write_field "service_type" J.text.marshal (some a.service_type) o >>= λ o.
      write_field "version" J.text.marshal a.version o >>= λ o.
      write_rest J.marshal_any a.additional_properties o >>= λ o. J.marshal_object o
