-- ===== src/Api/Json/Runs.antt =====
-- A run of the generated methods on a spec with hints, numbers and objects, and the encoding of its
-- document.
use mathlib.Core.Path.{subst}
use dcm_kcli_provider.Prelude.{
  String, ◌≡◌, refl, ap, Bool, true, false, ◌&&◌, none, some, [], ◌∷◌, ◌==◌, if◌then◌else◌, eq_iff,
  arith, Bool-cases, inl, inr, sym,
}
use dcm_kcli_provider.Prelude.Dict.{Dict, lookup, insert}
use dcm_kcli_provider.Prelude.Result.{ok, err}
use dcm_kcli_provider.Kweb.Api.{Value, float, object, field, end}
use dcm_kcli_provider.Api.Types.{ClusterSpec, ProviderHints}
use dcm_kcli_provider.Api.Json.{Json, write_field, write_rest}
use dcm_kcli_provider.Api.Json.Laws.{Plain, JsonLaws}
use dcm_kcli_provider.Api.Json.Cluster.{zero_spec, marshal_json, unmarshal_json}
use dcm_kcli_provider.Api.Json.RoundTrip.{fields, has_name, unmarshal-marshal_json}

abbrev document : Dict String
document =
    ("metadata", "dev")
    ∷ ("provider_hints", "{\"kcli\":{\"ctlplanes\":4}}")
    ∷ ("service_type", "cluster")
    ∷ ("zone", "{\"rack\":4}")
    ∷ []

abbrev same : Dict String → Dict String → Bool
same [] [] = true
same [] (_ ∷ _) = false
same (_ ∷ _) [] = false
same ((k, r) ∷ d) ((j, s) ∷ e) = (k == j) && ((r == s) && same d e)

same_eq : (d e : Dict String) → same d e ≡ true → d ≡ e
same_eq [] [] h = refl
same_eq [] (_ ∷ _) h = ground arith
same_eq (_ ∷ _) [] h = ground arith
same_eq ((k, r) ∷ d) ((j, s) ∷ e) h = ground (arith, eq_iff k j, eq_iff r s, same_eq d e)

-- The float64 4.
abbrev four : Value
four = float 4616189618054758400

abbrev zone : Value
zone = object (field "rack" four end)

abbrev hints : ProviderHints
hints = ("kcli", object (field "ctlplanes" four end)) ∷ []

-- The hints and the value of the run.
abbrev the_run : Plain
the_run = record { hints = λ h. h ≡ hints; value = λ v. v ≡ zone }

abbrev one_document : Json
one_document = record {
  metadata = record {
    marshal = λ m. ok m.name;
    unmarshal = λ raw. ok (some (record { name = raw }));
  };
  nodes = record { marshal = λ _. err "unsupported"; unmarshal = λ _. ok none };
  provider_hints = record {
    marshal = λ _. ok "{\"kcli\":{\"ctlplanes\":4}}";
    unmarshal = λ _. ok (some hints);
  };
  text = record { marshal = λ t. ok t; unmarshal = λ raw. ok (some raw) };
  marshal_any = λ _. ok "{\"rack\":4}";
  unmarshal_any = λ _. ok zone;
  marshal_object = λ d. if same d document then ok "{}" else err "unsupported";
  unmarshal_object = λ _. ok document;
}

one_document-JsonLaws : JsonLaws (λ _. Unit {0}) the_run one_document
one_document-JsonLaws = record {
  metadata = record {
    back = λ m raw _ h.
        let e : m.name ≡ raw = ground arith in
        (tt, ap (λ x. ok (some (record { name = x }))) (sym e));
  };
  nodes = record { back = λ _ _ _ h. absurd (ground arith) };
  provider_hints = record { back = λ a raw p h. (tt, ap (λ x. ok (some x)) (sym p)) };
  text = record {
    back = λ t raw _ h. let e : t ≡ raw = ground arith in (tt, ap (λ x. ok (some x)) (sym e));
  };
  any_back = λ v raw p h. (tt, ap (λ x. ok x) (sym p));
  any_reads = λ raw _. (zone, refl);
  object_back = λ d b _ h. elim (Bool-cases (same d document)) [
    | inl e ↦ (
      document,
      refl,
      (tt, (tt, (tt, (tt, tt)))),
      λ k. ap (lookup k) (sym (same_eq d document e)),
    )
    | inr e ↦ absurd (ground arith)
  ];
}

abbrev spec : ClusterSpec
spec = record zero_spec {
  metadata = some (record { name = "dev" });
  provider_hints = some hints;
  service_type = "cluster";
  additional_properties = ("zone", zone) ∷ [];
}

apart : (k : String) → has_name fields k ≡ true → lookup k spec.additional_properties ≡ none
unfolding lookup
apart k h = elim (Bool-cases ("zone" == k)) [
  | inl e ↦
      let named : has_name fields "zone" ≡ true =
        subst (λ x. has_name fields x ≡ true) (sym ((eq_iff "zone" k).0 e)) h in
      absurd (ground arith)
  | inr e ↦ rw e refl
]

unmarshal-marshal_json_example :
    (rest : Dict Value) × (unmarshal_json one_document zero_spec "{}"
      ≡ ok (record spec { additional_properties = rest }))
    × ((k : String) → lookup k rest ≡ lookup k spec.additional_properties)
unfolding marshal_json write_field write_rest lookup insert
unmarshal-marshal_json_example =
    unmarshal-marshal_json (λ _. Unit {0}) the_run one_document one_document-JsonLaws spec "{}"
      (refl, (refl, tt)) apart refl
