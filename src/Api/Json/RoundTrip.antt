-- ===== src/Api/Json/RoundTrip.antt =====
-- `UnmarshalJSON` of ClusterSpec (internal/api/server/server.gen.go) after its `MarshalJSON`.
use mathlib.Core.Path.{subst}
use dcm_kcli_provider.Prelude.{
  String, ◌≡◌, ◌∙◌, refl, sym, ap, true, false, Bool, Option, none, some, List, [], ◌∷◌, ◌==◌,
  if◌then◌else◌, arith, Bool-cases, inl, inr,
}
use dcm_kcli_provider.Prelude.Dict.{Dict, lookup, remove, lookup-remove}
use dcm_kcli_provider.Prelude.Result.{ok, bind_ok, ◌>>=◌}
use dcm_kcli_provider.Kweb.Api.{Value}
use dcm_kcli_provider.Api.Types.{ClusterSpec}
use dcm_kcli_provider.Api.Json.{Json, write_field, write_rest, read_rest}
use dcm_kcli_provider.Api.Json.Laws.{
  Plain, Always, AllPlain, IsPlainOption, always, AllRaw, JsonLaws, Encodes, member, or_else,
  lookup-member, All-remove, write_field_lem, read_field_lem, Kept, Kept_unique, write_rest_lem,
  read_rest_lem,
}
use dcm_kcli_provider.Api.Json.Cluster.{
  zero_spec, set_metadata, set_nodes, set_provider_hints, set_version, set_service_type,
  read_additional, unmarshal_json, marshal_json,
}

-- The names of the fields.
abbrev pub fields : List String
fields = "metadata" ∷ "nodes" ∷ "provider_hints" ∷ "service_type" ∷ "version" ∷ []

abbrev pub has_name : List String → String → Bool
has_name [] k = false
has_name (name ∷ names) k = if name == k then true else has_name names k

removed : List String → Dict String → Dict String
removed [] o = o
removed (name ∷ names) o = removed names (remove name o)

lookup-removed :
    (names : List String) (k : String) (o : Dict String)
    → lookup k (removed names o) ≡ (if has_name names k then none else lookup k o)
unfolding removed
lookup-removed [] k o = refl
lookup-removed (name ∷ names) k o =
    ground (arith, lookup-removed names k (remove name o), lookup-remove name k o)

removed-AllRaw :
    (IsRaw : String → Type 0) (names : List String) (o : Dict String)
    → AllRaw IsRaw o
    → AllRaw IsRaw (removed names o)
unfolding removed
removed-AllRaw IsRaw [] o raw = raw
removed-AllRaw IsRaw (name ∷ names) o raw =
    removed-AllRaw IsRaw names (remove name o) (All-remove IsRaw name o raw)

-- The object into which the fields have been put, before the additional properties.
named : Option String → Option String → Option String → Option String → Option String → Dict String
named m n h t v = member "version" v (
    member "service_type" t (member "provider_hints" h (member "nodes" n (member "metadata" m []))))

abbrev put_at : String → String → Option String → Option String → Option String
put_at name k r d = if name == k then or_else r d else d

lookup-named :
    (m n h t v : Option String) (k : String)
    → lookup k (named m n h t v)
      ≡ put_at "version" k v (
          put_at "service_type" k t
            (put_at "provider_hints" k h (put_at "nodes" k n (put_at "metadata" k m none))))
unfolding named lookup
lookup-named m n h t v k = rw (lookup-member "version" k v _) (
    rw (lookup-member "service_type" k t _) (
      rw (lookup-member "provider_hints" k h _)
        (rw (lookup-member "nodes" k n _) (rw (lookup-member "metadata" k m []) refl))))

or_else-none : (r : Option String) → or_else r none ≡ r
or_else-none none = refl
or_else-none (some raw) = refl

named_apart :
    (m n h t v : Option String) (k : String)
    → has_name fields k ≡ false
    → lookup k (named m n h t v) ≡ none
named_apart m n h t v k e = rw (lookup-named m n h t v k) (ground arith)

Kept_none : (J : Json) (r : Option String) → Kept J r none → r ≡ none
Kept_none J none k = refl
Kept_none J (some _) k = absurd k

module _ (IsRaw : String → Type 0) (P : Plain) (J : Json) (laws : JsonLaws IsRaw P J) where
  -- The object that the fields are written into.
  record IsWritten (spec : ClusterSpec) (o : Dict String) : Type 0 where
    metadata : Encodes J.metadata spec.metadata (lookup "metadata" o)
    nodes : Encodes J.nodes spec.nodes (lookup "nodes" o)
    provider_hints : Encodes J.provider_hints spec.provider_hints (lookup "provider_hints" o)
    service_type : Encodes J.text (some spec.service_type) (lookup "service_type" o)
    version : Encodes J.text spec.version (lookup "version" o)

  read_additional_lem :
      (a : ClusterSpec) (o : Dict String) (rest : Dict Value)
      → a.additional_properties ≡ []
      → read_rest J.unmarshal_any o ≡ ok rest
      → read_additional J (a, o) ≡ ok (record a { additional_properties = rest })
  unfolding read_additional read_rest
  read_additional_lem a [] rest n e =
      let q : [] ≡ rest = ground arith in
      ap (λ m. ok (record a { additional_properties = m })) (n ∙ q)
  read_additional_lem a (p ∷ o) rest n e = rw (e, read_additional) refl

  -- Where every field's member is in the object, the fields are read as they were, and what is left is
  -- read as the additional properties.
  reads :
      (spec : ClusterSpec) (b : String) (o : Dict String)
      → IsWritten spec o
      → AllRaw IsRaw o
      → J.unmarshal_object b ≡ ok o
      → (rest : Dict Value) × (unmarshal_json J zero_spec b
          ≡ ok (record spec { additional_properties = rest }))
        × ((k : String) → Kept J (if has_name fields k then none else lookup k o) (lookup k rest))
  unfolding unmarshal_json removed read_additional
  reads spec b o w raw h =
      let o₁ = remove "metadata" o in
      let o₂ = remove "nodes" o₁ in
      let o₃ = remove "provider_hints" o₂ in
      let o₄ = remove "service_type" o₃ in
      let a₁ = set_metadata spec.metadata zero_spec in
      let a₂ = set_nodes spec.nodes a₁ in
      let a₃ = set_provider_hints spec.provider_hints a₂ in
      let a₄ = set_service_type (some spec.service_type) a₃ in
      let (rest, e, kept) = read_rest_lem IsRaw P J laws _ (removed-AllRaw IsRaw fields o raw) in
      (
        rest,
        rw h (
            rw
              (read_field_lem J.metadata "metadata" spec.metadata _ set_metadata zero_spec o refl
                w.metadata refl)
              (rw
                (read_field_lem J.nodes "nodes" spec.nodes _ set_nodes a₁ o₁
                  (lookup-removed ("metadata" ∷ []) "nodes" o) w.nodes refl)
                (rw
                  (read_field_lem J.provider_hints "provider_hints" spec.provider_hints _
                    set_provider_hints a₂ o₂
                    (lookup-removed ("metadata" ∷ "nodes" ∷ []) "provider_hints" o) w.provider_hints
                    refl)
                  (rw
                    (read_field_lem J.text "service_type" (some spec.service_type) _
                      set_service_type a₃ o₃
                      (lookup-removed ("metadata" ∷ "nodes" ∷ "provider_hints" ∷ []) "service_type"
                        o)
                      w.service_type refl)
                    (rw
                      (read_field_lem J.text "version" spec.version _ set_version a₄ o₄
                        (lookup-removed
                          ("metadata" ∷ "nodes" ∷ "provider_hints" ∷ "service_type" ∷ []) "version"
                          o)
                        w.version refl)
                      (read_additional_lem _ (removed fields o) rest refl e)))))),
        λ k. subst (λ r. Kept J r (lookup k rest)) (lookup-removed fields k o) (kept k),
      )

  named-IsWritten :
      (spec : ClusterSpec) (m n h t v : Option String)
      → Encodes J.metadata spec.metadata m
      → Encodes J.nodes spec.nodes n
      → Encodes J.provider_hints spec.provider_hints h
      → Encodes J.text (some spec.service_type) t
      → Encodes J.text spec.version v
      → IsWritten spec (named m n h t v)
  named-IsWritten spec m n h t v em en eh et ev =
      let at = lookup-named m n h t v in
      record {
        metadata = rw (at "metadata", or_else-none m) em;
        nodes = rw (at "nodes", or_else-none n) en;
        provider_hints = rw (at "provider_hints", or_else-none h) eh;
        service_type = rw (at "service_type", or_else-none t) et;
        version = rw (at "version", or_else-none v) ev;
      }

  -- The fields of an object stay read where another has the same members for them.
  IsWritten-agrees :
      (spec : ClusterSpec) (o o' : Dict String)
      → ((k : String) → has_name fields k ≡ true → lookup k o' ≡ lookup k o)
      → IsWritten spec o
      → IsWritten spec o'
  IsWritten-agrees spec o o' agree w = record {
    metadata = rw (agree "metadata" refl) w.metadata;
    nodes = rw (agree "nodes" refl) w.nodes;
    provider_hints = rw (agree "provider_hints" refl) w.provider_hints;
    service_type = rw (agree "service_type" refl) w.service_type;
    version = rw (agree "version" refl) w.version;
  }

  -- MarshalJSON writes the fields, then the additional properties.
  writes :
      (spec : ClusterSpec) (b : String)
      → IsPlainOption P.hints spec.provider_hints
      → marshal_json J spec ≡ ok b
      → (o : Dict String) × IsWritten spec o
        × AllRaw IsRaw o
        × ((k : String) → has_name fields k ≡ false → lookup k o ≡ none)
        × ((write_rest J.marshal_any spec.additional_properties o >>= J.marshal_object) ≡ ok b)
  unfolding marshal_json named
  writes spec b plain h =
      let (o₁, h₁, k₁) = bind_ok (write_field "metadata" J.metadata.marshal spec.metadata []) _ h in
      let (m, em, p₁, raw₁) =
        write_field_lem IsRaw Always J.metadata laws.metadata "metadata" _ [] o₁
          (always spec.metadata) tt h₁ in
      let (o₂, h₂, k₂) = bind_ok (write_field "nodes" J.nodes.marshal spec.nodes o₁) _ k₁ in
      let (n, en, p₂, raw₂) =
        write_field_lem IsRaw Always J.nodes laws.nodes "nodes" _ o₁ o₂ (always spec.nodes) raw₁
          h₂ in
      let (o₃, h₃, k₃) =
        bind_ok (write_field "provider_hints" J.provider_hints.marshal spec.provider_hints o₂) _
          k₂ in
      let (ph, ep, p₃, raw₃) =
        write_field_lem IsRaw P.hints J.provider_hints laws.provider_hints "provider_hints" _ o₂ o₃
          plain raw₂ h₃ in
      let (o₄, h₄, k₄) =
        bind_ok (write_field "service_type" J.text.marshal (some spec.service_type) o₃) _ k₃ in
      let (t, et, p₄, raw₄) =
        write_field_lem IsRaw Always J.text laws.text "service_type" _ o₃ o₄ tt raw₃ h₄ in
      let (o₅, h₅, k₅) = bind_ok (write_field "version" J.text.marshal spec.version o₄) _ k₄ in
      let (v, ev, p₅, raw₅) =
        write_field_lem IsRaw Always J.text laws.text "version" _ o₄ o₅ (always spec.version) raw₄
          h₅ in
      let q : o₅ ≡ named m n ph t v =
        p₅
        ∙ ap (member "version" v) (
            p₄
            ∙ ap (member "service_type" t)
                (p₃ ∙ ap (member "provider_hints" ph) (p₂ ∙ ap (member "nodes" n) p₁))) in
      (
        o₅,
        subst (IsWritten spec) (sym q) (named-IsWritten spec m n ph t v em en ep et ev),
        raw₅,
        λ k e. ap (lookup k) q ∙ named_apart m n ph t v k e,
        k₅,
      )

  -- Where the hints and the additional properties are as decoding makes them, encoding/json gives
  -- back what it has encoded of such values, ClusterSpec's MarshalJSON succeeds and no additional
  -- property has a field's name, UnmarshalJSON of its result into a new spec succeeds and gives back
  -- every field and every additional property.
  pub unmarshal-marshal_json :
      (spec : ClusterSpec) (b : String)
      → IsPlainOption P.hints spec.provider_hints × AllPlain P spec.additional_properties
      → ((k : String) → has_name fields k ≡ true → lookup k spec.additional_properties ≡ none)
      → marshal_json J spec ≡ ok b
      → (rest : Dict Value) × (unmarshal_json J zero_spec b
          ≡ ok (record spec { additional_properties = rest }))
        × ((k : String) → lookup k rest ≡ lookup k spec.additional_properties)
  unmarshal-marshal_json spec b plain apart h =
      let (o₅, w, raw₅, none_at, k₅) = writes spec b plain.0 h in
      let (o₆, h₆, k₆) =
        bind_ok (write_rest J.marshal_any spec.additional_properties o₅) J.marshal_object k₅ in
      let (raw₆, at) =
        write_rest_lem IsRaw P J laws spec.additional_properties o₅ o₆ plain.1 raw₅ h₆ in
      let (o, back, raw, same) = laws.object_back o₆ b raw₆ k₆ in
      let agree : (k : String) → has_name fields k ≡ true → lookup k o ≡ lookup k o₅ = λ k e.
        let (r, kept, here) = at k in
        let q : r ≡ none = Kept_none J r (subst (Kept J r) (apart k e) kept) in
        same k ∙ (here ∙ ap (λ x. or_else x (lookup k o₅)) q) in
      let (rest, read, kept) = reads spec b o (IsWritten-agrees spec o₅ o agree w) raw back in
      (
        rest,
        read,
        λ k. elim (Bool-cases (has_name fields k)) [
          | inl e ↦
              let left : Kept J none (lookup k rest) =
                subst (λ c. Kept J (if c then none else lookup k o) (lookup k rest)) e (kept k) in
              Kept_unique J none _ _ left (rw (apart k e) tt)
          | inr e ↦
              let (r, kept', here) = at k in
              let q : lookup k o ≡ r =
                same k ∙ (here ∙ (ap (or_else r) (none_at k e) ∙ or_else-none r)) in
              let left : Kept J (lookup k o) (lookup k rest) =
                subst (λ c. Kept J (if c then none else lookup k o) (lookup k rest)) e (kept k) in
              Kept_unique J r _ _ (subst (λ x. Kept J x (lookup k rest)) q left) kept'
        ],
      )
