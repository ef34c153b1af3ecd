-- ===== src/Api/Json/Laws.antt =====
-- What the round trips of the generated methods (internal/api/server/server.gen.go) ask of encoding/json,
-- and their parts: one field, and the additional properties.
use mathlib.Core.Path.{subst}
use dcm_kcli_provider.Prelude.{
  All, String, ◌≡◌, ◌∙◌, refl, sym, ap, Option, none, some, [], ◌∷◌, ◌==◌, if◌then◌else◌, arith,
  Bool-cases, inl, inr,
}
use dcm_kcli_provider.Prelude.Dict.{Dict, lookup, insert, remove, lookup-insert}
use dcm_kcli_provider.Prelude.Result.{ok, Result-cases, bind_ok}
use dcm_kcli_provider.Kweb.Api.{Value}
use dcm_kcli_provider.Api.Types.{ProviderHints}
use dcm_kcli_provider.Api.Json.{Codec, Json, write_field, write_rest, read_field, read_rest}

abbrev pub AllRaw : (String → Type 0) → Dict String → Type 0
AllRaw IsRaw = All (λ p. IsRaw p.1)

-- What is encoded can be decoded, to the same value, where the value is as decoding makes it.
pub record CodecLaws (IsRaw : String → Type 0) {A : Type 0} (IsPlain : A → Type 0) (c : Codec A)
    : Type 0 where
  pub back :
      (a : A) (raw : String)
      → IsPlain a
      → c.marshal a ≡ ok raw
      → IsRaw raw × (c.unmarshal raw ≡ ok (some a))

-- What is read out of a text keeps its form when it is written and read again: numbers are float64 and
-- the keys of a map, which json.Marshal sorts, are in order. `hints` and `value` tell the maps and
-- the values of this form; the other types have one form only.
pub record Plain : Type 1 where
  pub hints : ProviderHints → Type 0
  pub value : Value → Type 0

abbrev pub Always : {A : Type 0} → A → Type 0
Always _ = Unit

-- The additional properties are of this form, by name.
abbrev pub AllPlain : Plain → Dict Value → Type 0
AllPlain P = All (λ p. P.value p.1)

-- encoding/json keeps its values; an object's members are JSON texts, which it may put in another
-- order, and every JSON text can be read into an `interface{}`.
pub record JsonLaws (IsRaw : String → Type 0) (P : Plain) (J : Json) : Type 0 where
  pub metadata : CodecLaws IsRaw Always J.metadata
  pub nodes : CodecLaws IsRaw Always J.nodes
  pub provider_hints : CodecLaws IsRaw P.hints J.provider_hints
  pub text : CodecLaws IsRaw Always J.text
  pub any_back :
      (v : Value) (raw : String)
      → P.value v
      → J.marshal_any v ≡ ok raw
      → IsRaw raw × (J.unmarshal_any raw ≡ ok v)
  pub any_reads : (raw : String) → IsRaw raw → (v : Value) × (J.unmarshal_any raw ≡ ok v)
  pub object_back :
      (object : Dict String) (b : String)
      → AllRaw IsRaw object
      → J.marshal_object object ≡ ok b
      → (read : Dict String) × (J.unmarshal_object b ≡ ok read)
        × AllRaw IsRaw read
        × ((k : String) → lookup k read ≡ lookup k object)

-- A field's member of the object, if it has one.
abbrev pub Encodes : {A : Type 0} → Codec A → Option A → Option String → Type 0
Encodes c none none = Unit
Encodes c (some a) (some raw) = c.unmarshal raw ≡ ok (some a)
Encodes c none (some _) = ⊥
Encodes c (some _) none = ⊥

abbrev pub member : String → Option String → Dict String → Dict String
member name none object = object
member name (some raw) object = insert name raw object

abbrev pub or_else : {A : Type 0} → Option A → Option A → Option A
or_else none d = d
or_else (some a) d = some a

pub lookup-member :
    (name k : String) (r : Option String) (object : Dict String)
    → lookup k (member name r object)
      ≡ (if name == k then or_else r (lookup k object) else lookup k object)
lookup-member name k none object = ground arith
lookup-member name k (some raw) object = lookup-insert name k raw object

module _ {B : Type 0} (P : B → Type 0) where
  All-insert :
      (k : String) (v : B) (d : Dict B) → P v → All (λ p. P p.1) d → All (λ p. P p.1) (insert k v d)
  unfolding insert
  All-insert k v [] h a = (h, tt)
  All-insert k v ((j, w) ∷ d) h a = elim (Bool-cases (j == k)) [
    | inl e ↦ rw e (h, a.1)
    | inr e ↦ rw e (a.0, All-insert k v d h a.1)
  ]

  pub All-remove : (k : String) (d : Dict B) → All (λ p. P p.1) d → All (λ p. P p.1) (remove k d)
  unfolding remove
  All-remove k [] a = tt
  All-remove k ((j, w) ∷ d) a = elim (Bool-cases (j == k)) [
    | inl e ↦ rw e (All-remove k d a.1)
    | inr e ↦ rw e (a.0, All-remove k d a.1)
  ]

remove_absent : {B : Type 0} (k : String) (d : Dict B) → lookup k d ≡ none → remove k d ≡ d
unfolding remove lookup
remove_absent k [] h = refl
remove_absent k ((j, w) ∷ d) h = elim (Bool-cases (j == k)) [
  | inl e ↦ absurd (ground arith)
  | inr e ↦ ground (arith, remove_absent k d)
]

abbrev pub IsPlainOption : {A : Type 0} → (A → Type 0) → Option A → Type 0
IsPlainOption IsPlain none = Unit
IsPlainOption IsPlain (some a) = IsPlain a

pub always : {A : Type 0} (v : Option A) → IsPlainOption Always v
always none = tt
always (some a) = tt

module _ (IsRaw : String → Type 0) {A : Type 0} (IsPlain : A → Type 0) (c : Codec A)
    (laws : CodecLaws IsRaw IsPlain c) where
  pub write_field_lem :
      (name : String) (v : Option A) (object object' : Dict String)
      → IsPlainOption IsPlain v
      → AllRaw IsRaw object
      → write_field name c.marshal v object ≡ ok object'
      → (r : Option String) × Encodes c v r
        × (object' ≡ member name r object)
        × AllRaw IsRaw object'
  unfolding write_field
  write_field_lem name none object object' plain a h =
      let e : object ≡ object' = cc in (none, tt, sym e, subst (AllRaw IsRaw) e a)
  write_field_lem name (some x) object object' plain a h = elim (Result-cases (c.marshal x)) [
    | inl (e, m) ↦ absurd (ground arith)
    | inr (raw, m) ↦
        let (valid, read) = laws.back x raw plain m in
        let q : insert name raw object ≡ object' = ground arith in
        (some raw, read, sym q, subst (AllRaw IsRaw) q (All-insert IsRaw name raw object valid a))
  ]

-- Reading a member that encodes a value.
pub read_field_lem :
    {A T : Type 0} (c : Codec A) (name : String) (v : Option A) (r : Option String)
    (set : Option A → T → T) (t : T) (object : Dict String)
    → lookup name object ≡ r
    → Encodes c v r
    → set none t ≡ t
    → read_field name c.unmarshal set (t, object) ≡ ok (set v t, remove name object)
unfolding read_field
read_field_lem c name none none set t object h e z =
    rw (h, read_field) (rw (z, remove_absent name object h) refl)
read_field_lem c name none (some _) set t object h e z = absurd e
read_field_lem c name (some _) none set t object h e z = absurd e
read_field_lem c name (some a) (some raw) set t object h e z = rw (h, read_field) (rw e refl)

-- What the additional properties have under a name.
abbrev pub Kept : Json → Option String → Option Value → Type 0
Kept J none none = Unit
Kept J (some raw) (some v) = J.unmarshal_any raw ≡ ok v
Kept J none (some _) = ⊥
Kept J (some _) none = ⊥

pub Kept_unique :
    (J : Json) (r : Option String) (v v' : Option Value) → Kept J r v → Kept J r v' → v ≡ v'
Kept_unique J none none none h k = refl
Kept_unique J none none (some _) h k = absurd k
Kept_unique J none (some _) v' h k = absurd h
Kept_unique J (some raw) none v' h k = absurd h
Kept_unique J (some raw) (some v) none h k = absurd k
Kept_unique J (some raw) (some v) (some v') h k = let e : ok v ≡ ok v' = sym h ∙ k in ground arith

module _ (IsRaw : String → Type 0) (P : Plain) (J : Json) (laws : JsonLaws IsRaw P J) where
  pub write_rest_lem :
      (m : Dict Value) (object object' : Dict String)
      → AllPlain P m
      → AllRaw IsRaw object
      → write_rest J.marshal_any m object ≡ ok object'
      → AllRaw IsRaw object'
        × ((k : String)
            → (r : Option String) × Kept J r (lookup k m)
              × (lookup k object' ≡ or_else r (lookup k object)))
  unfolding write_rest lookup
  write_rest_lem [] object object' plain a h =
      let e : object ≡ object' = cc in
      (subst (AllRaw IsRaw) e a, λ k. (none, tt, ap (lookup k) (sym e)))
  write_rest_lem ((name, v) ∷ m) object object' plain a h =
      let (o, h₁, h₂) = bind_ok (write_rest J.marshal_any m object) _ h in
      let (a', rest) = write_rest_lem m object o plain.1 a h₁ in
      elim (Result-cases (J.marshal_any v)) [
        | inl (e, q) ↦ absurd (ground arith)
        | inr (raw, q) ↦
            let (valid, back) = laws.any_back v raw plain.0 q in
            let put : insert name raw o ≡ object' = ground arith in
            (
              subst (AllRaw IsRaw) put (All-insert IsRaw name raw o valid a'),
              λ k. elim (Bool-cases (name == k)) [
                | inl same ↦ (
                  some raw,
                  rw same back,
                  ap (lookup k) (sym put) ∙ (lookup-insert name k raw o ∙ rw same refl),
                )
                | inr other ↦
                    let (r, kept, at) = rest k in
                    (
                      r,
                      rw other kept,
                      ap (lookup k) (sym put) ∙ (lookup-insert name k raw o ∙ rw other at),
                    )
              ],
            )
      ]

  pub read_rest_lem :
      (object : Dict String)
      → AllRaw IsRaw object
      → (m : Dict Value) × (read_rest J.unmarshal_any object ≡ ok m)
        × ((k : String) → Kept J (lookup k object) (lookup k m))
  unfolding read_rest lookup
  read_rest_lem [] a = ([], refl, λ k. tt)
  read_rest_lem ((name, raw) ∷ object) a =
      let (m, h, kept) = read_rest_lem object a.1 in
      let (v, e) = laws.any_reads raw a.0 in
      (
        insert name v m,
        rw h (rw (e, read_rest) refl),
        λ k.
            rw (lookup-insert name k v m)
              (elim (Bool-cases (name == k)) [ inl q ↦ rw q e | inr q ↦ rw q (kept k) ]),
      )
