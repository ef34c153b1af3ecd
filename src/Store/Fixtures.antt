-- ===== src/Store/Fixtures.antt =====
-- A database whose buckets are dictionaries and a codec of a few entries: bbolt and encoding/json as
-- the runs on concrete data have them.
use dcm_kcli_provider.Prelude.{
  ℕ, String, ◌≡◌, refl, sym, ◌∙◌, ap, ◌⊎◌, inl, inr, ◌↔◌, Bool, true, false, ◌&&◌, ◌||◌, some, List,
  [], ◌∷◌, ◌==◌, arith, eqb, eq_iff, if◌then◌else◌, Member,
}
use text.Mathlib.Text.{starts_with}
use dcm_kcli_provider.Prelude.Result.{Result, ok, err}
use dcm_kcli_provider.Prelude.Dict.{Dict, lookup, insert, remove, lookup-insert, lookup-remove}
use dcm_kcli_provider.Store.Entry.{ResourceEntry, StoreError, json_error}
use dcm_kcli_provider.Store.Backend.{Bolt, BoltLaws, Json, JsonLaws}

unfoldable pub dict_pairs : Dict String → List (String × String)
dict_pairs [] = []
dict_pairs ((k, v) ∷ d) = (k, v) ∷ remove k (dict_pairs d)

abbrev pub dict_bolt : Bolt
dict_bolt = record {
  Bucket = Dict String;
  get = λ b k. lookup k b;
  put = λ b k v. ok (insert k v b);
  delete = λ b k. ok (remove k b);
  pairs = dict_pairs;
}

Member-remove :
    (j k v : String) (d : Dict String)
    → Member (k, v) (remove j d) ↔ (((j == k) ≡ false) × Member (k, v) d)
unfolding remove
Member-remove j k v [] = ((λ h. absurd h), λ h. h.1)
Member-remove j k v ((i, u) ∷ d) =
    ground (arith, Member-remove j k v d, eq_iff j k, eq_iff i j, eq_iff j i)

Member-dict_pairs :
    (d : Dict String) (k v : String) → Member (k, v) (dict_pairs d) ↔ (lookup k d ≡ some v)
unfolding dict_pairs lookup
Member-dict_pairs [] k v = ((λ h. absurd h), λ h. ground arith)
Member-dict_pairs ((i, u) ∷ d) k v =
    ground (arith, Member-dict_pairs d k v, Member-remove i k v (dict_pairs d), eq_iff i k)

pub dict_bolt-BoltLaws : BoltLaws dict_bolt
dict_bolt-BoltLaws = record {
  get-put = λ b b' k v j h. ground (arith, lookup-insert k j v b);
  get-delete = λ b b' k j h. ground (arith, lookup-remove k j b);
  mem-pairs = Member-dict_pairs;
}

abbrev pub web : String → ResourceEntry
web status = record {
  id = "vm-1";
  kcli_name = "dcm-web";
  kind = "vm";
  status = status;
  created_at = 1000;
}

abbrev pub dev : ResourceEntry
dev = record {
  id = "cl-1";
  kcli_name = "dcm-dev";
  kind = "cluster";
  status = "ACTIVE";
  created_at = 2000;
}

abbrev pub leaving_dev : ResourceEntry
leaving_dev = record dev { status = "DELETING" }

unfoldable pub same : ResourceEntry → ResourceEntry → Bool
same a b =
    (a.id == b.id)
    && (a.kcli_name == b.kcli_name)
    && (a.kind == b.kind)
    && (a.status == b.status)
    && eqb a.created_at b.created_at

same_lem : (a b : ResourceEntry) → same a b ≡ true → a ≡ b
unfolding same
same_lem a b h = ground (
  arith,
  eq_iff a.id b.id,
  eq_iff a.kcli_name b.kcli_name,
  eq_iff a.kind b.kind,
  eq_iff a.status b.status,
)

-- bytes.Contains
unfoldable pub has_part : String → String → Bool
has_part String.[] part = starts_with String.[] part
has_part (String.◌∷◌ c s) part =
    let rest = has_part s part in starts_with (String.◌∷◌ c s) part || rest

abbrev pub provisioning_text : String
provisioning_text = "{\"id\":\"vm-1\",\"type\":\"vm\",\"status\":\"PROVISIONING\"}"

abbrev pub running_text : String
running_text = "{\"id\":\"vm-1\",\"type\":\"vm\",\"status\":\"RUNNING\"}"

abbrev pub deleting_text : String
deleting_text = "{\"id\":\"vm-1\",\"type\":\"vm\",\"status\":\"DELETING\"}"

abbrev pub dev_text : String
dev_text = "{\"id\":\"cl-1\",\"type\":\"cluster\",\"status\":\"ACTIVE\"}"

abbrev pub leaving_dev_text : String
leaving_dev_text = "{\"id\":\"cl-1\",\"type\":\"cluster\",\"status\":\"DELETING\"}"

abbrev pub version_text : String
version_text = "1"

abbrev pub later_version_text : String
later_version_text = "2"

unfoldable pub marshal : ResourceEntry → Result StoreError String
unfolding same
marshal e =
    if same e (web "PROVISIONING")
    then ok provisioning_text
    else if same e (web "RUNNING")
    then ok running_text
    else if same e (web "DELETING")
    then ok deleting_text
    else if same e dev
    then ok dev_text
    else if same e leaving_dev
    then ok leaving_dev_text
    else err (json_error "unsupported")

unfoldable pub marshal_version : ℕ → Result StoreError String
marshal_version n = if eqb n 1 then ok version_text else err (json_error "unsupported")

unfoldable pub unmarshal_version : String → Result StoreError ℕ
unmarshal_version d =
    if d == version_text
    then ok 1
    else if d == later_version_text
    then ok 2
    else err (json_error "invalid")

unfoldable pub unmarshal : String → Result StoreError ResourceEntry
unmarshal d =
    if d == provisioning_text
    then ok (web "PROVISIONING")
    else if d == running_text
    then ok (web "RUNNING")
    else if d == deleting_text
    then ok (web "DELETING")
    else if d == dev_text
    then ok dev
    else if d == leaving_dev_text
    then ok leaving_dev
    else err (json_error "invalid")

abbrev pub table_json : Json
table_json = record {
  marshal = marshal;
  unmarshal = unmarshal;
  marshal_version = marshal_version;
  unmarshal_version = unmarshal_version;
  has_part = has_part;
}

-- What was marshalled is one of the five texts.
marshal_cases :
    (e : ResourceEntry) (d : String)
    → marshal e ≡ ok d
    → ((e ≡ web "PROVISIONING") × (d ≡ provisioning_text))
      ⊎ ((e ≡ web "RUNNING") × (d ≡ running_text))
      ⊎ ((e ≡ web "DELETING") × (d ≡ deleting_text))
      ⊎ ((e ≡ dev) × (d ≡ dev_text))
      ⊎ ((e ≡ leaving_dev) × (d ≡ leaving_dev_text))
unfolding marshal
marshal_cases e d h = ground (
  arith,
  same_lem e (web "PROVISIONING"),
  same_lem e (web "RUNNING"),
  same_lem e (web "DELETING"),
  same_lem e dev,
  same_lem e leaving_dev,
)

kinds_differ :
    (e f : ResourceEntry) (kind : String) → e ≡ f → e.kind ≡ kind → (f.kind == kind) ≡ false → ⊥
kinds_differ e f kind h k d =
    let q : f.kind ≡ kind = sym (ap (λ (x : ResourceEntry). x.kind) h) ∙ k in
    ground (arith, eq_iff f.kind kind)

pub table_json-JsonLaws : JsonLaws table_json
unfolding unmarshal has_part marshal_version unmarshal_version
table_json-JsonLaws = record {
  unmarshal-marshal = λ e d h. elim (marshal_cases e d h) [
    | inl c ↦ rw (c.0, c.1) refl
    | inr r ↦ elim r [
      | inl c ↦ rw (c.0, c.1) refl
      | inr r ↦ elim r [
        | inl c ↦ rw (c.0, c.1) refl
        | inr r ↦ elim r [ inl c ↦ rw (c.0, c.1) refl | inr c ↦ rw (c.0, c.1) refl ]
      ]
    ]
  ];
  version-marshal = λ n d h. ground (arith, eq_iff d version_text);
  tag_vm = λ e d h k. elim (marshal_cases e d h) [
    | inl c ↦ rw (c.1) refl
    | inr r ↦ elim r [
      | inl c ↦ rw (c.1) refl
      | inr r ↦ elim r [
        | inl c ↦ rw (c.1) refl
        | inr r ↦ elim r [
          | inl c ↦ absurd (kinds_differ e dev "vm" c.0 k refl)
          | inr c ↦ absurd (kinds_differ e leaving_dev "vm" c.0 k refl)
        ]
      ]
    ]
  ];
  tag_cluster = λ e d h k. elim (marshal_cases e d h) [
    | inl c ↦ absurd (kinds_differ e (web "PROVISIONING") "cluster" c.0 k refl)
    | inr r ↦ elim r [
      | inl c ↦ absurd (kinds_differ e (web "RUNNING") "cluster" c.0 k refl)
      | inr r ↦ elim r [
        | inl c ↦ absurd (kinds_differ e (web "DELETING") "cluster" c.0 k refl)
        | inr r ↦ elim r [ inl c ↦ rw (c.1) refl | inr c ↦ rw (c.1) refl ]
      ]
    ]
  ];
}
