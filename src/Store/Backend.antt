-- ===== src/Store/Backend.antt =====
-- What internal/store/store.go uses of go.etcd.io/bbolt and of encoding/json. Neither is in the
-- repository, so both are parameters; the laws are what their documentation promises.
use dcm_kcli_provider.Prelude.{
  ℕ, String, ◌≡◌, ◌↔◌, Bool, true, Option, none, some, List, ◌==◌, if◌then◌else◌, Member,
}
use dcm_kcli_provider.Prelude.Result.{Result, ok}
use dcm_kcli_provider.Store.Entry.{ResourceEntry, StoreError}

-- `*bolt.Bucket` inside a transaction. `pairs` is the order in which `ForEach` visits the keys.
pub record Bolt : Type 1 where
  pub Bucket : Type 0
  pub get : Bucket → String → Option String
  pub put : Bucket → String → String → Result StoreError Bucket
  pub delete : Bucket → String → Result StoreError Bucket
  pub pairs : Bucket → List (String × String)

pub record BoltLaws (B : Bolt) : Type 0 where
  pub get-put :
      (b b' : B.Bucket) (k v j : String)
      → B.put b k v ≡ ok b'
      → B.get b' j ≡ (if k == j then some v else B.get b j)
  pub get-delete :
      (b b' : B.Bucket) (k j : String)
      → B.delete b k ≡ ok b'
      → B.get b' j ≡ (if k == j then none else B.get b j)
  pub mem-pairs : (b : B.Bucket) (k v : String) → Member (k, v) (B.pairs b) ↔ (B.get b k ≡ some v)

-- The bytes of the type field that the pre-filter of `List` looks for.
abbrev pub type_tag_vm : String
type_tag_vm = "\"type\":\"vm\""

abbrev pub type_tag_cluster : String
type_tag_cluster = "\"type\":\"cluster\""

-- json.Marshal and json.Unmarshal at `ResourceEntry` and at the schema version, the 64-bit pattern of
-- an `int`, and bytes.Contains.
pub record Json : Type 0 where
  pub marshal : ResourceEntry → Result StoreError String
  pub unmarshal : String → Result StoreError ResourceEntry
  pub marshal_version : ℕ → Result StoreError String
  pub unmarshal_version : String → Result StoreError ℕ
  pub has_part : String → String → Bool

-- What was marshalled is read back as it was, and a known type stands in it as a compact field.
pub record JsonLaws (J : Json) : Type 0 where
  pub unmarshal-marshal :
      (e : ResourceEntry) (d : String) → J.marshal e ≡ ok d → J.unmarshal d ≡ ok e
  pub version-marshal :
      (n : ℕ) (d : String) → J.marshal_version n ≡ ok d → J.unmarshal_version d ≡ ok n
  pub tag_vm :
      (e : ResourceEntry) (d : String)
      → J.marshal e ≡ ok d
      → e.kind ≡ "vm"
      → J.has_part d type_tag_vm ≡ true
  pub tag_cluster :
      (e : ResourceEntry) (d : String)
      → J.marshal e ≡ ok d
      → e.kind ≡ "cluster"
      → J.has_part d type_tag_cluster ≡ true
