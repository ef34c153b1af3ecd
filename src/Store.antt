-- ===== src/Store.antt =====
-- internal/store/store.go: the persistent store, over the parameters of Store/Backend. A method that
-- opens a write transaction returns the new state; what commits a transaction outside the program
-- (`db.Update` of bbolt) either succeeds or gives an error and leaves the database as it was, and
-- `faults` lists those outcomes in advance, one for each transaction that reaches its commit.
pub mod Entry
pub mod Backend
pub mod Laws
pub mod Index
pub mod Reachable
pub mod Listing
pub mod Contract
pub mod Fixtures
pub mod Memory
pub mod Opening
pub mod Runs
use dcm_kcli_provider.Prelude.{
  ℕ, zero, suc, ◌-◌, ◌≡◌, refl, String, Bool, true, false, not, ◌&&◌, Option, none, some, List, [],
  ◌∷◌, ◌==◌, if◌then◌else◌, leb,
}
use dcm_kcli_provider.Prelude.Result.{Result, ok, err, ◌>>=◌}
use dcm_kcli_provider.Text.{int_limit}
use Entry.{ResourceEntry, StoreError, not_found, StateStore}
use Backend.{Bolt, Json, type_tag_vm, type_tag_cluster}

abbrev pub current_schema_version : ℕ
current_schema_version = 1

abbrev pub version_key : String
version_key = "schema_version"

abbrev pub type_tag : String → Option String
type_tag kind =
    if kind == "vm"
    then some type_tag_vm
    else if kind == "cluster"
    then some type_tag_cluster
    else none

module _ (B : Bolt) where
  -- the three buckets of the file
  pub record Db : Type 0 where
    pub resources : B.Bucket
    pub name_index : B.Bucket
    pub meta : B.Bucket

  pub record Store : Type 0 where
    pub db : Db
    pub faults : List (Option StoreError)

  -- the end of `db.Update`: commit what the function made of the database, or keep what there was
  commit : Db → Db → List (Option StoreError) → Result StoreError (Unit {0}) × Store
  commit old new [] = (ok tt, record { db = new; faults = [] })
  commit old new (none ∷ later) = (ok tt, record { db = new; faults = later })
  commit old new (some e ∷ later) = (err e, record { db = old; faults = later })

  -- db.Update(fn)
  pub update : (Db → Result StoreError Db) → Store → Result StoreError (Unit {0}) × Store
  unfolding commit
  update fn s = elim (fn s.db) [ err e ↦ (err e, s) | ok new ↦ commit s.db new s.faults ]

module _ (B : Bolt) (J : Json) where
  pub put_tx : ResourceEntry → Db B → Result StoreError (Db B)
  put_tx entry db = do
    payload ← J.marshal entry
    resources ← B.put db.resources entry.id payload
    name_index ← B.put db.name_index entry.kcli_name entry.id
    ok (record db { resources = resources; name_index = name_index })

  pub put : ResourceEntry → Store B → Result StoreError (Unit {0}) × Store B
  put entry = update B (put_tx entry)

  unfoldable pub get : String → Store B → Result StoreError ResourceEntry
  get id s = elim (B.get s.db.resources id) [
    | none ↦ err not_found
    | some payload ↦ J.unmarshal payload
  ]

  -- `typeTag` gives no tag for another type, and then every entry is decoded
  pub tag_skips : Option String → String → Bool
  tag_skips none payload = false
  tag_skips (some tag) payload = not (J.has_part payload tag)

  -- the callback of `ForEach`, over the pairs that are left
  pub list_loop :
      (ResourceEntry → Bool)
      → Option String
      → List (String × String)
      → Result StoreError (List ResourceEntry)
  unfolding tag_skips
  list_loop wanted tag [] = ok []
  list_loop wanted tag ((k, payload) ∷ pairs) =
      let rest = list_loop wanted tag pairs in
      if tag_skips tag payload then rest else do
        entry ← J.unmarshal payload
        entries ← rest
        ok (if wanted entry then entry ∷ entries else entries)

  -- Where an entry does not decode the source returns the entries before it beside the error; every
  -- caller drops them.
  pub list : String → Store B → Result StoreError (List ResourceEntry)
  list kind s = list_loop (λ entry. entry.kind == kind) (type_tag kind) (B.pairs s.db.resources)

  pub list_by_status : String → String → Store B → Result StoreError (List ResourceEntry)
  list_by_status kind status s =
      list_loop (λ entry. (entry.kind == kind) && (entry.status == status)) (type_tag kind)
        (B.pairs s.db.resources)

  pub list_all : Store B → Result StoreError (List ResourceEntry)
  list_all s = list_loop (λ _. true) none (B.pairs s.db.resources)

  pub or_same : B.Bucket → Result StoreError B.Bucket → B.Bucket
  or_same old (ok new) = new
  or_same old (err e) = old

  -- the name is taken out of the index only if the entry decodes, and an error there is dropped
  pub unindexed : Db B → Option String → B.Bucket
  unfolding or_same
  unindexed db none = db.name_index
  unindexed db (some payload) = elim (J.unmarshal payload) [
    | ok entry ↦ or_same db.name_index (B.delete db.name_index entry.kcli_name)
    | err e ↦ db.name_index
  ]

  pub delete_tx : String → Db B → Result StoreError (Db B)
  unfolding unindexed
  delete_tx id db = do
    let name_index = unindexed db (B.get db.resources id)
    resources ← B.delete db.resources id
    ok (record db { resources = resources; name_index = name_index })

  pub delete : String → Store B → Result StoreError (Unit {0}) × Store B
  delete id = update B (delete_tx id)

  pub update_status_tx : String → String → Db B → Result StoreError (Db B)
  update_status_tx id new_status db = elim (B.get db.resources id) [
    | none ↦ err not_found
    | some payload ↦ do
      entry ← J.unmarshal payload
      updated ← J.marshal (record entry { status = new_status })
      resources ← B.put db.resources id updated
      ok (record db { resources = resources })
  ]

  pub update_status : String → String → Store B → Result StoreError (Unit {0}) × Store B
  update_status id new_status = update B (update_status_tx id new_status)

  pub resolve_kcli_name : String → Store B → Result StoreError String
  resolve_kcli_name dcm_id s = do entry ← get dcm_id s; ok entry.kcli_name

  pub find_by_kcli_name : String → Store B → Result StoreError ResourceEntry
  unfolding get
  find_by_kcli_name name s = elim (B.get s.db.name_index name) [
    | none ↦ err not_found
    | some id ↦ get id s
  ]

  -- what the monitor and the handlers are given
  unfoldable pub bolt_store : StateStore (Store B)
  bolt_store = record {
    put = put;
    get = get;
    list = list;
    list_all = list_all;
    delete = delete;
    update_status = update_status;
    resolve_kcli_name = resolve_kcli_name;
    find_by_kcli_name = find_by_kcli_name;
  }

  -- `migrations`: index 0 would take version 0 to 1, and the list is empty
  abbrev pub migrations : List (Db B → Result StoreError (Db B))
  migrations = []

  -- `if i < len(migrations) { migrations[i](tx) }`
  migrate_at : List (Db B → Result StoreError (Db B)) → ℕ → Db B → Result StoreError (Db B)
  migrate_at [] i db = ok db
  migrate_at (m ∷ ms) zero db = m db
  migrate_at (m ∷ ms) (suc i) db = migrate_at ms i db

  -- the loop from an `i` that is not negative, for the versions that are left
  migrate_loop : ℕ → ℕ → Db B → Result StoreError (Db B)
  unfolding migrate_at
  migrate_loop zero i db = ok db
  migrate_loop (suc left) i db = migrate_at migrations i db >>= migrate_loop left (suc i)

  stored_version : Option String → Result StoreError ℕ
  stored_version none = ok 0
  stored_version (some v) = J.unmarshal_version v

  pub run_migrations : Db B → Result StoreError (Db B)
  unfolding stored_version migrate_loop
  run_migrations db = do
    version ← stored_version (B.get db.meta version_key)
    migrated ← migrate_loop (current_schema_version - version) version db
    payload ← J.marshal_version current_schema_version
    meta ← B.put migrated.meta version_key payload
    ok (record migrated { meta = meta })

  -- a negative version passes `i < len(migrations)`, and `migrations[i]` panics
  unfoldable pub migrations_panic : Result StoreError ℕ → Bool
  migrations_panic (ok version) = leb int_limit version
  migrations_panic (err e) = false

  -- `New` on an opened file whose buckets are there; `none` is a panic
  pub new : Store B → Option (Result StoreError (Store B))
  unfolding migrations_panic
  new s =
      let (r, s') = update B run_migrations s in
      if migrations_panic (stored_version (B.get s.db.meta version_key))
      then none
      else some (elim r [ ok _ ↦ ok s' | err e ↦ err e ])

  pub schema_version : Store B → Result StoreError ℕ
  schema_version s = elim (B.get s.db.meta version_key) [
    | none ↦ ok 0
    | some v ↦ J.unmarshal_version v
  ]
