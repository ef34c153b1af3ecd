-- ===== src/Store/Opening.antt =====
-- `New` of internal/store/store.go on a file with its buckets: the schema version.
use dcm_kcli_provider.Text.{int_limit}
use dcm_kcli_provider.Prelude.{
  ◌<◌, ◌≤◌, some, leb, false, true, ℕ, zero, suc, ◌-◌, String, ◌≡◌, refl, ap, ◌∙◌, Option, none,
  List, ◌∷◌, arith,
}
use dcm_kcli_provider.Prelude.Result.{Result, ok, err}
use dcm_kcli_provider.Store.Entry.{StoreError}
use dcm_kcli_provider.Store.Backend.{Bolt, BoltLaws, Json, JsonLaws}
use dcm_kcli_provider.Store.{
  Db, Store, migrations_panic, current_schema_version, version_key, migrate_at, migrate_loop,
  stored_version, run_migrations, new, schema_version, update, commit,
}

lt→not_leb : (n m : ℕ) → n < m → leb m n ≡ false
lt→not_leb n m h = ground arith

le→leb : (m n : ℕ) → m ≤ n → leb m n ≡ true
le→leb m n h = ground arith

module _ (B : Bolt) (J : Json) (L : BoltLaws B) (K : JsonLaws J) where
  migrate_loop_none : (left i : ℕ) (db : Db B) → migrate_loop B J left i db ≡ ok db
  unfolding migrate_loop migrate_at
  migrate_loop_none zero i db = refl
  migrate_loop_none (suc left) i db = migrate_loop_none left (suc i) db

  run_migrations_ok :
      (n : ℕ) (payload : String) (meta : B.Bucket) (db : Db B)
      → stored_version B J (B.get db.meta version_key) ≡ ok n
      → J.marshal_version current_schema_version ≡ ok payload
      → B.put db.meta version_key payload ≡ ok meta
      → run_migrations B J db ≡ ok (record db { meta = meta })
  unfolding run_migrations
  run_migrations_ok n payload meta db version m p =
      rw (version) (rw (migrate_loop_none (current_schema_version - n) n db) (rw (m) (rw (p) refl)))

  version_after :
      (payload : String) (meta : B.Bucket) (s : Store B)
      → J.marshal_version current_schema_version ≡ ok payload
      → B.put s.db.meta version_key payload ≡ ok meta
      → (faults : List (Option StoreError))
      → schema_version B J (record { db = record s.db { meta = meta }; faults = faults })
        ≡ ok current_schema_version
  unfolding schema_version
  version_after payload meta s m p faults =
      rw (L.get-put s.db.meta meta version_key payload version_key p, schema_version)
        (K.version-marshal current_schema_version payload m)

  stored-schema_version :
      (s : Store B) → stored_version B J (B.get s.db.meta version_key) ≡ schema_version B J s
  unfolding stored_version schema_version
  stored-schema_version s = ground arith

  update_committed :
      (fn : Db B → Result StoreError (Db B)) (after : Db B) (s : Store B)
      (faults : List (Option StoreError))
      → fn s.db ≡ ok after
      → s.faults ≡ none ∷ faults
      → update B fn s ≡ (ok tt, record { db = after; faults = faults })
  unfolding update commit
  update_committed fn after s faults h f = ground arith

  -- Where the schema version of a file can be read, as any number that is not negative, the new
  -- version can be written and the commit succeeds, `New` opens the store: its schema version is
  -- then the program's own, also where the file's was later, and entries and names are as they were.
  pub new_relabels :
      (n : ℕ) (payload : String) (meta : B.Bucket) (s : Store B) (faults : List (Option StoreError))
      → schema_version B J s ≡ ok n
      → n < int_limit
      → J.marshal_version current_schema_version ≡ ok payload
      → B.put s.db.meta version_key payload ≡ ok meta
      → s.faults ≡ none ∷ faults
      → (s' : Store B) × (new B J s ≡ some (ok s'))
        × (schema_version B J s' ≡ ok current_schema_version)
        × (s'.db.resources ≡ s.db.resources)
        × (s'.db.name_index ≡ s.db.name_index)
  unfolding new migrations_panic
  new_relabels n payload meta s faults version small m p f =
      let s' : Store B = record { db = record s.db { meta = meta }; faults = faults } in
      let migrated =
        run_migrations_ok n payload meta s.db (stored-schema_version s ∙ version) m p in
      let committed =
        update_committed (run_migrations B J) (record s.db { meta = meta }) s faults migrated f in
      (
        s',
        rw (stored-schema_version s ∙ version, new)
            (rw (lt→not_leb n int_limit small)
              (rw (committed) (ap (λ t. some (ok t.1)) committed))),
        version_after payload meta s m p faults,
        refl,
        refl,
      )

  -- Where the schema version of a file is negative, `New` panics.
  pub new_panics :
      (n : ℕ) (s : Store B) → schema_version B J s ≡ ok n → int_limit ≤ n → new B J s ≡ none
  unfolding new migrations_panic
  new_panics n s version negative =
      rw (stored-schema_version s ∙ version, new) (rw (le→leb int_limit n negative) refl)

  -- Where the schema version of a file cannot be read, `New` fails with the decoder's error.
  pub new_unreadable :
      (e : StoreError) (s : Store B) → schema_version B J s ≡ err e → new B J s ≡ some (err e)
  unfolding new update run_migrations migrations_panic
  new_unreadable e s version = rw (stored-schema_version s ∙ version, new) refl
