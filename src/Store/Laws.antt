-- ===== src/Store/Laws.antt =====
-- The methods of internal/store/store.go against a map from ids to entries: what `Get` answers after
-- each write.
use dcm_kcli_provider.Prelude.{
  String, ◌≡◌, refl, ◌∙◌, ap, Option, none, some, List, [], ◌∷◌, arith, ◌==◌, if◌then◌else◌,
}
use dcm_kcli_provider.Prelude.Result.{bind_ok, Result, ok, err}
use dcm_kcli_provider.Store.Entry.{ResourceEntry, StoreError, not_found}
use dcm_kcli_provider.Store.Backend.{Bolt, BoltLaws, Json, JsonLaws}
use dcm_kcli_provider.Store.{
  Db, Store, commit, update, put_tx, put, get, unindexed, delete_tx, delete, update_status_tx,
  update_status,
}

module _ (B : Bolt) where
  commit_ok :
      (old new : Db B) (faults : List (Option StoreError)) (s' : Store B)
      → commit B old new faults ≡ (ok tt, s')
      → new ≡ s'.db
  unfolding commit
  commit_ok old new [] s' h = ground arith
  commit_ok old new (none ∷ later) s' h = ground arith
  commit_ok old new (some e ∷ later) s' h = ground arith

  commit_err :
      (old new : Db B) (faults : List (Option StoreError)) (e : StoreError) (s' : Store B)
      → commit B old new faults ≡ (err e, s')
      → s'.db ≡ old
  unfolding commit
  commit_err old new [] e s' h = ground arith
  commit_err old new (none ∷ later) e s' h = ground arith
  commit_err old new (some x ∷ later) e s' h = ground arith

  pub update_ok :
      (fn : Db B → Result StoreError (Db B)) (s s' : Store B)
      → update B fn s ≡ (ok tt, s')
      → fn s.db ≡ ok s'.db
  unfolding update
  update_ok fn s s' h = go (fn s.db) refl
    where
      go : (r : Result StoreError (Db B)) → fn s.db ≡ r → fn s.db ≡ ok s'.db
      go (ok new) e = e ∙ ap ok (commit_ok s.db new s.faults s' (rw (e, update) at h))
      go (err x) e = ground arith

  pub update_err :
      (fn : Db B → Result StoreError (Db B)) (s s' : Store B) (e : StoreError)
      → update B fn s ≡ (err e, s')
      → s'.db ≡ s.db
  unfolding update
  update_err fn s s' x h = go (fn s.db) refl
    where
      go : (r : Result StoreError (Db B)) → fn s.db ≡ r → s'.db ≡ s.db
      go (ok new) e = commit_err s.db new s.faults x s' (rw (e, update) at h)
      go (err y) e = ground arith

module _ (B : Bolt) (J : Json) (L : BoltLaws B) (K : JsonLaws J) where
  pub put_tx_ok :
      (entry : ResourceEntry) (db db' : Db B)
      → put_tx B J entry db ≡ ok db'
      → (payload : String) × (J.marshal entry ≡ ok payload)
        × (B.put db.resources entry.id payload ≡ ok db'.resources)
        × (B.put db.name_index entry.kcli_name entry.id ≡ ok db'.name_index)
        × (db'.meta ≡ db.meta)
  unfolding put_tx
  put_tx_ok entry db db' h =
      let (payload, m, h₁) = bind_ok (J.marshal entry) _ h in
      let (resources, p, h₂) = bind_ok (B.put db.resources entry.id payload) _ h₁ in
      let (name_index, q, h₃) = bind_ok (B.put db.name_index entry.kcli_name entry.id) _ h₂ in
      (payload, m, p ∙ ground arith, q ∙ ground arith, ground arith)

  -- After a successful `Put` the entry is read back under its id, and every other id answers as before.
  pub get-put :
      (entry : ResourceEntry) (s s' : Store B) (j : String)
      → put B J entry s ≡ (ok tt, s')
      → get B J j s' ≡ (if entry.id == j then ok entry else get B J j s)
  unfolding put get
  get-put entry s s' j h =
      let (payload, m, p, q, _) =
        put_tx_ok entry s.db s'.db (update_ok B (put_tx B J entry) s s' h) in
      ground (
        arith,
        L.get-put s.db.resources s'.db.resources entry.id payload j p,
        K.unmarshal-marshal entry payload m,
      )

  pub delete_tx_ok :
      (id : String) (db db' : Db B)
      → delete_tx B J id db ≡ ok db'
      → (B.delete db.resources id ≡ ok db'.resources)
        × (db'.name_index ≡ unindexed B J db (B.get db.resources id))
        × (db'.meta ≡ db.meta)
  unfolding delete_tx
  delete_tx_ok id db db' h =
      let (resources, p, h₁) = bind_ok (B.delete db.resources id) _ h in
      (p ∙ ground arith, ground arith, ground arith)

  -- After a successful `Delete` the id is not found, and every other id answers as before.
  pub get-delete :
      (id : String) (s s' : Store B) (j : String)
      → delete B J id s ≡ (ok tt, s')
      → get B J j s' ≡ (if id == j then err not_found else get B J j s)
  unfolding delete get
  get-delete id s s' j h =
      let (p, _, _) = delete_tx_ok id s.db s'.db (update_ok B (delete_tx B J id) s s' h) in
      ground (arith, L.get-delete s.db.resources s'.db.resources id j p)

  pub update_status_tx_ok :
      (id status : String) (s : Store B) (db' : Db B)
      → update_status_tx B J id status s.db ≡ ok db'
      → (entry : ResourceEntry) × (payload : String) × (get B J id s ≡ ok entry)
        × (J.marshal (record entry { status = status }) ≡ ok payload)
        × (B.put s.db.resources id payload ≡ ok db'.resources)
        × (db'.name_index ≡ s.db.name_index)
        × (db'.meta ≡ s.db.meta)
  unfolding update_status_tx get
  update_status_tx_ok id status s db' h = go (B.get s.db.resources id) refl
    where
      go :
          (o : Option String)
          → B.get s.db.resources id ≡ o
          → (entry : ResourceEntry) × (payload : String) × (get B J id s ≡ ok entry)
            × (J.marshal (record entry { status = status }) ≡ ok payload)
            × (B.put s.db.resources id payload ≡ ok db'.resources)
            × (db'.name_index ≡ s.db.name_index)
            × (db'.meta ≡ s.db.meta)
      go none e = absurd (ground arith)
      go (some old) e =
          let (entry, u, h₁) = bind_ok (J.unmarshal old) _ (rw (e, update_status_tx) at h) in
          let (payload, m, h₂) = bind_ok (J.marshal (record entry { status = status })) _ h₁ in
          let (resources, p, h₃) = bind_ok (B.put s.db.resources id payload) _ h₂ in
          (entry, payload, rw (e, get) u, m, p ∙ ground arith, ground arith, ground arith)

  -- After a successful `UpdateStatus` the entry under the id, which was there, has the new status and
  -- is otherwise as it was, and every other id answers as before.
  pub get-update_status :
      (id status : String) (s s' : Store B) (j : String)
      → update_status B J id status s ≡ (ok tt, s')
      → (entry : ResourceEntry) × (get B J id s ≡ ok entry)
        × (get B J j s' ≡ (if id == j then ok (record entry { status = status }) else get B J j s))
  unfolding update_status get
  get-update_status id status s s' j h =
      let (entry, payload, g, m, p, _, _) =
        update_status_tx_ok id status s s'.db
          (update_ok B (update_status_tx B J id status) s s' h) in
      (
        entry,
        g,
        ground (
          arith,
          L.get-put s.db.resources s'.db.resources id payload j p,
          K.unmarshal-marshal (record entry { status = status }) payload m,
        ),
      )

  -- `UpdateStatus` of an id under which nothing is stored is `ErrNotFound`, and changes nothing.
  pub update_status_missing :
      (id status : String) (s : Store B)
      → B.get s.db.resources id ≡ none
      → update_status B J id status s ≡ (err not_found, s)
  unfolding update_status update update_status_tx
  update_status_missing id status s e = ground arith
