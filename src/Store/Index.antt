-- ===== src/Store/Index.antt =====
-- The name index of internal/store/store.go: the bucket that `FindByKcliName` reads.
use dcm_kcli_provider.Prelude.{
  String, ◌≡◌, ◌≢◌, refl, ◌∙◌, sym, ap, ◌⊎◌, inl, inr, Option, none, some, arith, ◌==◌, eq_iff,
  eq_refl, if◌then◌else◌, Bool-cases,
}
use dcm_kcli_provider.Prelude.Result.{Result, ok, err}
use dcm_kcli_provider.Store.Entry.{ResourceEntry, StoreError, not_found}
use dcm_kcli_provider.Store.Backend.{Bolt, BoltLaws, Json, JsonLaws}
use dcm_kcli_provider.Store.{
  Store, put_tx, put, get, or_same, unindexed, delete_tx, delete, update_status_tx, update_status,
  find_by_kcli_name,
}
use dcm_kcli_provider.Store.Laws.{
  update_ok, put_tx_ok, delete_tx_ok, update_status_tx_ok, get-put, get-delete, get-update_status,
}

module _ (B : Bolt) (J : Json) where
  -- Index and entries agree: each indexed name is that of the entry it leads to, and each entry is
  -- indexed under its name.
  pub record IsIndexed (s : Store B) : Type 0 where
    pub name_of :
        (name id : String)
        → B.get s.db.name_index name ≡ some id
        → (e : ResourceEntry) × (get B J id s ≡ ok e) × (e.kcli_name ≡ name)
    pub indexed :
        (id : String) (e : ResourceEntry)
        → get B J id s ≡ ok e
        → (e.id ≡ id) × (B.get s.db.name_index e.kcli_name ≡ some id)

module _ (B : Bolt) (J : Json) (L : BoltLaws B) (K : JsonLaws J) where
  -- After a successful `Put` the entry's name leads to it, and other names lead where they led.
  index-put :
      (entry : ResourceEntry) (s s' : Store B) (name : String)
      → put B J entry s ≡ (ok tt, s')
      → B.get s'.db.name_index name
        ≡ (if entry.kcli_name == name then some entry.id else B.get s.db.name_index name)
  unfolding put
  index-put entry s s' name h =
      let (_, _, _, q, _) =
        put_tx_ok B J L K entry s.db s'.db (update_ok B (put_tx B J entry) s s' h) in
      L.get-put s.db.name_index s'.db.name_index entry.kcli_name entry.id name q

  -- After a successful Put, FindByKcliName of the entry's name answers the entry.
  pub find_by_kcli_name-put :
      (entry : ResourceEntry) (s s' : Store B)
      → put B J entry s ≡ (ok tt, s')
      → find_by_kcli_name B J entry.kcli_name s' ≡ ok entry
  unfolding find_by_kcli_name
  find_by_kcli_name-put entry s s' h = ground (
    arith,
    index-put entry s s' entry.kcli_name h,
    get-put B J L K entry s s' entry.id h,
    eq_refl entry.kcli_name,
    eq_refl entry.id,
  )

  get_absent :
      (id : String) (s : Store B) → B.get s.db.resources id ≡ none → get B J id s ≡ err not_found
  unfolding get
  get_absent id s h = ground arith

  -- A successful Put of an entry with a fresh id and a fresh name keeps the name index and the
  -- entries in agreement.
  pub put-IsIndexed :
      (entry : ResourceEntry) (s s' : Store B)
      → put B J entry s ≡ (ok tt, s')
      → B.get s.db.resources entry.id ≡ none
      → B.get s.db.name_index entry.kcli_name ≡ none
      → IsIndexed B J s
      → IsIndexed B J s'
  put-IsIndexed entry s s' h fresh_id fresh_name v = record {
    name_of = λ name id p. elim (Bool-cases (entry.kcli_name == name)) [
      | inl same ↦ (
        entry,
        ground
            (arith, index-put entry s s' name h, get-put B J L K entry s s' id h, eq_refl entry.id),
        (eq_iff entry.kcli_name name).0 same,
      )
      | inr other ↦
          let (e, g, n) = v.name_of name id (ground (arith, index-put entry s s' name h)) in
          (
            e,
            ground (
              arith,
              get_absent entry.id s fresh_id,
              get-put B J L K entry s s' id h,
              eq_iff entry.id id,
            ),
            n,
          )
    ];
    indexed = λ id e p. ground (
      arith,
      index-put entry s s' e.kcli_name h,
      get-put B J L K entry s s' id h,
      v.indexed id e,
      eq_iff entry.id id,
      eq_iff entry.kcli_name e.kcli_name,
    );
  }

  -- A successful UpdateStatus keeps the name index and the entries in agreement.
  pub update_status-IsIndexed :
      (id status : String) (s s' : Store B)
      → update_status B J id status s ≡ (ok tt, s')
      → IsIndexed B J s
      → IsIndexed B J s'
  unfolding update_status
  update_status-IsIndexed id status s s' h v =
      let (_, _, _, _, _, same, _) =
        update_status_tx_ok B J L K id status s s'.db
          (update_ok B (update_status_tx B J id status) s s' h) in
      record {
        name_of = λ name j p.
            let (old, g, _) = get-update_status B J L K id status s s' j h in
            let (e, g', n) = v.name_of name j (rw same at p) in
            let new = get-update_status B J L K id status s s' j h in
            elim (Bool-cases (id == j)) [
              | inl here ↦ (
                record e { status = status },
                ground (arith, new.2, eq_iff id j, g, g', new.1),
                n,
              )
              | inr other ↦ (e, ground (arith, new.2), n)
            ];
        indexed = λ j e p.
            let (old, g, at_j) = get-update_status B J L K id status s s' j h in
            ground (arith, same, v.indexed id old g, v.indexed j e, eq_iff id j);
      }

  -- What `Delete` does to the index: the deleted entry's name is taken out, if the entry decodes.
  abbrev Unindexed : String → Store B → Store B → Type 0
  Unindexed id s s' =
      ((e : ResourceEntry) × (get B J id s ≡ ok e)
        × ((name : String)
            → B.get s'.db.name_index name
              ≡ (if e.kcli_name == name then none else B.get s.db.name_index name)))
      ⊎ (((e : ResourceEntry) → get B J id s ≢ ok e) × (s'.db.name_index ≡ s.db.name_index))

  index-delete :
      (id : String) (s s' : Store B)
      → ((k : String) → (b : B.Bucket) × (B.delete s.db.name_index k ≡ ok b))
      → delete B J id s ≡ (ok tt, s')
      → Unindexed id s s'
  unfolding delete get
  index-delete id s s' dels h =
      let (_, same, _) =
        delete_tx_ok B J L K id s.db s'.db (update_ok B (delete_tx B J id) s s' h) in
      stored (B.get s.db.resources id) refl same
    where
      decoded :
          (payload : String) (r : Result StoreError ResourceEntry)
          → B.get s.db.resources id ≡ some payload
          → J.unmarshal payload ≡ r
          → s'.db.name_index ≡ unindexed B J s.db (some payload)
          → Unindexed id s s'
      decoded payload (ok e) p u same =
          let (b, d) = dels e.kcli_name in
          inl (
            e,
            ground arith,
            λ name.
                L.get-delete s.db.name_index s'.db.name_index e.kcli_name name
                  (d ∙ ap ok (sym (same ∙ unfold unindexed or_same in ground arith))),
          )
      decoded payload (err x) p u same =
          inr ((λ e q. ground arith), same ∙ unfold unindexed in ground arith)

      stored :
          (o : Option String)
          → B.get s.db.resources id ≡ o
          → s'.db.name_index ≡ unindexed B J s.db (B.get s.db.resources id)
          → Unindexed id s s'
      stored none p same = inr ((λ e q. ground arith), same ∙ unfold unindexed in ground arith)
      stored (some payload) p same =
          decoded payload (J.unmarshal payload) p refl (same ∙ ap (unindexed B J s.db) p)

  -- A successful Delete keeps the name index and the entries in agreement, where the index lets its
  -- keys be deleted.
  pub delete-IsIndexed :
      (id : String) (s s' : Store B)
      → ((k : String) → (b : B.Bucket) × (B.delete s.db.name_index k ≡ ok b))
      → delete B J id s ≡ (ok tt, s')
      → IsIndexed B J s
      → IsIndexed B J s'
  delete-IsIndexed id s s' dels h v = elim (index-delete id s s' dels h) [
    | inl (gone, g, at) ↦ record {
      name_of = λ name j p.
          let (e, g', n) = v.name_of name j (ground (arith, at name)) in
          (
            e,
            ground (
              arith,
              get-delete B J L K id s s' j h,
              at name,
              g,
              g',
              eq_iff id j,
              eq_iff gone.kcli_name name,
            ),
            n,
          );
      indexed = λ j e p. ground (
        arith,
        get-delete B J L K id s s' j h,
        v.indexed j e,
        v.indexed id gone g,
        at e.kcli_name,
        eq_iff id j,
        eq_iff gone.kcli_name e.kcli_name,
      );
    }
    | inr (absent, same) ↦ record {
      name_of = λ name j p.
          let (e, g', n) = v.name_of name j (rw same at p) in
          (e, ground (arith, get-delete B J L K id s s' j h, absent e, eq_iff id j), n);
      indexed =
          λ j e p. ground (arith, get-delete B J L K id s s' j h, v.indexed j e, eq_iff id j, same);
    }
  ]
