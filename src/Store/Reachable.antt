-- ===== src/Store/Reachable.antt =====
-- The stores that the writes of internal/store/store.go lead to, and the look-up by name in them.
use dcm_kcli_provider.Prelude.{String, ◌≡◌, refl, sym, ap, Option, none, some, arith, List, [], ◌∷◌}
use mathlib.Core.Path.{subst}
use dcm_kcli_provider.Prelude.Result.{Result, ok, err}
use dcm_kcli_provider.Store.Entry.{ResourceEntry, StoreError}
use dcm_kcli_provider.Store.Backend.{Bolt, BoltLaws, Json, JsonLaws}
use dcm_kcli_provider.Store.{
  Db, Store, commit, update, put, get, delete, update_status, find_by_kcli_name,
}
use dcm_kcli_provider.Store.Index.{
  IsIndexed, put-IsIndexed, update_status-IsIndexed, delete-IsIndexed,
}

module _ (B : Bolt) (J : Json) where
  -- Writes one after the other, whether they succeed or fail, where an entry that is put has a fresh id
  -- and a fresh name.
  pub data Writes : Store B → Store B → Type 0 where
    done : (s : Store B) → Writes s s
    putting :
        (entry : ResourceEntry) (r : Result StoreError (Unit {0})) (s s' t : Store B)
        → put B J entry s ≡ (r, s')
        → B.get s.db.resources entry.id ≡ none
        → B.get s.db.name_index entry.kcli_name ≡ none
        → Writes s' t
        → Writes s t
    updating :
        (id status : String) (r : Result StoreError (Unit {0})) (s s' t : Store B)
        → update_status B J id status s ≡ (r, s')
        → Writes s' t
        → Writes s t
    deleting :
        (id : String) (r : Result StoreError (Unit {0})) (s s' t : Store B)
        → delete B J id s ≡ (r, s')
        → Writes s' t
        → Writes s t

  -- Agreement is a matter of the database alone.
  refaulted :
      (s : Store B) (faults : List (Option StoreError))
      → IsIndexed B J s
      → IsIndexed B J (record s { faults = faults })
  unfolding get
  refaulted s faults v = record { name_of = v.name_of; indexed = v.indexed }

  same-IsIndexed : (s s' : Store B) → s'.db ≡ s.db → IsIndexed B J s → IsIndexed B J s'
  same-IsIndexed s s' e v =
      subst (λ (d : Db B). IsIndexed B J (record { db = d; faults = s'.faults })) (sym e)
        (refaulted s s'.faults v)

  update_failed :
      (fn : Db B → Result StoreError (Db B)) (e : StoreError) (s s' : Store B)
      → update B fn s ≡ (err e, s')
      → s'.db ≡ s.db
  unfolding update commit
  update_failed fn e s s' h = failed (fn s.db) refl h
    where
      committed :
          (new : Db B) (faults : List (Option StoreError))
          → commit B s.db new faults ≡ (err e, s')
          → s'.db ≡ s.db
      committed new [] h = ground arith
      committed new (none ∷ later) h = ground arith
      committed new (some x ∷ later) h = ap Store.db (sym (ap (λ p. p.1) h))

      failed :
          (r : Result StoreError (Db B)) → fn s.db ≡ r → update B fn s ≡ (err e, s') → s'.db ≡ s.db
      failed (err x) q h = ground arith
      failed (ok new) q h = committed new s.faults (ground arith)

  module _ (L : BoltLaws B) (K : JsonLaws J) where
    Writes-IsIndexed :
        (s t : Store B)
        → ((b : B.Bucket) (k : String) → (b' : B.Bucket) × (B.delete b k ≡ ok b'))
        → IsIndexed B J s
        → Writes s t
        → IsIndexed B J t
    unfolding put update_status delete
    Writes-IsIndexed s t dels v (done _) = v
    Writes-IsIndexed s t dels v (putting entry (ok tt) _ s' _ h i n w) =
        Writes-IsIndexed s' t dels (put-IsIndexed B J L K entry s s' h i n v) w
    Writes-IsIndexed s t dels v (putting entry (err e) _ s' _ h i n w) =
        Writes-IsIndexed s' t dels (same-IsIndexed s s' (update_failed _ e s s' h) v) w
    Writes-IsIndexed s t dels v (updating id status (ok tt) _ s' _ h w) =
        Writes-IsIndexed s' t dels (update_status-IsIndexed B J L K id status s s' h v) w
    Writes-IsIndexed s t dels v (updating id status (err e) _ s' _ h w) =
        Writes-IsIndexed s' t dels (same-IsIndexed s s' (update_failed _ e s s' h) v) w
    Writes-IsIndexed s t dels v (deleting id (ok tt) _ s' _ h w) =
        Writes-IsIndexed s' t dels (delete-IsIndexed B J L K id s s' (dels _) h v) w
    Writes-IsIndexed s t dels v (deleting id (err e) _ s' _ h w) =
        Writes-IsIndexed s' t dels (same-IsIndexed s s' (update_failed _ e s s' h) v) w

    -- From a store whose name index agrees with its entries, after any sequence of Put, UpdateStatus
    -- and Delete, successful or failed, where each entry that is put has a fresh id and a fresh name
    -- and bucket deletions succeed, FindByKcliName of a stored entry's name answers that entry.
    pub find_by_kcli_name-Writes :
        (s t : Store B) (id : String) (e : ResourceEntry)
        → ((b : B.Bucket) (k : String) → (b' : B.Bucket) × (B.delete b k ≡ ok b'))
        → IsIndexed B J s
        → Writes s t
        → get B J id t ≡ ok e
        → find_by_kcli_name B J e.kcli_name t ≡ ok e
    unfolding find_by_kcli_name
    find_by_kcli_name-Writes s t id e dels v w g =
        let v' = Writes-IsIndexed s t dels v w in ground (arith, g, v'.indexed id e g)
