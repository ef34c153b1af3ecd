-- ===== src/Store/Contract.antt =====
-- What the monitor and the handlers may rely on of a `StateStore`, and the store of
-- internal/store/store.go as such a store.
use dcm_kcli_provider.Prelude.{String, ◌≡◌, ◌==◌, if◌then◌else◌, arith}
use dcm_kcli_provider.Prelude.Result.{ok, err}
use dcm_kcli_provider.Store.Entry.{ResourceEntry, StoreError, not_found, StateStore}
use dcm_kcli_provider.Store.Backend.{Bolt, BoltLaws, Json, JsonLaws}
use dcm_kcli_provider.Store.{
  Store, put_tx, delete_tx, update_status_tx, put, delete, update_status, get, bolt_store,
}
use dcm_kcli_provider.Store.Laws.{update_err, get-put, get-delete, get-update_status}

-- A map from ids to entries: what `get` answers after each call, made or failed.
pub record StateStoreLaws {S : Type 0} (St : StateStore S) : Type 0 where
  pub get-put :
      (entry : ResourceEntry) (s s' : S) (j : String)
      → St.put entry s ≡ (ok tt, s')
      → St.get j s' ≡ (if entry.id == j then ok entry else St.get j s)
  pub get-delete :
      (id : String) (s s' : S) (j : String)
      → St.delete id s ≡ (ok tt, s')
      → St.get j s' ≡ (if id == j then err not_found else St.get j s)
  pub get-update_status :
      (id status : String) (s s' : S) (j : String)
      → St.update_status id status s ≡ (ok tt, s')
      → (entry : ResourceEntry) × (St.get id s ≡ ok entry)
        × (St.get j s' ≡ (if id == j then ok (record entry { status = status }) else St.get j s))
  pub get-put_failed :
      (entry : ResourceEntry) (s s' : S) (e : StoreError) (j : String)
      → St.put entry s ≡ (err e, s')
      → St.get j s' ≡ St.get j s
  pub get-delete_failed :
      (id : String) (s s' : S) (e : StoreError) (j : String)
      → St.delete id s ≡ (err e, s')
      → St.get j s' ≡ St.get j s
  pub get-update_status_failed :
      (id status : String) (s s' : S) (e : StoreError) (j : String)
      → St.update_status id status s ≡ (err e, s')
      → St.get j s' ≡ St.get j s

module _ (B : Bolt) (J : Json) (L : BoltLaws B) (K : JsonLaws J) where
  get_same_db : (s s' : Store B) (j : String) → s'.db ≡ s.db → get B J j s' ≡ get B J j s
  unfolding get
  get_same_db s s' j h = ground arith

  -- The bbolt store, over a database and a codec that keep their documented laws, is a map from ids
  -- to entries: Get answers by the last successful Put, UpdateStatus or Delete of the id, and a
  -- failed write changes no answer.
  pub bolt_store-StateStoreLaws : StateStoreLaws (bolt_store B J)
  unfolding bolt_store put delete update_status
  bolt_store-StateStoreLaws = record {
    get-put = get-put B J L K;
    get-delete = get-delete B J L K;
    get-update_status = get-update_status B J L K;
    get-put_failed =
        λ entry s s' e j h. get_same_db s s' j (update_err B (put_tx B J entry) s s' e h);
    get-delete_failed =
        λ id s s' e j h. get_same_db s s' j (update_err B (delete_tx B J id) s s' e h);
    get-update_status_failed = λ id status s s' e j h.
        get_same_db s s' j (update_err B (update_status_tx B J id status) s s' e h);
  }
