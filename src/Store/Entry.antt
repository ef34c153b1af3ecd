-- ===== src/Store/Entry.antt =====
-- internal/store/store.go: the entries that the store keeps, its errors, and the interface by which
-- the monitor and the handlers use it (internal/api/server/impl.go, internal/monitor/interfaces.go).
use dcm_kcli_provider.Prelude.{ℕ, String, List}
use dcm_kcli_provider.Prelude.Result.{Result}

pub record ResourceEntry : Type 0 where
  pub id : String
  pub kcli_name : String
  pub kind : String  -- `Type` in the source
  pub status : String
  pub created_at : ℕ

-- `ErrNotFound`, and what bbolt and encoding/json return.
pub data StoreError : Type 0 where
  not_found : StoreError
  db_error : String → StoreError
  json_error : String → StoreError

-- `err.Error()`
unfoldable pub store_error_text : StoreError → String
store_error_text not_found = "resource not found"
store_error_text (db_error m) = m
store_error_text (json_error m) = m

-- The calls of `StateStore`, each with the store's state passed on.
pub record StateStore (S : Type 0) : Type 0 where
  pub put : ResourceEntry → S → Result StoreError (Unit {0}) × S
  pub get : String → S → Result StoreError ResourceEntry
  pub list : String → S → Result StoreError (List ResourceEntry)
  pub list_all : S → Result StoreError (List ResourceEntry)
  pub delete : String → S → Result StoreError (Unit {0}) × S
  pub update_status : String → String → S → Result StoreError (Unit {0}) × S
  pub resolve_kcli_name : String → S → Result StoreError String
  pub find_by_kcli_name : String → S → Result StoreError ResourceEntry
