-- ===== src/Store/Memory.antt =====
-- A store in memory that never fails, for runs of its clients.
use dcm_kcli_provider.Prelude.{
  String, ◌≡◌, refl, Option, none, some, List, [], ◌∷◌, ◌==◌, if◌then◌else◌, arith, Option-cases,
  inl, inr,
}
use dcm_kcli_provider.Prelude.Dict.{Dict, lookup, insert, remove, lookup-insert, lookup-remove}
use dcm_kcli_provider.Prelude.Result.{Result, ok, err}
use dcm_kcli_provider.Store.Entry.{ResourceEntry, StateStore, StoreError, not_found}
use dcm_kcli_provider.Store.Contract.{StateStoreLaws}

abbrev found : Option ResourceEntry → Result StoreError ResourceEntry
found none = err not_found
found (some entry) = ok entry

abbrev entries_of : String → Dict ResourceEntry → List ResourceEntry
entries_of kind [] = []
entries_of kind ((_, entry) ∷ s) =
    let rest = entries_of kind s in if entry.kind == kind then entry ∷ rest else rest

abbrev all_of : Dict ResourceEntry → List ResourceEntry
all_of [] = []
all_of ((_, entry) ∷ s) = entry ∷ all_of s

abbrev named : String → Dict ResourceEntry → Option ResourceEntry
named name [] = none
named name ((_, entry) ∷ s) =
    let rest = named name s in if entry.kcli_name == name then some entry else rest

abbrev updated :
    String
    → String
    → Dict ResourceEntry
    → Option ResourceEntry
    → Result StoreError (Unit {0}) × Dict ResourceEntry
updated id status s none = (err not_found, s)
updated id status s (some entry) = (ok tt, insert id (record entry { status = status }) s)

abbrev name_of : Option ResourceEntry → Result StoreError String
name_of none = err not_found
name_of (some entry) = ok entry.kcli_name

abbrev pub memory_store : StateStore (Dict ResourceEntry)
memory_store = record {
  put = λ entry s. (ok tt, insert entry.id entry s);
  get = λ id s. found (lookup id s);
  list = λ kind s. ok (entries_of kind s);
  list_all = λ s. ok (all_of s);
  delete = λ id s. (ok tt, remove id s);
  update_status = λ id status s. updated id status s (lookup id s);
  resolve_kcli_name = λ id s. name_of (lookup id s);
  find_by_kcli_name = λ name s. found (named name s);
}

get-updated :
    (id status : String) (s s' : Dict ResourceEntry) (j : String)
    → memory_store.update_status id status s ≡ (ok tt, s')
    → (entry : ResourceEntry) × (memory_store.get id s ≡ ok entry)
      × (memory_store.get j s'
          ≡ (if id == j then ok (record entry { status = status }) else memory_store.get j s))
get-updated id status s s' j h = elim (Option-cases (lookup id s)) [
  | inl n ↦ absurd (ground arith)
  | inr (entry, p) ↦
      (entry, rw p refl, ground (arith, lookup-insert id j (record entry { status = status }) s))
]

pub memory_store-StateStoreLaws : StateStoreLaws memory_store
memory_store-StateStoreLaws = record {
  get-put = λ entry s s' j h. ground (arith, lookup-insert entry.id j entry s);
  get-delete = λ id s s' j h. ground (arith, lookup-remove id j s);
  get-update_status = get-updated;
  get-put_failed = λ entry s s' e j h. ground arith;
  get-delete_failed = λ id s s' e j h. ground arith;
  get-update_status_failed = λ id status s s' e j h. ground arith;
}
