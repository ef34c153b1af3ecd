-- ===== src/Store/Runs.antt =====
-- Runs of the store, on a dictionary and a codec of a few entries.
use dcm_kcli_provider.Prelude.{
  String, ◌≡◌, refl, ◌↔◌, none, some, List, [], ◌∷◌, arith, Member, eq_iff,
}
use dcm_kcli_provider.Prelude.Result.{ok, err}
use dcm_kcli_provider.Prelude.Dict.{lookup, insert, remove}
use dcm_kcli_provider.Store.Entry.{json_error, ResourceEntry, db_error, not_found, StateStore}
use dcm_kcli_provider.Store.{
  Store, put, get, delete, update_status, list, find_by_kcli_name, commit, update, put_tx,
  delete_tx, update_status_tx, unindexed, or_same, bolt_store, new, schema_version,
}
use dcm_kcli_provider.Store.Opening.{new_relabels}
use dcm_kcli_provider.Store.Contract.{StateStoreLaws, bolt_store-StateStoreLaws}
use dcm_kcli_provider.Store.Index.{IsIndexed, put-IsIndexed}
use dcm_kcli_provider.Store.Reachable.{Writes, done, putting, updating, find_by_kcli_name-Writes}
use dcm_kcli_provider.Store.Listing.{IsCanonical, list_exact}
use dcm_kcli_provider.Store.Fixtures.{
  dev, dev_text, leaving_dev_text, dict_bolt, same, table_json, dict_bolt-BoltLaws,
  table_json-JsonLaws, web, marshal, unmarshal, provisioning_text, running_text, deleting_text,
  version_text, later_version_text, marshal_version, unmarshal_version,
}

abbrev pub empty : Store dict_bolt
empty = record { db = record { resources = []; name_index = []; meta = [] }; faults = [] }

-- A database with the one VM at a status, whose bytes are `payload`.
abbrev pub holding : String → Store dict_bolt
holding payload = record {
  db = record {
    resources = ("vm-1", payload) ∷ [];
    name_index = ("dcm-web", "vm-1") ∷ [];
    meta = [];
  };
  faults = [];
}

-- The next transaction fails to commit.
abbrev pub failing : Store dict_bolt → Store dict_bolt
failing s = record { db = s.db; faults = some (db_error "no space left") ∷ [] }

-- The next transaction commits and the one after it fails.
abbrev pub filling : Store dict_bolt → Store dict_bolt
filling s = record { db = s.db; faults = none ∷ some (db_error "no space left") ∷ [] }

abbrev pub the_store : StateStore (Store dict_bolt)
the_store = bolt_store dict_bolt table_json

pub the_laws : StateStoreLaws the_store
the_laws = bolt_store-StateStoreLaws dict_bolt table_json dict_bolt-BoltLaws table_json-JsonLaws

pub put_new : the_store.put (web "PROVISIONING") empty ≡ (ok tt, holding provisioning_text)
unfolding put update put_tx commit marshal same bolt_store insert
put_new = refl

pub put_fails :
    the_store.put (web "PROVISIONING") (failing empty) ≡ (err (db_error "no space left"), empty)
unfolding put update put_tx commit marshal same bolt_store
put_fails = refl

pub get_none : (id : String) → the_store.get id empty ≡ err not_found
unfolding get bolt_store lookup
get_none id = refl

pub get_running : the_store.get "vm-1" (holding running_text) ≡ ok (web "RUNNING")
unfolding get unmarshal bolt_store lookup
get_running = refl

pub mark_deleting :
    the_store.update_status "vm-1" "DELETING" (holding running_text)
    ≡ (ok tt, holding deleting_text)
unfolding update_status update update_status_tx commit unmarshal marshal same bolt_store lookup
    insert
mark_deleting = refl

pub get_running_full : the_store.get "vm-1" (filling (holding running_text)) ≡ ok (web "RUNNING")
unfolding get unmarshal bolt_store lookup
get_running_full = refl

pub mark_deleting_full :
    the_store.update_status "vm-1" "DELETING" (filling (holding running_text))
    ≡ (ok tt, failing (holding deleting_text))
unfolding update_status update update_status_tx commit unmarshal marshal same bolt_store lookup
    insert
mark_deleting_full = refl

pub delete_fails :
    the_store.delete "vm-1" (failing (holding deleting_text))
    ≡ (err (db_error "no space left"), holding deleting_text)
unfolding delete update delete_tx commit unindexed or_same unmarshal bolt_store lookup remove
delete_fails = refl

-- A database with the one cluster, whose bytes are `payload`.
abbrev pub holding_cluster : String → Store dict_bolt
holding_cluster payload = record {
  db = record {
    resources = ("cl-1", payload) ∷ [];
    name_index = ("dcm-dev", "cl-1") ∷ [];
    meta = [];
  };
  faults = [];
}

pub get_dev : the_store.get "cl-1" (holding_cluster dev_text) ≡ ok dev
unfolding get unmarshal bolt_store lookup
get_dev = refl

pub mark_dev :
    the_store.update_status "cl-1" "DELETING" (holding_cluster dev_text)
    ≡ (ok tt, holding_cluster leaving_dev_text)
unfolding update_status update update_status_tx commit unmarshal marshal same bolt_store lookup
    insert
mark_dev = refl

pub delete_dev : the_store.delete "cl-1" (holding_cluster leaving_dev_text) ≡ (ok tt, empty)
unfolding delete update delete_tx commit unindexed or_same unmarshal bolt_store lookup remove
delete_dev = refl

-- An entry that the codec does not know.
abbrev pub starting : ResourceEntry
starting = record dev { status = "CREATING" }

pub put_unknown : the_store.put starting empty ≡ (err (json_error "unsupported"), empty)
unfolding put update put_tx commit marshal same bolt_store insert
put_unknown = refl

pub get_provisioning : the_store.get "vm-1" (holding provisioning_text) ≡ ok (web "PROVISIONING")
unfolding get unmarshal bolt_store lookup
get_provisioning = refl

pub list_provisioning :
    the_store.list "vm" (holding provisioning_text) ≡ ok (web "PROVISIONING" ∷ [])
unfolding list bolt_store unmarshal lookup dcm_kcli_provider.Store.list_loop
    dcm_kcli_provider.Store.Fixtures.dict_pairs dcm_kcli_provider.Store.Fixtures.has_part remove
list_provisioning = refl

pub delete_running : the_store.delete "vm-1" (holding running_text) ≡ (ok tt, empty)
unfolding delete update delete_tx commit unindexed or_same unmarshal remove lookup bolt_store
delete_running = refl

pub delete_provisioning : the_store.delete "vm-1" (holding provisioning_text) ≡ (ok tt, empty)
unfolding delete update delete_tx commit unindexed or_same unmarshal remove lookup bolt_store
delete_provisioning = refl

pub mark_up :
    the_store.update_status "vm-1" "RUNNING" (holding provisioning_text)
    ≡ (ok tt, holding running_text)
unfolding update_status update update_status_tx commit unmarshal marshal same bolt_store lookup
    insert
mark_up = refl

pub mark_running :
    the_store.update_status "vm-1" "RUNNING" (holding deleting_text) ≡ (ok tt, holding running_text)
unfolding update_status update update_status_tx commit unmarshal marshal same bolt_store lookup
    insert
mark_running = refl

pub delete_marked : the_store.delete "vm-1" (holding deleting_text) ≡ (ok tt, empty)
unfolding delete update delete_tx commit unindexed or_same unmarshal bolt_store remove lookup
delete_marked = refl

bolt_store-StateStoreLaws_example : StateStoreLaws the_store
bolt_store-StateStoreLaws_example =
    bolt_store-StateStoreLaws dict_bolt table_json dict_bolt-BoltLaws table_json-JsonLaws

put_runs : put dict_bolt table_json (web "RUNNING") empty ≡ (ok tt, holding running_text)
unfolding put update put_tx commit marshal same insert
put_runs = refl

empty-IsIndexed : IsIndexed dict_bolt table_json empty
unfolding get lookup
empty-IsIndexed = record {
  name_of = λ name id h. absurd (ground arith);
  indexed = λ id e h. absurd (ground arith);
}

running-IsIndexed : IsIndexed dict_bolt table_json (holding running_text)
unfolding lookup
running-IsIndexed =
    put-IsIndexed dict_bolt table_json dict_bolt-BoltLaws table_json-JsonLaws (web "RUNNING") empty
      (holding running_text) put_runs refl refl empty-IsIndexed

update_status_runs :
    update_status dict_bolt table_json "vm-1" "DELETING" (holding running_text)
    ≡ (ok tt, holding deleting_text)
unfolding update_status update update_status_tx commit unmarshal marshal same lookup insert
update_status_runs = refl

delete_runs : delete dict_bolt table_json "vm-1" (holding running_text) ≡ (ok tt, empty)
unfolding delete update delete_tx commit unindexed or_same unmarshal remove lookup
delete_runs = refl

running-IsCanonical : IsCanonical dict_bolt table_json (holding running_text)
unfolding lookup
running-IsCanonical k payload h =
    (web "RUNNING", unfold marshal same in ground (arith, eq_iff "vm-1" k))

list_exact_example :
    (es : List ResourceEntry) × (list dict_bolt table_json "vm" (holding running_text) ≡ ok es)
    × ((e : ResourceEntry)
        → Member e es
          ↔ ((get dict_bolt table_json e.id (holding running_text) ≡ ok e) × (e.kind ≡ "vm")))
list_exact_example =
    list_exact dict_bolt table_json dict_bolt-BoltLaws table_json-JsonLaws "vm"
      (holding running_text) running-IsCanonical

deletable :
    (b : dict_bolt.Bucket) (k : String) → (b' : dict_bolt.Bucket) × (dict_bolt.delete b k ≡ ok b')
deletable b k = (remove k b, refl)

-- A Put, and an UpdateStatus of the VM.
deleting-Writes : Writes dict_bolt table_json empty (holding deleting_text)
unfolding lookup
deleting-Writes =
    putting (web "RUNNING") (ok tt) empty (holding running_text) (holding deleting_text) put_runs
      refl refl
      (updating "vm-1" "DELETING" (ok tt) (holding running_text) (holding deleting_text)
        (holding deleting_text) update_status_runs (done (holding deleting_text)))

find_by_kcli_name-Writes_example :
    find_by_kcli_name dict_bolt table_json "dcm-web" (holding deleting_text) ≡ ok (web "DELETING")
unfolding get lookup unmarshal
find_by_kcli_name-Writes_example =
    find_by_kcli_name-Writes dict_bolt table_json dict_bolt-BoltLaws table_json-JsonLaws empty
      (holding deleting_text) "vm-1" (web "DELETING") deletable empty-IsIndexed deleting-Writes refl

-- A file that a later program has written.
abbrev later_file : Store dict_bolt
later_file = record {
  db = record (holding running_text).db { meta = ("schema_version", later_version_text) ∷ [] };
  faults = none ∷ [];
}

new_relabels_example :
    (s' : Store dict_bolt) × (new dict_bolt table_json later_file ≡ some (ok s'))
    × (schema_version dict_bolt table_json s' ≡ ok 1)
    × (s'.db.resources ≡ later_file.db.resources)
    × (s'.db.name_index ≡ later_file.db.name_index)
unfolding schema_version marshal_version unmarshal_version lookup insert
new_relabels_example =
    new_relabels dict_bolt table_json dict_bolt-BoltLaws table_json-JsonLaws 2 version_text
      (("schema_version", version_text) ∷ []) later_file [] refl (omega arith) refl refl refl
