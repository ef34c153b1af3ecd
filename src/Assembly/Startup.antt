-- ===== src/Assembly/Startup.antt =====
-- `NewServer` of cmd/dcm-kcli-provider/server.go. What it opens and connects to is given by the record
-- `Environment`; the router, its middleware and the timeouts of the HTTP server are left out.
pub mod Laws
use dcm_kcli_provider.Prelude.{
  ℕ, zero, suc, ◌+◌, ◌≡◌, ◌≢◌, refl, String, Bool, true, false, not, Option, none, some, List, [],
  ◌∷◌, ◌==◌, ◌<>◌, length, arith, eq_iff, if◌then◌else◌,
}
use dcm_kcli_provider.Prelude.Result.{Result, ok, err}
use dcm_kcli_provider.Prelude.Dict.{Dict, lookup}
use dcm_kcli_provider.Store.Entry.{ResourceEntry, StoreError}
use dcm_kcli_provider.Paths.{SpecPath, post_paths}
use dcm_kcli_provider.Config.{Config}
use dcm_kcli_provider.Registration.{ProviderConfig, SpmClient, Registrar, new_registrar}

-- `open_store` is store.New, `list_all` the store's ListAll, `connect` events.NewNATSPublisher, and
-- `get_swagger` the loading of the embedded document; the two UUIDs are those that the uuid package
-- makes up where an id is not configured.
pub record Environment (S N W : Type 0) : Type 0 where
  pub open_store : String → Result StoreError S
  pub list_all : S → Result StoreError (List ResourceEntry)
  pub connect : String → Result String N
  pub get_swagger : Result String (List SpecPath)
  pub spm_client : SpmClient W
  pub spm : W
  pub vm_uuid : String
  pub cluster_uuid : String

-- The publisher: one over NATS, or the one that does nothing.
pub data Publisher (N : Type 0) : Type 0 where
  nats : N → Publisher N
  noop : Publisher N

-- What is added to the gauge `ResourcesManaged` at the start, by its label.
pub record Seeded : Type 0 where
  pub vms : ℕ
  pub clusters : ℕ

pub record Server (S N W : Type 0) : Type 0 where
  pub cfg : Config
  pub store : S
  pub publisher : Publisher N
  pub registrars : List (Registrar W)
  pub seeded : Seeded

pub data StartError : Type 0 where
  opening_store : StoreError → StartError
  resolving_paths creating_vm_registrar creating_cluster_registrar : String → StartError
  loading_spec : String → StartError

-- An error of `NewServer`, and whether the store that it opened is closed again.
pub record Failure : Type 0 where
  pub error : StartError
  pub store_closed : Bool

-- switch e.Type { … }
count_entry : String → Seeded → Seeded
count_entry kind n =
    if kind == "vm"
    then record n { vms = suc n.vms }
    else if kind == "cluster"
    then record n { clusters = suc n.clusters }
    else n

count_loop : List ResourceEntry → Seeded → Seeded
unfolding count_entry
count_loop [] n = n
count_loop (e ∷ es) n = count_loop es (count_entry e.kind n)

-- An error of ListAll leaves the gauge alone.
seeded_by : Result StoreError (List ResourceEntry) → Seeded
unfolding count_loop
seeded_by (err _) = record { vms = 0; clusters = 0 }
seeded_by (ok entries) = count_loop entries (record { vms = 0; clusters = 0 })

-- if cfg.NATSURL != "" { … }: a failed connection is logged
chosen_publisher : {N : Type 0} → String → Result String N → Publisher N
chosen_publisher url connection =
    if url == "" then noop else elim connection [ err _ ↦ noop | ok n ↦ nats n ]

-- m[key] of a map of strings
abbrev pub suffix_of : Option String → String
suffix_of none = ""
suffix_of (some s) = s

abbrev pub base_url : String
base_url = "/api/v1alpha1"

abbrev given_id : String → String → String
given_id id uuid = if id == "" then uuid else id

vm_provider_cfg : Config → String → String → ProviderConfig
vm_provider_cfg cfg suffix uuid = record {
  id = given_id cfg.provider_id_vm uuid;
  name = cfg.provider_name_vm;
  display_name = "kcli Virtual Machines";
  endpoint = "http://" <> cfg.listen_address <> base_url <> suffix;
  service_type = "vm";
  schema_version = cfg.schema_version;
  operations = "create" ∷ "delete" ∷ "get" ∷ "list" ∷ [];
  metadata = ("backend", "libvirt") ∷ ("kweb_url", cfg.kweb_url) ∷ [];
}

cluster_provider_cfg : Config → String → String → ProviderConfig
cluster_provider_cfg cfg suffix uuid = record {
  id = given_id cfg.provider_id_cluster uuid;
  name = cfg.provider_name_cluster;
  display_name = "kcli Kubernetes Clusters";
  endpoint = "http://" <> cfg.listen_address <> base_url <> suffix;
  service_type = "cluster";
  schema_version = cfg.schema_version;
  operations = "create" ∷ "delete" ∷ "get" ∷ "list" ∷ [];
  metadata = ("backend", "libvirt") ∷ ("kweb_url", cfg.kweb_url) ∷ [];
}

abbrev closing : {A : Type 0} → StartError → Result Failure A
closing e = err (record { error = e; store_closed = true })

module _ {S N W : Type 0} (E : Environment S N W) (cfg : Config) where
  -- the two registrars, and the check of the document that comes after them
  with_registrars : S → Dict String → Result Failure (Server S N W)
  unfolding vm_provider_cfg cluster_provider_cfg chosen_publisher seeded_by
  with_registrars store paths =
      let vm_cfg = vm_provider_cfg cfg (suffix_of (lookup "vm" paths)) E.vm_uuid in
      let cluster_cfg =
        cluster_provider_cfg cfg (suffix_of (lookup "cluster" paths)) E.cluster_uuid in
      elim (new_registrar E.spm_client E.spm cfg.spm_url vm_cfg []) [
        | err m ↦ closing (creating_vm_registrar m)
        | ok vm ↦ elim (new_registrar E.spm_client E.spm cfg.spm_url cluster_cfg []) [
          | err m ↦ closing (creating_cluster_registrar m)
          | ok cluster ↦ elim E.get_swagger [
            | err m ↦ closing (loading_spec m)
            | ok _ ↦ ok (record {
              cfg = cfg;
              store = store;
              publisher = chosen_publisher cfg.nats_url (E.connect cfg.nats_url);
              registrars = vm ∷ cluster ∷ [];
              seeded = seeded_by (E.list_all store);
            })
          ]
        ]
      ]

  unfoldable pub new_server : Result Failure (Server S N W)
  unfolding with_registrars
  new_server = elim (E.open_store cfg.state_store_path) [
    | err e ↦ err (record { error = opening_store e; store_closed = false })
    | ok store ↦ elim (post_paths E.get_swagger) [
      | err m ↦ closing (resolving_paths m)
      | ok paths ↦ with_registrars store paths
    ]
  ]
