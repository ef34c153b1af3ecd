-- ===== src/Api/Clusters.antt =====
-- internal/api/server/cluster_handlers.go, but for the kubeconfig, which Api/Kubeconfig.antt has.
-- Logging is left out; a text between quotes in a problem's detail is not escaped as `%q` would; the
-- types that a problem lists stand in the order of the source's table.
pub mod Listing
pub mod Laws
pub mod Runs
use dcm_kcli_provider.Prelude.{
  ℕ, String, Bool, true, false, ◌||◌, Option, none, some, List, [], ◌∷◌, ◌==◌, ◌<>◌, map,
  if◌then◌else◌,
}
use dcm_kcli_provider.Prelude.Result.{Result, ok, err}
use dcm_kcli_provider.Prelude.Dict.{Dict, lookup, insert, remove, contains}
use dcm_kcli_provider.Metrics.{inc, dec}
use dcm_kcli_provider.Events.{cluster_event}
use dcm_kcli_provider.Store.Entry.{
  ResourceEntry, StoreError, not_found, store_error_text, StateStore,
}
use dcm_kcli_provider.Kweb.Api.{KwebError, unreachable, ClusterInfo, Params, number, KwebClient}
use dcm_kcli_provider.Monitor.{cluster_map}
use dcm_kcli_provider.Api.Types.{
  ControlPlaneNodes, WorkerNodes, Nodes, ClusterSpec, Cluster, ListParams, Response, resource,
  no_content, problem_response, Page,
}
use dcm_kcli_provider.Api.Helpers.{
  resolve_id, dcm_prefix, trim_dcm_prefix, merge_kcli_hints, resolve_cluster_type,
  resolve_cluster_name, entry_to_cluster,
}
use dcm_kcli_provider.Api.Paging.{page_size, start_index, paginate}
use dcm_kcli_provider.Api.Server.{
  Server, Request, create_problem, delete_problem, with_store, with_kweb, sort_entries, join,
}
use dcm_kcli_provider.Api.Vms.{existing, shown}
use dcm_kcli_provider.Api.Kubeconfig.{Kubeconfig, get_cached_kubeconfig}

abbrev pub supported_cluster_types : Dict String
supported_cluster_types =
    ("generic", "generic")
    ∷ ("k3s", "k3s")
    ∷ ("openshift", "openshift")
    ∷ ("microshift", "microshift")
    ∷ ("hypershift", "hypershift")
    ∷ []

abbrev pub rejected_cluster_types : Dict Bool
rejected_cluster_types = ("kind", true) ∷ []

unfoldable pub join_supported_types : String
join_supported_types = join (map (λ p. p.0) supported_cluster_types)

control_plane_params : Option ControlPlaneNodes → Params → Params
control_plane_params none params = params
control_plane_params (some nodes) params = elim nodes.count [
  | none ↦ params
  | some count ↦ insert "ctlplanes" (number count) params
]

worker_params : Option WorkerNodes → Params → Params
worker_params none params = params
worker_params (some nodes) params = elim nodes.count [
  | none ↦ params
  | some count ↦ insert "workers" (number count) params
]

pub cluster_params : ClusterSpec → Params
unfolding control_plane_params worker_params
cluster_params spec = merge_kcli_hints spec.provider_hints ("cluster_type" ∷ []) (elim spec.nodes [
  | none ↦ []
  | some nodes ↦ worker_params nodes.workers (control_plane_params nodes.control_plane [])
])

-- the type that kweb is asked for, or why there is none
pub kweb_type : String → Result String String
kweb_type ct =
    if contains ct rejected_cluster_types
    then err ("cluster type '" <> ct <> "' is not supported")
    else elim (lookup ct supported_cluster_types) [
      | some t ↦ ok t
      | none ↦ err ("unsupported cluster type '" <> ct <> "'; supported: " <> join_supported_types)
    ]

pub with_version : String → Cluster → Cluster
with_version version cl =
    if version == "" then cl else record cl { spec = record cl.spec { version = some version } }

-- the version that kweb knows
pub enrich_cluster : Dict ClusterInfo → ResourceEntry → Cluster
unfolding with_version
enrich_cluster kweb_map entry = elim (lookup entry.kcli_name kweb_map) [
  | none ↦ entry_to_cluster entry
  | some kcl ↦ with_version kcl.version (entry_to_cluster entry)
]

with_kubeconfig : String × String → Cluster → Cluster
with_kubeconfig (kc, ep) cl = record cl {
  kubeconfig = if kc == "" then cl.kubeconfig else some kc;
  api_endpoint = if ep == "" then cl.api_endpoint else some ep;
}

abbrev pub slice_of_clusters : Result KwebError (List ClusterInfo) → List ClusterInfo
slice_of_clusters (ok clusters) = clusters
slice_of_clusters (err _) = []

module _ {S K : Type 0} (St : StateStore S) (Kw : KwebClient K) where
  pub existing_cluster : String → ResourceEntry → Response Cluster
  existing_cluster id entry =
      if entry.kind == "cluster"
      then resource 201 (entry_to_cluster entry)
      else problem_response 409 ("ID '" <> id <> "' already exists as a " <> entry.kind)

  pub new_cluster_entry : Request → ClusterSpec → ResourceEntry
  new_cluster_entry req spec = record {
    id = resolve_id req.client_id req.uuid_id;
    kcli_name = dcm_prefix <> resolve_cluster_name spec req.client_id req.uuid_name;
    kind = "cluster";
    status = "CREATING";
    created_at = req.now;
  }

  pub created_cluster : ResourceEntry → ClusterSpec → Cluster
  created_cluster entry spec = record {
    api_endpoint = none;
    id = some entry.id;
    kubeconfig = none;
    path = some ("clusters/" <> entry.id);
    spec = spec;
    status = some "CREATING";
  }

  pub persist_cluster : ResourceEntry → ClusterSpec → Server S K → Response Cluster × Server S K
  unfolding created_cluster
  persist_cluster entry spec w =
      let (r, store) = St.put entry w.store in
      elim r [
        | ok _ ↦ (
          resource 201 (created_cluster entry spec),
          record w { store = store; managed = inc "cluster" ∷ w.managed },
        )
        | err _ ↦ (
          problem_response 500 "failed to persist cluster state",
          record w { store = store; kweb = (Kw.delete_cluster entry.kcli_name w.kweb).1 },
        )
      ]

  pub create_new_cluster :
      Request → ClusterSpec → String → Server S K → Response Cluster × Server S K
  unfolding cluster_params new_cluster_entry persist_cluster
  create_new_cluster req spec t w =
      let entry = new_cluster_entry req spec in
      let (r, kweb) = Kw.create_cluster entry.kcli_name t (cluster_params spec) w.kweb in
      let w₁ = with_kweb kweb w in
      elim r [
        | err e ↦ (
          create_problem ("cluster '" <> trim_dcm_prefix entry.kcli_name <> "' already exists") e,
          w₁,
        )
        | ok _ ↦ persist_cluster entry spec w₁
      ]

  pub create_cluster : Request → ClusterSpec → Server S K → Response Cluster × Server S K
  unfolding existing existing_cluster kweb_type create_new_cluster
  create_cluster req spec w = elim (existing St Kw req.client_id w) [
    | some entry ↦ (existing_cluster (resolve_id req.client_id "") entry, w)
    | none ↦ elim (kweb_type (resolve_cluster_type spec)) [
      | err detail ↦ (problem_response 400 detail, w)
      | ok t ↦ create_new_cluster req spec t w
    ]
  ]

  unfoldable pub cluster_results : List ResourceEntry → List ClusterInfo → List Cluster
  unfolding enrich_cluster
  cluster_results entries clusters =
      map (enrich_cluster (cluster_map clusters)) (sort_entries entries)

  unfoldable pub cluster_page :
      ListParams → ℕ → List ResourceEntry → List ClusterInfo → Response (Page Cluster)
  unfolding cluster_results
  cluster_page params start_idx entries clusters =
      let (token, page) =
        paginate (page_size params.max_page_size) start_idx (cluster_results entries clusters) in
      resource 200 (record { next_page_token = token; results = page })

  unfoldable pub listed_clusters :
      ListParams
      → ℕ
      → List ResourceEntry
      → Result KwebError (List ClusterInfo)
      → Response (Page Cluster)
  unfolding cluster_page
  listed_clusters params start_idx entries (err unreachable) =
      problem_response 502 "kweb is unreachable"
  listed_clusters params start_idx entries r =
      cluster_page params start_idx entries (slice_of_clusters r)

  unfoldable pub list_clusters : ListParams → Server S K → Response (Page Cluster) × Server S K
  unfolding listed_clusters
  list_clusters params w = elim (start_index params.page_token) [
    | none ↦ (problem_response 400 ("invalid page_token: \"" <> shown params.page_token <> "\""), w)
    | some start_idx ↦
        let (r, kweb) = Kw.list_clusters w.kweb in
        elim (St.list "cluster" w.store) [
          | err e ↦ (problem_response 500 (store_error_text e), with_kweb kweb w)
          | ok entries ↦ (listed_clusters params start_idx entries r, with_kweb kweb w)
        ]
  ]

  not_found_cluster : {A : Type 0} → String → StoreError → Response A
  not_found_cluster cluster_id not_found =
      problem_response 404 ("cluster '" <> cluster_id <> "' not found")
  not_found_cluster cluster_id e = problem_response 500 (store_error_text e)

  -- after `UpdateStatus(clusterID, "DELETING")`
  pub delete_cluster_in_kweb :
      ℕ → String → ResourceEntry → Server S K → Response Cluster × Server S K
  delete_cluster_in_kweb now cluster_id entry w =
      let (r, kweb) = Kw.delete_cluster entry.kcli_name w.kweb in
      let w₁ = with_kweb kweb w in
      elim r [
        | err e ↦
            (delete_problem e, with_store (St.update_status cluster_id entry.status w₁.store).1 w₁)
        | ok _ ↦ (
          no_content,
          record w₁ {
            published =
                cluster_event (record {
                  id = cluster_id;
                  status = "DELETED";
                  message = "Cluster " <> entry.kcli_name <> " deleted";
                  timestamp = now;
                })
                ∷ w₁.published;
            store = (St.delete cluster_id w₁.store).1;
            kc_cache = remove cluster_id w₁.kc_cache;
            managed = dec "cluster" ∷ w₁.managed;
          },
        )
      ]

  pub delete_cluster : ℕ → String → Server S K → Response Cluster × Server S K
  unfolding not_found_cluster delete_cluster_in_kweb
  delete_cluster now cluster_id w = elim (St.get cluster_id w.store) [
    | err e ↦ (not_found_cluster cluster_id e, w)
    | ok entry ↦
        if (entry.status == "DELETING") || (entry.status == "DELETED")
        then (no_content, w)
        else delete_cluster_in_kweb now cluster_id entry
            (with_store (St.update_status cluster_id "DELETING" w.store).1 w)
  ]

  module _ (unmarshal : String → Option Kubeconfig) (encode : String → String) where
    -- the kubeconfig of an active cluster; any other cluster's is forgotten
    attach_kubeconfig : ℕ → ResourceEntry → Cluster → Server S K → Response Cluster × Server S K
    unfolding with_kubeconfig get_cached_kubeconfig
    attach_kubeconfig now entry cl w =
        if entry.status == "ACTIVE"
        then (let (found, w₁) =
              get_cached_kubeconfig Kw unmarshal encode now entry.id entry.kcli_name w in
            (resource 200 (with_kubeconfig found cl), w₁))
        else (resource 200 cl, record w { kc_cache = remove entry.id w.kc_cache })

    pub get_cluster : ℕ → String → Server S K → Response Cluster × Server S K
    unfolding not_found_cluster attach_kubeconfig with_version
    get_cluster now cluster_id w = elim (St.get cluster_id w.store) [
      | err e ↦ (not_found_cluster cluster_id e, w)
      | ok entry ↦
          let (r, kweb) = Kw.get_cluster entry.kcli_name w.kweb in
          let w₁ = with_kweb kweb w in
          elim r [
            | err _ ↦ attach_kubeconfig now entry (entry_to_cluster entry) w₁
            | ok kc ↦
                attach_kubeconfig now entry (with_version kc.version (entry_to_cluster entry)) w₁
          ]
    ]
