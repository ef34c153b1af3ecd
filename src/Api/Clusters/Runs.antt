-- ===== src/Api/Clusters/Runs.antt =====
-- Runs of the cluster handlers, on the store and the kwebs of the fixtures.
use dcm_kcli_provider.Prelude.{
  String, ◌≡◌, refl, Option, none, some, List, [], ◌∷◌, ◌==◌, ◌<>◌, if◌then◌else◌,
}
use dcm_kcli_provider.Prelude.Result.{err}
use dcm_kcli_provider.Prelude.Dict.{lookup}
use dcm_kcli_provider.Metrics.{dec}
use dcm_kcli_provider.Events.{cluster_event}
use dcm_kcli_provider.Store.Entry.{not_found}
use dcm_kcli_provider.Store.Fixtures.{dict_bolt, dev, dev_text, leaving_dev_text}
use dcm_kcli_provider.Store.{Store}
use dcm_kcli_provider.Store.Runs.{
  the_store, the_laws, empty, holding_cluster, get_dev, mark_dev, delete_dev,
}
use dcm_kcli_provider.Kweb.Api.{object, str, field, end}
use dcm_kcli_provider.Kweb.Fixtures.{kweb_up}
use dcm_kcli_provider.Api.Types.{ClusterSpec, no_content}
use dcm_kcli_provider.Api.Server.{Server, Request}
use dcm_kcli_provider.Api.Kubeconfig.{Kubeconfig}
use dcm_kcli_provider.Api.Clusters.{delete_cluster}
use dcm_kcli_provider.Api.Clusters.Laws.{delete_cluster_ok}

abbrev spec : ClusterSpec
spec = record {
  metadata = some (record { name = "dev" });
  nodes = none;
  provider_hints = none;
  service_type = "cluster";
  version = none;
  additional_properties = [];
}

abbrev kind_spec : ClusterSpec
kind_spec = record spec {
  provider_hints = some (("kcli", object (field "cluster_type" (str "kind") end)) ∷ []);
}

abbrev request : Request
request = record {
  now = 2000;
  uuid_name = "11111111-aaaa";
  uuid_id = "22222222-bbbb";
  client_id = some "cl-1";
}

abbrev server_on : Store dict_bolt → Server (Store dict_bolt) (List String)
server_on s = record { store = s; kweb = []; published = []; managed = []; kc_cache = [] }

delete_cluster_ok_example :
    let (r, w') =
      delete_cluster the_store kweb_up 9 "cl-1" (server_on (holding_cluster dev_text)) in
    (r ≡ no_content)
    × (w'.managed ≡ dec "cluster" ∷ [])
    × (w'.published
        ≡ cluster_event (record {
          id = "cl-1";
          status = "DELETED";
          message = "Cluster " <> "dcm-dev" <> " deleted";
          timestamp = 9;
        })
          ∷ [])
    × (lookup "cl-1" w'.kc_cache ≡ (if "cl-1" == "cl-1" then none else lookup "cl-1" []))
    × (the_store.get "cl-1" w'.store ≡ (
        if "cl-1" == "cl-1"
        then err not_found
        else the_store.get "cl-1" (holding_cluster dev_text)))
delete_cluster_ok_example =
    delete_cluster_ok the_store kweb_up 9 "cl-1" dev (server_on (holding_cluster dev_text))
      (holding_cluster leaving_dev_text) empty "cl-1" the_laws get_dev refl refl mark_dev delete_dev

abbrev parsed : Kubeconfig
parsed = record {
  current_context = "admin";
  contexts = (record { name = "admin"; cluster = "dev" }) ∷ [];
  clusters =
      (record { name = "old"; server = "https://10.0.0.1:6443" })
      ∷ (record { name = "dev"; server = "https://10.0.0.2:6443" })
      ∷ [];
}

-- A reader that makes the same of every text, and an encoding that keeps it.
abbrev reads : String → Option Kubeconfig
reads _ = some parsed

abbrev keeps : String → String
keeps text = text
