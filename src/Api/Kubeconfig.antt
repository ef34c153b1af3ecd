-- ===== src/Api/Kubeconfig.antt =====
-- The kubeconfig of a cluster, internal/api/server/cluster_handlers.go: `extractAPIEndpoint` and
-- `getCachedKubeconfig`. What yaml.Unmarshal reads of a text and base64 encoding are parameters.
pub mod Laws
use dcm_kcli_provider.Prelude.{
  ℕ, String, ◌==◌, Option, none, some, List, [], ◌∷◌, since_lt, if◌then◌else◌,
}
use dcm_kcli_provider.Prelude.Result.{Result, ok, err}
use dcm_kcli_provider.Prelude.Dict.{lookup, insert}
use dcm_kcli_provider.Kweb.Api.{KwebError, KwebClient}
use dcm_kcli_provider.Api.Server.{CachedKubeconfig, kubeconfig_cache_ttl, Server, with_kweb}

-- the fields that the source reads
pub record NamedContext : Type 0 where
  pub name : String
  pub cluster : String

pub record NamedCluster : Type 0 where
  pub name : String
  pub server : String

pub record Kubeconfig : Type 0 where
  pub current_context : String
  pub contexts : List NamedContext
  pub clusters : List NamedCluster

-- the loop over the contexts, up to its `break`
unfoldable pub target_cluster : String → List NamedContext → String
target_cluster current [] = ""
target_cluster current (ctx ∷ contexts) =
    let rest = target_cluster current contexts in if ctx.name == current then ctx.cluster else rest

unfoldable pub server_of : String → List NamedCluster → Option String
server_of target [] = none
server_of target (cl ∷ clusters) =
    let rest = server_of target clusters in if cl.name == target then some cl.server else rest

unfoldable pub first_server : List NamedCluster → String
first_server [] = ""
first_server (cl ∷ _) = cl.server

unfoldable pub extract_api_endpoint : (String → Option Kubeconfig) → String → String
unfolding target_cluster server_of first_server
extract_api_endpoint unmarshal text = elim (unmarshal text) [
  | none ↦ ""
  | some kc ↦ elim (server_of (target_cluster kc.current_context kc.contexts) kc.clusters) [
    | some server ↦ server
    | none ↦ first_server kc.clusters
  ]
]

module _ {S K : Type 0} (Kw : KwebClient K) (unmarshal : String → Option Kubeconfig)
    (encode : String → String) where
  -- the cache was missed: the kubeconfig and the endpoint, "" where there is none
  pub fetch_kubeconfig : ℕ → String → String → Server S K → (String × String) × Server S K
  fetch_kubeconfig now cluster_id kcli_name w =
      let (r, kweb) = Kw.get_cluster_kubeconfig kcli_name w.kweb in
      let w₁ = with_kweb kweb w in
      elim r [
        | err _ ↦ (("", ""), w₁)
        | ok raw ↦ if raw == "" then (("", ""), w₁) else (
          (encode raw, extract_api_endpoint unmarshal raw),
          record w₁ {
            kc_cache =
                insert cluster_id
                  (record {
                    kubeconfig = encode raw;
                    endpoint = extract_api_endpoint unmarshal raw;
                    fetched_at = now;
                  })
                  w₁.kc_cache;
          },
        )
      ]

  unfoldable pub get_cached_kubeconfig :
      ℕ → String → String → Server S K → (String × String) × Server S K
  unfolding fetch_kubeconfig
  get_cached_kubeconfig now cluster_id kcli_name w = elim (lookup cluster_id w.kc_cache) [
    | none ↦ fetch_kubeconfig now cluster_id kcli_name w
    | some cached ↦
        if since_lt now cached.fetched_at kubeconfig_cache_ttl
        then ((cached.kubeconfig, cached.endpoint), w)
        else fetch_kubeconfig now cluster_id kcli_name w
  ]
