-- ===== src/Api/Kubeconfig/Laws.antt =====
-- What `extractAPIEndpoint` picks, and what `getCachedKubeconfig` remembers.
use dcm_kcli_provider.Prelude.{
  ℕ, ◌+◌, ◌<◌, String, ◌≡◌, refl, ap, ◌∙◌, inl, inr, true, false, Option, none, some, List, [], ◌∷◌,
  ◌==◌, arith, eq_iff, eq_refl, Member, Bool-cases, since_lt,
}
use dcm_kcli_provider.Prelude.Result.{ok}
use dcm_kcli_provider.Prelude.Dict.{lookup, insert, lookup-insert}
use dcm_kcli_provider.Kweb.Api.{KwebClient}
use dcm_kcli_provider.Api.Server.{CachedKubeconfig, kubeconfig_cache_ttl, Server}
use dcm_kcli_provider.Api.Kubeconfig.{
  NamedCluster, Kubeconfig, target_cluster, server_of, extract_api_endpoint, fetch_kubeconfig,
  get_cached_kubeconfig,
}

-- The server of a cluster of that name.
abbrev pub Serves : String → List NamedCluster → String → Type 0
Serves target clusters server =
    (c : NamedCluster) × Member c clusters × (c.name ≡ target) × (c.server ≡ server)

server_of-Serves :
    (target : String) (clusters : List NamedCluster) (cl : NamedCluster)
    → Member cl clusters
    → cl.name ≡ target
    → (server : String) × (server_of target clusters ≡ some server) × Serves target clusters server
unfolding server_of
server_of-Serves target [] cl m n = absurd m
server_of-Serves target (c ∷ clusters) cl m n = elim (Bool-cases (c.name == target)) [
  | inl here ↦ (c.server, rw (here) refl, (c, inl refl, (eq_iff c.name target).0 here, refl))
  | inr other ↦ elim m [
    | inl same ↦
        absurd (ground (arith, eq_iff c.name target, ap (λ (x : NamedCluster). x.name) same))
    | inr later ↦
        let (server, found, (d, at, named, serves)) = server_of-Serves target clusters cl later n in
        (server, rw (other) found, (d, inr at, named, serves))
  ]
]

-- Where the kubeconfig can be read and lists a cluster under the name that its current context
-- gives, the endpoint is the server of a listed cluster of that name.
pub extract_api_endpoint-Serves :
    (unmarshal : String → Option Kubeconfig) (text : String) (kc : Kubeconfig) (cl : NamedCluster)
    → unmarshal text ≡ some kc
    → Member cl kc.clusters
    → cl.name ≡ target_cluster kc.current_context kc.contexts
    → Serves
        (target_cluster kc.current_context kc.contexts)
        kc.clusters
        (extract_api_endpoint unmarshal text)
unfolding extract_api_endpoint
extract_api_endpoint-Serves unmarshal text kc cl reads m n =
    let target = target_cluster kc.current_context kc.contexts in
    let (server, found, (c, at, named, serves)) = server_of-Serves target kc.clusters cl m n in
    rw (reads, extract_api_endpoint) (rw (found) (c, at, named, serves))

kept_at : (String → Option Kubeconfig) → (String → String) → ℕ → String → CachedKubeconfig
kept_at unmarshal encode now raw = record {
  kubeconfig = encode raw;
  endpoint = extract_api_endpoint unmarshal raw;
  fetched_at = now;
}

module _ {S K : Type 0} (Kw : KwebClient K) (unmarshal : String → Option Kubeconfig)
    (encode : String → String) where
  after_fetch : ℕ → String → String → String → Server S K → Server S K
  after_fetch now id name raw w = record w {
    kweb = (Kw.get_cluster_kubeconfig name w.kweb).1;
    kc_cache = insert id (kept_at unmarshal encode now raw) w.kc_cache;
  }

  first_fetch :
      (now : ℕ) (id name raw : String) (w : Server S K)
      → lookup id w.kc_cache ≡ none
      → (Kw.get_cluster_kubeconfig name w.kweb).0 ≡ ok raw
      → (raw == "") ≡ false
      → get_cached_kubeconfig Kw unmarshal encode now id name w
        ≡ ((encode raw, extract_api_endpoint unmarshal raw), after_fetch now id name raw w)
  unfolding get_cached_kubeconfig fetch_kubeconfig after_fetch kept_at
  first_fetch now id name raw w missing fetched given =
      rw (missing, get_cached_kubeconfig) (rw (fetched, fetch_kubeconfig) (rw (given) refl))

  cached_answer :
      (later : ℕ) (id name : String) (c : CachedKubeconfig) (w : Server S K)
      → lookup id w.kc_cache ≡ some c
      → since_lt later c.fetched_at kubeconfig_cache_ttl ≡ true
      → get_cached_kubeconfig Kw unmarshal encode later id name w ≡ ((c.kubeconfig, c.endpoint), w)
  unfolding get_cached_kubeconfig
  cached_answer later id name c w found soon = rw (found, get_cached_kubeconfig) (rw (soon) refl)

  -- After a kubeconfig that was not cached is fetched and is not empty, getCachedKubeconfig answers
  -- the same before its time to live has passed, without a call of kweb and with no change of the
  -- state.
  pub get_cached_kubeconfig_again :
      (now later : ℕ) (id name raw : String) (w : Server S K)
      → lookup id w.kc_cache ≡ none
      → (Kw.get_cluster_kubeconfig name w.kweb).0 ≡ ok raw
      → (raw == "") ≡ false
      → later < now + kubeconfig_cache_ttl
      → let (found, w') = get_cached_kubeconfig Kw unmarshal encode now id name w in
        get_cached_kubeconfig Kw unmarshal encode later id name w' ≡ (found, w')
  unfolding after_fetch kept_at
  get_cached_kubeconfig_again now later id name raw w missing fetched given soon =
      rw (first_fetch now id name raw w missing fetched given) (
        cached_answer later id name (kept_at unmarshal encode now raw)
          (after_fetch now id name raw w)
          (lookup-insert id id (kept_at unmarshal encode now raw) w.kc_cache ∙ rw (eq_refl id) refl)
          (ground arith))
