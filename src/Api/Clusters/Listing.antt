-- ===== src/Api/Clusters/Listing.antt =====
-- A client that lists all clusters through `ListClusters` of internal/api/server/cluster_handlers.go.
use dcm_kcli_provider.Prelude.{
  ℕ, ◌<◌, ◌≡◌, ◌∙◌, refl, Option, none, List, length, arith, length-map,
}
use dcm_kcli_provider.Prelude.Result.{Result, ok, err}
use dcm_kcli_provider.Text.{int_limit}
use dcm_kcli_provider.Store.Entry.{ResourceEntry, StateStore}
use dcm_kcli_provider.Kweb.Api.{
  KwebError, unreachable, conflict, not_found, http_error, other_error, ClusterInfo, KwebClient,
}
use dcm_kcli_provider.Api.Types.{ListParams, problem_response}
use dcm_kcli_provider.Api.Server.{Server, sort_entries}
use dcm_kcli_provider.Api.Sorting.{length-sort}
use dcm_kcli_provider.Api.Paging.Client.{paged, list_pages, list_pages_complete}
use dcm_kcli_provider.Api.Clusters.{
  slice_of_clusters, cluster_results, cluster_page, listed_clusters, list_clusters,
}

module _ {S K : Type 0} (St : StateStore S) (Kw : KwebClient K) where
  length-cluster_results :
      (entries : List ResourceEntry) (kweb_clusters : List ClusterInfo)
      → length (cluster_results St Kw entries kweb_clusters) ≡ length entries
  unfolding cluster_results
  length-cluster_results entries kweb_clusters =
      length-map _ (sort_entries entries) ∙ length-sort entries

  -- Only an unreachable kweb fails the list.
  listed_clusters-page :
      (params : ListParams) (start : ℕ) (entries : List ResourceEntry)
      (r : Result KwebError (List ClusterInfo))
      → ¬ (r ≡ err unreachable)
      → listed_clusters St Kw params start entries r
        ≡ cluster_page St Kw params start entries (slice_of_clusters r)
  unfolding listed_clusters
  listed_clusters-page params start entries (ok l) h = refl
  listed_clusters-page params start entries (err unreachable) h = absurd (h refl)
  listed_clusters-page params start entries (err conflict) h = refl
  listed_clusters-page params start entries (err not_found) h = refl
  listed_clusters-page params start entries (err (http_error _ _)) h = refl
  listed_clusters-page params start entries (err (other_error _)) h = refl

  module _ (P : K → Type 0) (r : Result KwebError (List ClusterInfo))
      (entries : List ResourceEntry) where
    -- The state of a server whose clusters are listed.
    IsListed : Server S K → Type 0
    IsListed w = (St.list "cluster" w.store ≡ ok entries) × P w.kweb

    -- Where kweb gives the same answer to every list of the clusters, other than that it cannot be
    -- reached, and the store lists fewer entries than the largest int, a client with fuel for one page
    -- of each entry that calls ListClusters with any page size, from the first page on and each time with
    -- the token of the page before, collects exactly the clusters of all the entries, in the listings'
    -- order, with what kweb says of them.
    pub list_clusters_complete :
        (fuel : ℕ) (size : Option ℕ) (w : Server S K)
        → ((k : K) → P k → ((Kw.list_clusters k).0 ≡ r) × P (Kw.list_clusters k).1)
        → ¬ (r ≡ err unreachable)
        → P w.kweb
        → St.list "cluster" w.store ≡ ok entries
        → length entries < int_limit
        → length entries < fuel
        → list_pages (list_clusters St Kw) fuel size none w
          ≡ cluster_results St Kw entries (slice_of_clusters r)
    unfolding IsListed list_clusters cluster_page paged problem_response
    list_clusters_complete fuel size w steady reached p listing h l =
        let n = length-cluster_results entries (slice_of_clusters r) in
        list_pages_complete (list_clusters St Kw) IsListed size
          (cluster_results St Kw entries (slice_of_clusters r))
          (λ token start v e q.
            rw (e, list_clusters)
              (rw (q.0) (
                rw ((steady v.kweb q.1).0) (
                  rw (listed_clusters-page _ start entries r reached)
                    (refl, (q.0, (steady v.kweb q.1).1))))))
          (λ token v e. rw (e, list_clusters) refl) fuel w (listing, p) (omega (arith, n))
          (omega (arith, n))
