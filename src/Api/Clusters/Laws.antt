-- ===== src/Api/Clusters/Laws.antt =====
-- What `CreateCluster` and `DeleteCluster` do, over any store that keeps the store's laws.
use dcm_kcli_provider.Prelude.{
  ℕ, String, ◌≡◌, refl, ◌∙◌, ap, false, none, ◌∷◌, ◌==◌, ◌<>◌, arith, if◌then◌else◌,
}
use dcm_kcli_provider.Prelude.Result.{ok, err}
use dcm_kcli_provider.Prelude.Dict.{lookup, contains, lookup-remove}
use dcm_kcli_provider.Metrics.{dec}
use dcm_kcli_provider.Events.{cluster_event}
use dcm_kcli_provider.Store.Entry.{ResourceEntry, StoreError, not_found, StateStore}
use dcm_kcli_provider.Store.Contract.{StateStoreLaws}
use dcm_kcli_provider.Kweb.Api.{KwebClient}
use dcm_kcli_provider.Api.Types.{ClusterSpec, no_content, problem_response, http_status}
use dcm_kcli_provider.Api.Helpers.{resolve_cluster_type}
use dcm_kcli_provider.Api.Server.{Server, Request}
use dcm_kcli_provider.Api.Vms.{existing}
use dcm_kcli_provider.Api.Vms.Delete.{is_leaving, removed_answers}
use dcm_kcli_provider.Api.Clusters.{
  supported_cluster_types, rejected_cluster_types, join_supported_types, kweb_type,
  new_cluster_entry, persist_cluster, create_new_cluster, create_cluster, delete_cluster_in_kweb,
  delete_cluster, cluster_params,
}

-- why a type that is not supported is refused
abbrev refusal : String → String
refusal ct =
    if contains ct rejected_cluster_types
    then "cluster type '" <> ct <> "' is not supported"
    else "unsupported cluster type '" <> ct <> "'; supported: " <> join_supported_types

kweb_type_unsupported :
    (ct : String) → contains ct supported_cluster_types ≡ false → kweb_type ct ≡ err (refusal ct)
unfolding kweb_type contains
kweb_type_unsupported ct h = ground arith

get-after :
    {S A : Type 0} (St : StateStore S) (t : A × S) {a : A} {s' : S}
    → t ≡ (a, s')
    → (j : String) → St.get j t.1 ≡ St.get j s'
get-after St t h j = ap (λ p. St.get j p.1) h

module _ {S K : Type 0} (St : StateStore S) (Kw : KwebClient K) (req : Request) (spec : ClusterSpec)
    (w : Server S K) where
  -- Where the client's id is not taken, a cluster of a type that is not in the table of supported
  -- types is answered with 400, and neither kweb nor the store nor anything else changes.
  pub create_cluster_unsupported :
      existing St Kw req.client_id w ≡ none
      → contains (resolve_cluster_type spec) supported_cluster_types ≡ false
      → let (r, w') = create_cluster St Kw req spec w in (http_status r ≡ 400) × (w' ≡ w)
  unfolding create_cluster problem_response
  create_cluster_unsupported fresh unsupported =
      rw (fresh, create_cluster)
        (rw (kweb_type_unsupported (resolve_cluster_type spec) unsupported) (refl, refl))

  abbrev entry : ResourceEntry
  entry = new_cluster_entry St Kw req spec

  -- Where the client's id is not taken, the cluster's type is supported and kweb creates it, but the
  -- store does not take the entry, CreateCluster answers 500, deletes the cluster from kweb again,
  -- leaves the gauge, and the store answers every id as before.
  pub create_cluster_rolled_back :
      (t : String) (s' : S) (e : StoreError) (j : String)
      → StateStoreLaws St
      → existing St Kw req.client_id w ≡ none
      → kweb_type (resolve_cluster_type spec) ≡ ok t
      → (Kw.create_cluster entry.kcli_name t (cluster_params spec) w.kweb).0 ≡ ok tt
      → St.put entry w.store ≡ (err e, s')
      → let (r, w') = create_cluster St Kw req spec w in
        (http_status r ≡ 500)
        × (w'.kweb
            ≡ (Kw.delete_cluster entry.kcli_name
                (Kw.create_cluster entry.kcli_name t (cluster_params spec) w.kweb).1).1)
        × (w'.managed ≡ w.managed)
        × (St.get j w'.store ≡ St.get j w.store)
  unfolding create_cluster create_new_cluster persist_cluster problem_response
  create_cluster_rolled_back t s' e j L fresh supported created failed =
      rw (fresh, create_cluster)
        (rw (supported) (
          unfold create_new_cluster persist_cluster in
          rw (created, create_new_cluster)
            (rw (failed, persist_cluster)
              (
                refl,
                refl,
                refl,
                get-after St (St.put entry w.store) failed j
                    ∙ L.get-put_failed entry w.store s' e j failed,
              ))))

module _ {S K : Type 0} (St : StateStore S) (Kw : KwebClient K) (now : ℕ) (id : String)
    (entry : ResourceEntry) (w : Server S K) where
  -- Where the cluster is stored and live and kweb and the store delete it, DeleteCluster answers
  -- 204, publishes one DELETED event, counts the gauge down, forgets that cluster's kubeconfig
  -- alone, and afterwards the store does not find the id and answers other ids as before.
  pub delete_cluster_ok :
      (s₁ s₂ : S) (j : String)
      → StateStoreLaws St
      → St.get id w.store ≡ ok entry
      → is_leaving entry ≡ false
      → (Kw.delete_cluster entry.kcli_name w.kweb).0 ≡ ok tt
      → St.update_status id "DELETING" w.store ≡ (ok tt, s₁)
      → St.delete id s₁ ≡ (ok tt, s₂)
      → let (r, w') = delete_cluster St Kw now id w in
        (r ≡ no_content)
        × (w'.managed ≡ dec "cluster" ∷ w.managed)
        × (w'.published
            ≡ cluster_event (record {
              id = id;
              status = "DELETED";
              message = "Cluster " <> entry.kcli_name <> " deleted";
              timestamp = now;
            })
              ∷ w.published)
        × (lookup j w'.kc_cache ≡ (if id == j then none else lookup j w.kc_cache))
        × (St.get j w'.store ≡ (if id == j then err not_found else St.get j w.store))
  unfolding delete_cluster delete_cluster_in_kweb
  delete_cluster_ok s₁ s₂ j L found live gone marked removed =
      let left : (St.delete id (St.update_status id "DELETING" w.store).1).1 ≡ s₂ =
        ap (λ s. (St.delete id s).1) (ap (λ p. p.1) marked) ∙ ap (λ p. p.1) removed in
      rw (found, delete_cluster)
        (rw (live) (
          rw (gone, delete_cluster_in_kweb)
            (
              refl,
              refl,
              refl,
              lookup-remove id j w.kc_cache,
              ap (St.get j) left
                  ∙ removed_answers St L id "DELETING" entry w.store s₁ s₂ j found marked removed,
            )))
