-- ===== src/Assembly/Startup/Laws.antt =====
-- What holds of the server that `NewServer` of cmd/dcm-kcli-provider/server.go makes, and of its
-- failures.
use dcm_kcli_provider.Prelude.{
  ℕ, ◌+◌, ◌≡◌, String, Bool, true, false, not, List, [], ◌∷◌, map, ◌==◌, ◌<>◌, arith, eq_iff,
  if◌then◌else◌, inl, inr,
}
use dcm_kcli_provider.Prelude.Result.{ok, err, Result-cases}
use dcm_kcli_provider.Store.Entry.{ResourceEntry}
use dcm_kcli_provider.Kweb.Api.{KwebClient}
use dcm_kcli_provider.Paths.{SpecPath, post_paths}
use dcm_kcli_provider.Paths.Laws.{last_path, post_paths-lookup}
use dcm_kcli_provider.Config.{Config}
use dcm_kcli_provider.Registration.{Registrar, new_registrar}
use dcm_kcli_provider.Assembly.Endpoints.{readiness_handler, all_registered}
use dcm_kcli_provider.Assembly.Startup.{
  Environment, Server, Failure, StartError, opening_store, resolving_paths, creating_vm_registrar,
  creating_cluster_registrar, loading_spec, Seeded, count_entry, count_loop, seeded_by,
  with_registrars, new_server, suffix_of,
}

abbrev pub is_opening : StartError → Bool
is_opening (opening_store _) = true
is_opening (resolving_paths _) = false
is_opening (creating_vm_registrar _) = false
is_opening (creating_cluster_registrar _) = false
is_opening (loading_spec _) = false

-- The number of the entries of a kind.
pub count_kind : String → List ResourceEntry → ℕ
count_kind kind [] = 0
count_kind kind (e ∷ es) = (if e.kind == kind then 1 else 0) + count_kind kind es

count_loop_counts :
    (es : List ResourceEntry) (n : Seeded)
    → ((count_loop es n).vms ≡ n.vms + count_kind "vm" es)
      × ((count_loop es n).clusters ≡ n.clusters + count_kind "cluster" es)
unfolding count_loop count_entry count_kind
count_loop_counts [] n = (omega arith, omega arith)
count_loop_counts (e ∷ es) n =
    let ih = count_loop_counts es (count_entry e.kind n) in
    ground (arith, ih, eq_iff e.kind "vm", eq_iff e.kind "cluster", eq_iff "vm" "cluster")

-- What a registrar tells the SPM of the service and of where it is.
abbrev pub announced : {W : Type 0} → Registrar W → String × String
announced r = (r.provider_cfg.service_type, r.provider_cfg.endpoint)

module _ {S N W : Type 0} (E : Environment S N W) (cfg : Config) where
  pub new_server_fails :
      (f : Failure) → new_server E cfg ≡ err f → f.store_closed ≡ not (is_opening f.error)
  unfolding new_server with_registrars
  new_server_fails f h = ground arith

  -- The two registrars of a new server announce, as VM and cluster service, the listen address with
  -- the API's prefix and the last path of the OpenAPI document whose POST operation has the tag vm,
  -- or cluster, first.
  pub new_server_announces :
      (s : Server S N W) (spec : List SpecPath)
      → E.get_swagger ≡ ok spec
      → new_server E cfg ≡ ok s
      → map announced s.registrars
        ≡ (
          "vm",
          "http://" <> cfg.listen_address <> "/api/v1alpha1" <> suffix_of (last_path "vm" spec),
        )
          ∷ (
            "cluster",
            "http://"
                <> cfg.listen_address
                <> "/api/v1alpha1"
                <> suffix_of (last_path "cluster" spec),
          )
          ∷ []
  unfolding new_server with_registrars new_registrar
  new_server_announces s spec e h = elim (Result-cases (post_paths (ok spec))) [
    | inl (m, f) ↦ ground (arith, e, f, h)
    | inr (paths, f) ↦ ground (
      arith,
      e,
      f,
      h,
      post_paths-lookup spec paths "vm" f,
      post_paths-lookup spec paths "cluster" f,
    )
  ]

  pub new_server_seeds :
      (s : Server S N W) (entries : List ResourceEntry)
      → new_server E cfg ≡ ok s
      → E.list_all s.store ≡ ok entries
      → (s.seeded.vms ≡ count_kind "vm" entries)
        × (s.seeded.clusters ≡ count_kind "cluster" entries)
  unfolding new_server with_registrars new_registrar seeded_by
  new_server_seeds s entries h l =
      ground (arith, count_loop_counts entries (record { vms = 0; clusters = 0 }))

  pub new_server_not_ready :
      {K : Type 0} (Kw : KwebClient K) (poll_complete : Bool) (k : K) (s : Server S N W)
      → new_server E cfg ≡ ok s
      → (readiness_handler Kw s.registrars poll_complete k).0.code ≡ 503
  unfolding new_server with_registrars new_registrar readiness_handler all_registered
  new_server_not_ready Kw poll_complete k s h = ground arith
