-- ===== src/Assembly/Shutdown/Gauge.antt =====
-- The gauge of the registration's status after the process has been shut down.
use mathlib.Core.Path.{subst}
use dcm_kcli_provider.Prelude.{
  String, Bool, some, List, [], ◌∷◌, map, Member, ◌≡◌, ◌∙◌, refl, ap, inl, inr, arith, eq_refl,
}
use dcm_kcli_provider.Prelude.Result.{Result, ok}
use dcm_kcli_provider.Prelude.Dict.{lookup, lookup-insert}
use dcm_kcli_provider.Registration.{SpmClient, Registrar, deregister}
use dcm_kcli_provider.Registration.Status.{deregister-status, deregister-provider_cfg}
use dcm_kcli_provider.Assembly.Shutdown.{Step, served, shutdown}

module _ {W : Type 0} (uuid_parse : String → Result String String) (spm : SpmClient W)
    (canonical : String → String) where
  deregister_clears :
      (r : Registrar W)
      → uuid_parse r.provider_cfg.id ≡ ok (canonical r.provider_cfg.id)
      → ((id : String) (w : W) → (spm.delete_provider id w).0 ≡ ok 204)
      → let r' = deregister uuid_parse spm r in lookup r'.provider_cfg.name r'.status ≡ some 0
  deregister_clears r valid deletes =
      let name = r.provider_cfg.name in
      ground (
        arith,
        deregister-provider_cfg uuid_parse spm r,
        deregister-status uuid_parse spm 204 _ r valid (deletes _ _) refl,
        lookup-insert name name 0 r.status,
        eq_refl name,
      )

  all_cleared :
      (rs : List (Registrar W)) (r' : Registrar W)
      → ((id : String) → uuid_parse id ≡ ok (canonical id))
      → ((id : String) (w : W) → (spm.delete_provider id w).0 ≡ ok 204)
      → Member r' (map (deregister uuid_parse spm) rs)
      → lookup r'.provider_cfg.name r'.status ≡ some 0
  all_cleared [] r' valid deletes m = absurd m
  all_cleared (r ∷ rs) r' valid deletes (inl e) =
      ap (λ q. lookup q.provider_cfg.name q.status) e ∙ deregister_clears r (valid _) deletes
  all_cleared (r ∷ rs) r' valid deletes (inr m) = all_cleared rs r' valid deletes m

  pub shutdown_clears :
      (http_ok in_time : Bool) (rs rs' : List (Registrar W)) (steps : List Step) (r' : Registrar W)
      → ((id : String) → uuid_parse id ≡ ok (canonical id))
      → ((id : String) (w : W) → (spm.delete_provider id w).0 ≡ ok 204)
      → shutdown uuid_parse spm http_ok in_time rs ≡ served steps rs'
      → Member r' rs'
      → lookup r'.provider_cfg.name r'.status ≡ some 0
  unfolding shutdown
  shutdown_clears http_ok in_time rs rs' steps r' valid deletes h m =
      all_cleared rs r' valid deletes (subst (Member r') (ground arith) m)
