-- ===== src/Kweb/Client/Health.antt =====
-- The cache of `CheckHealth`.
use dcm_kcli_provider.Prelude.{ℕ, ◌+◌, ◌<◌, String, ◌≡◌, refl, true, false, arith, since_lt}
use dcm_kcli_provider.Kweb.Client.{
  Network, Codec, Client, health_cache_ttl, check_health, check_health_uncached,
}

module _ {N : Type 0} (net : Network N) (J : Codec) (base_url : String) where
  remembered : ℕ → Client N → Client N
  remembered now c =
      let (answer, c₁) = check_health_uncached net J base_url c in
      record c₁ { health_cached = true; health = answer; health_checked = now }

  cold_check :
      (now : ℕ) (c : Client N)
      → c.health_cached ≡ false
      → check_health net J base_url now c ≡ ((remembered now c).health, remembered now c)
  unfolding check_health remembered
  cold_check now c cold = rw (cold, check_health) refl

  warm_check :
      (later : ℕ) (c : Client N)
      → c.health_cached ≡ true
      → since_lt later c.health_checked health_cache_ttl ≡ true
      → check_health net J base_url later c ≡ (c.health, c)
  unfolding check_health
  warm_check later c warm soon = rw (warm, check_health) (rw (soon) refl)

  -- Where no answer is cached, a second health check before the cache's time to live has passed
  -- since the first gives the same answer, an error included, and changes nothing: kweb is not
  -- called again.
  pub check_health_again :
      (now later : ℕ) (c : Client N)
      → c.health_cached ≡ false
      → later < now + health_cache_ttl
      → let (answer, c') = check_health net J base_url now c in
        check_health net J base_url later c' ≡ (answer, c')
  unfolding remembered
  check_health_again now later c cold soon =
      rw (cold_check now c cold) (warm_check later (remembered now c) refl (ground arith))
