-- ===== src/Assembly/Probe.antt =====
-- The self-probe of cmd/dcm-kcli-provider/server.go. Its request to the process's own /health is a
-- parameter with a state of its own, and so is when the context is done; the pause between two
-- attempts is left out.
use dcm_kcli_provider.Prelude.{
  ℕ, zero, suc, ◌+◌, ◌<◌, ◌≡◌, ◌≢◌, refl, String, Bool, true, false, arith, eqb, if◌then◌else◌,
}
use dcm_kcli_provider.Prelude.Result.{Result, ok, err}
use dcm_kcli_provider.Kweb.Api.{KwebClient}
use dcm_kcli_provider.Api.Health.{Process}
use dcm_kcli_provider.Assembly.Endpoints.{root_health_handler}

-- The attempts that the probe makes at most.
abbrev pub probe_attempts : ℕ
probe_attempts = 30

abbrev is_200 : Result String ℕ → Bool
is_200 (ok status) = eqb status 200
is_200 (err _) = false

module _ {P : Type 0} (ctx_done : ℕ → Bool) (get_own_health : P → Result String ℕ × P) where
  -- the loop from `i`, for the attempts that are left
  unfoldable pub probe_loop : ℕ → ℕ → P → Bool × P
  probe_loop zero i p = (false, p)
  probe_loop (suc left) i p =
      let (answer, p') = get_own_health p in
      let rest = probe_loop left (suc i) p' in
      if ctx_done i then (false, p) else if is_200 answer then (true, p') else rest

  unfoldable pub self_probe : P → Bool × P
  unfolding probe_loop
  self_probe p = probe_loop probe_attempts 0 p

  -- The state after so many requests.
  unfoldable pub after_gets : ℕ → P → P
  after_gets zero p = p
  after_gets (suc n) p = after_gets n (get_own_health p).1

  probe_loop_succeeds :
      (n left i : ℕ) (p : P)
      → n < left
      → ((j : ℕ) → j < i + suc n → ctx_done j ≡ false)
      → (get_own_health (after_gets n p)).0 ≡ ok 200
      → (probe_loop left i p).0 ≡ true
  unfolding probe_loop after_gets
  probe_loop_succeeds n zero i p h running up = absurd (omega arith)
  probe_loop_succeeds zero (suc left) i p h running up = ground (arith, up, running i (omega arith))
  probe_loop_succeeds (suc n) (suc left) i p h running up =
      let p' = (get_own_health p).1 in
      let ih =
        probe_loop_succeeds n left (suc i) p' (omega arith) (λ j l. running j (omega arith)) up in
      ground (arith, running i (omega arith), ih)

  pub self_probe_succeeds :
      (n : ℕ) (p : P)
      → n < probe_attempts
      → ((j : ℕ) → j < suc n → ctx_done j ≡ false)
      → (get_own_health (after_gets n p)).0 ≡ ok 200
      → (self_probe p).0 ≡ true
  unfolding self_probe
  self_probe_succeeds n p h running up =
      probe_loop_succeeds n probe_attempts 0 p h (λ j l. running j (omega arith)) up

  probe_loop_fails :
      (left i : ℕ) (p : P)
      → ((q : P) → (get_own_health q).0 ≢ ok 200)
      → (probe_loop left i p).0 ≡ false
  unfolding probe_loop
  probe_loop_fails zero i p down = refl
  probe_loop_fails (suc left) i p down =
      ground (arith, down p, probe_loop_fails left (suc i) (get_own_health p).1 down)

-- The process's own /health, once its listener takes requests: the n-th request reads the clock at
-- `clock n`.
module _ {K : Type 0} (Kw : KwebClient K) (process : Process) (clock : ℕ → ℕ) where
  unfoldable pub own_health : ℕ × K → Result String ℕ × (ℕ × K)
  own_health (n, k) =
      let (answer, k') = root_health_handler Kw process (clock n) k in (ok answer.code, (suc n, k'))

  pub self_probe_needs_kweb :
      (ctx_done : ℕ → Bool) (p : ℕ × K)
      → ((k : K) → (Kw.check_health k).0 ≢ ok true)
      → (self_probe ctx_done own_health p).0 ≡ false
  unfolding self_probe own_health root_health_handler
  self_probe_needs_kweb ctx_done p down =
      probe_loop_fails ctx_done own_health probe_attempts 0 p (λ (n, k). ground (arith, down k))
