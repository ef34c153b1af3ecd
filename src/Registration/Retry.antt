-- ===== src/Registration/Retry.antt =====
-- How the loop of `run` in internal/registration/registrar.go comes to its end.
use dcm_kcli_provider.Prelude.{
  ℕ, zero, suc, ◌+◌, ◌<◌, ◌≡◌, Bool, true, false, ◌||◌, String, length, inl, inr, Bool-cases, arith,
}
use dcm_kcli_provider.Prelude.Result.{Result}
use dcm_kcli_provider.Registration.{
  SpmClient, Registrar, Outcome, registered, failed, panicked, Ended, still_trying, returned,
  cancelled, non_retryable, register, run_loop, run, after_wait, next_backoff,
}

-- An outcome after which there is no further attempt.
unfoldable pub definitive : Outcome → Bool
unfolding non_retryable
definitive registered = true
definitive (failed e) = non_retryable e
definitive panicked = true

abbrev pub is_over : Ended → Bool
is_over still_trying = false
is_over (returned _) = true
is_over cancelled = true

module _ {W : Type 0} (uuid_parse : String → Result String String) (spm : SpmClient W) where
  -- The registrar after so many attempts, and what the attempt of an index ends in.
  unfoldable pub after_attempts : ℕ → Registrar W → Registrar W
  after_attempts zero r = r
  after_attempts (suc n) r = after_attempts n (register uuid_parse spm r).1

  unfoldable pub outcome_at : ℕ → Registrar W → Outcome
  unfolding after_attempts
  outcome_at n r = (register uuid_parse spm (after_attempts n r)).0

  module _ (done : ℕ → Bool) where
    loop_settles :
        (m fuel k b : ℕ) (r : Registrar W)
        → (definitive (register uuid_parse spm r).0 || done k) ≡ true
        → (run_loop uuid_parse spm done (suc fuel) k b r
            ≡ run_loop uuid_parse spm done (suc m) k b r)
          × (is_over (run_loop uuid_parse spm done (suc m) k b r).ended ≡ true)
    unfolding run_loop definitive
    loop_settles m fuel k b r e = ground arith

    loop_retries :
        (m k b : ℕ) (r : Registrar W)
        → (definitive (register uuid_parse spm r).0 || done k) ≡ false
        → let r₁ = (register uuid_parse spm r).1 in
          run_loop uuid_parse spm done (suc m) k b r
          ≡ after_wait b (run_loop uuid_parse spm done m (suc k) (next_backoff r₁.max_backoff b) r₁)
    unfolding run_loop definitive
    loop_retries m k b r e = ground arith

    loop_ends :
        (n fuel k b : ℕ) (r : Registrar W)
        → n < fuel
        → (definitive (outcome_at n r) || done (k + n)) ≡ true
        → (run_loop uuid_parse spm done fuel k b r ≡ run_loop uuid_parse spm done (suc n) k b r)
          × (is_over (run_loop uuid_parse spm done (suc n) k b r).ended ≡ true)
    unfolding outcome_at after_attempts after_wait
    loop_ends n zero k b r h e = absurd (omega arith)
    loop_ends zero (suc fuel) k b r h e = loop_settles 0 fuel k b r (ground arith)
    loop_ends (suc n) (suc fuel) k b r h e =
        let r₁ = (register uuid_parse spm r).1 in
        let c = next_backoff r₁.max_backoff b in
        elim (Bool-cases (definitive (register uuid_parse spm r).0 || done k)) [
          | inl now ↦ loop_settles (suc n) fuel k b r now
          | inr later ↦
              let ih = loop_ends n fuel (suc k) c r₁ (omega arith) (ground arith) in
              ground (arith, ih, loop_retries fuel k b r later, loop_retries (suc n) k b r later)
        ]

    -- Where the attempt of index n has an outcome that is not retried, or the context is done by its
    -- wait, every run with fuel for more than n attempts is the run with fuel for n + 1, and that
    -- one has come to its end.
    pub run_ends :
        (n fuel : ℕ) (r : Registrar W)
        → n < fuel
        → (definitive (outcome_at n r) || done n) ≡ true
        → (run uuid_parse spm done fuel r ≡ run uuid_parse spm done (suc n) r)
          × (is_over (run uuid_parse spm done (suc n) r).ended ≡ true)
    unfolding run
    run_ends n fuel r h e = loop_ends n fuel 0 r.initial_backoff r h (ground arith)

    loop_registers :
        (n fuel k b : ℕ) (r : Registrar W)
        → n < fuel
        → ((i : ℕ) → i < n → (definitive (outcome_at i r) || done (k + i)) ≡ false)
        → outcome_at n r ≡ registered
        → let result = run_loop uuid_parse spm done fuel k b r in
          (result.ended ≡ returned registered)
          × (length result.waits ≡ n)
          × (result.registrar ≡ after_attempts (suc n) r)
    unfolding run_loop outcome_at after_attempts
    loop_registers n zero k b r h more last = absurd (omega arith)
    loop_registers zero (suc fuel) k b r h more last = ground arith
    loop_registers (suc n) (suc fuel) k b r h more last =
        let r₁ = (register uuid_parse spm r).1 in
        let c = next_backoff r₁.max_backoff b in
        let first : (definitive (register uuid_parse spm r).0 || done k) ≡ false =
          grind (arith, more 0) in
        let ih =
          loop_registers n fuel (suc k) c r₁ (omega arith) (λ i l. grind (arith, more (suc i)))
            last in
        ground (arith, ih, loop_retries fuel k b r first)

    -- Where the first n attempts end in errors that are retried, the context is not done during
    -- their waits, and the next attempt registers, a run with fuel for more than n attempts ends
    -- registered after exactly n waits, in the state that n + 1 attempts lead to.
    pub run_registers :
        (n fuel : ℕ) (r : Registrar W)
        → n < fuel
        → ((i : ℕ) → i < n → (definitive (outcome_at i r) || done i) ≡ false)
        → outcome_at n r ≡ registered
        → let result = run uuid_parse spm done fuel r in
          (result.ended ≡ returned registered)
          × (length result.waits ≡ n)
          × (result.registrar ≡ after_attempts (suc n) r)
    unfolding run
    run_registers n fuel r h more last =
        loop_registers n fuel 0 r.initial_backoff r h (λ i l. grind (arith, more i)) last
