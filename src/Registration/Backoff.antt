-- ===== src/Registration/Backoff.antt =====
-- The waits between the attempts of `run` in internal/registration/registrar.go.
use dcm_kcli_provider.Prelude.{
  ℕ, zero, suc, ◌*◌, ◌^◌, ◌<◌, min, ◌≡◌, ◌∙◌, refl, Bool, String, List, [], ◌∷◌, length, arith,
}
use native.Mathlib.Nat.{pow-suc}
use dcm_kcli_provider.Prelude.Result.{Result}
use dcm_kcli_provider.Registration.{
  SpmClient, CreateAnswer, Registrar, classify, register, next_backoff, run_loop, run,
  accept_registration, titled_failure,
}

-- 2 ^ 62
abbrev pub backoff_limit : ℕ
backoff_limit = 2 ^ 62

-- The wait after the n-th attempt: the first is the initial backoff whatever the maximum is.
pub backoff_at : ℕ → ℕ → ℕ → ℕ
backoff_at initial max_backoff zero = initial
backoff_at initial max_backoff (suc n) = min (initial * 2 ^ suc n) max_backoff

-- The waits from the n-th on, as many as there are to be.
pub backoffs : ℕ → ℕ → ℕ → ℕ → List ℕ
backoffs initial max_backoff n zero = []
backoffs initial max_backoff n (suc k) =
    backoff_at initial max_backoff n ∷ backoffs initial max_backoff (suc n) k

next_backoff_doubles :
    (m b : ℕ) → m < backoff_limit → b < backoff_limit → next_backoff m b ≡ min (b * 2) m
unfolding next_backoff
next_backoff_doubles m b hm hb = ground arith

pow_double : (a n : ℕ) → a * 2 ^ suc n ≡ (a * 2 ^ n) * 2
pow_double a n = grind (arith, pow-suc 2 n)

backoff_at_next :
    (i m n : ℕ)
    → i < backoff_limit
    → m < backoff_limit
    → next_backoff m (backoff_at i m n) ≡ backoff_at i m (suc n)
unfolding backoff_at
backoff_at_next i m zero hi hm = next_backoff_doubles m i hm hi ∙ refl
backoff_at_next i m (suc n) hi hm =
    next_backoff_doubles m _ hm (omega arith) ∙ omega (arith, pow_double i (suc n))

module _ {W : Type 0} (uuid_parse : String → Result String String) (spm : SpmClient W) where
  classify-max_backoff :
      (resp : CreateAnswer) (r : Registrar W) → (classify resp r).1.max_backoff ≡ r.max_backoff
  unfolding classify accept_registration titled_failure
  classify-max_backoff resp r = ground arith

  register-max_backoff :
      (r : Registrar W) → (register uuid_parse spm r).1.max_backoff ≡ r.max_backoff
  unfolding register
  register-max_backoff r = grind (arith, classify-max_backoff)

  module _ (done : ℕ → Bool) where
    run_loop-waits :
        (i fuel n : ℕ) (r : Registrar W)
        → i < backoff_limit
        → r.max_backoff < backoff_limit
        → let result = run_loop uuid_parse spm done fuel n (backoff_at i r.max_backoff n) r in
          result.waits ≡ backoffs i r.max_backoff n (length result.waits)
    unfolding run_loop backoffs
    run_loop-waits i zero n r hi hm = refl
    run_loop-waits i (suc fuel) n r hi hm =
        let r₁ = (register uuid_parse spm r).1 in
        grind (
          arith,
          register-max_backoff r,
          backoff_at_next i r.max_backoff n hi hm,
          run_loop-waits i fuel (suc n) r₁ hi (omega (arith, register-max_backoff r)),
        )

    -- Where the initial and the maximal backoff are below 2^62 ns, the waits of a run are, in order,
    -- the initial backoff and then, after the n-th retry, the smaller of 2^n times the initial
    -- backoff and the maximal one: the doubling does not overflow.
    pub run-waits :
        (fuel : ℕ) (r : Registrar W)
        → r.initial_backoff < backoff_limit
        → r.max_backoff < backoff_limit
        → let result = run uuid_parse spm done fuel r in
          result.waits ≡ backoffs r.initial_backoff r.max_backoff 0 (length result.waits)
    unfolding run backoff_at
    run-waits fuel r hi hm = run_loop-waits r.initial_backoff fuel 0 r hi hm
