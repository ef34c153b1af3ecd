-- ===== src/Registration/Status.antt =====
-- What the registration of internal/registration/registrar.go leaves in the flag `succeeded` and in
-- the gauge of its status.
use dcm_kcli_provider.Prelude.{
  ℕ, zero, suc, ◌≡◌, refl, Bool, true, false, ◌||◌, ◌&&◌, String, some, leb, ltb, ◌==◌, eqb,
  if◌then◌else◌, inl, inr, arith,
}
use dcm_kcli_provider.Prelude.Result.{Result, ok, err, Result-cases}
use dcm_kcli_provider.Prelude.Dict.{lookup, insert, lookup-insert}
use dcm_kcli_provider.Registration.Retry.{definitive}
use dcm_kcli_provider.Registration.{
  SpmClient, CreateAnswer, Registrar, Outcome, registered, failed, panicked, Ended, still_trying,
  returned, cancelled, classify, register, run_loop, run, accept_registration, titled_failure,
  count_attempt, set_status, deregister, provider_of, after_wait, next_backoff, start_background,
}

abbrev pub is_registered : Outcome → Bool
is_registered registered = true
is_registered (failed _) = false
is_registered panicked = false

abbrev pub ended_registered : Ended → Bool
ended_registered still_trying = false
ended_registered (returned o) = is_registered o
ended_registered cancelled = false

-- The flag and the gauge agree with whether the registration came through, and the gauges of other
-- providers stay.
pub Agrees : {W : Type 0} → Bool → Registrar W → Registrar W → Type 0
Agrees came_through r r' =
    (r'.provider_cfg ≡ r.provider_cfg)
    × (r'.succeeded ≡ (r.succeeded || came_through))
    × ((name : String)
        → lookup name r'.status ≡ (
            if came_through && (r.provider_cfg.name == name) then some 1 else lookup name r.status))

module _ {W : Type 0} (uuid_parse : String → Result String String) (spm : SpmClient W) where
  classify-Agrees :
      (resp : CreateAnswer) (r : Registrar W)
      → Agrees (is_registered (classify resp r).0) r (classify resp r).1
  unfolding classify Agrees accept_registration titled_failure count_attempt set_status
  classify-Agrees resp r = (
    ground arith,
    ground arith,
    λ name. ground (arith, lookup-insert r.provider_cfg.name name 1 r.status),
  )

  register-Agrees :
      (r : Registrar W)
      → let (outcome, r') = register uuid_parse spm r in Agrees (is_registered outcome) r r'
  unfolding register Agrees count_attempt
  register-Agrees r = elim (Result-cases (uuid_parse r.provider_cfg.id)) [
    | inl (m, e) ↦ rw (e, register) (refl, ground arith, λ name. ground arith)
    | inr (pid, e) ↦
        let (answer, w) = spm.create_provider pid (provider_of r.provider_cfg) r.spm in
        elim (Result-cases (spm.create_provider pid (provider_of r.provider_cfg) r.spm).0) [
          | inl (m, f) ↦ rw (e, register) (rw f (refl, ground arith, λ name. ground arith))
          | inr (resp, f) ↦ rw (e, register) (rw f (classify-Agrees resp (record r { spm = w })))
        ]
  ]

  module _ (done : ℕ → Bool) where
    loop-Agrees :
        (fuel n b : ℕ) (r : Registrar W)
        → let result = run_loop uuid_parse spm done fuel n b r in
          Agrees (ended_registered result.ended) r result.registrar
    unfolding run_loop Agrees after_wait
    loop-Agrees zero n b r = (refl, ground arith, λ name. refl)
    loop-Agrees (suc fuel) n b r =
        let (outcome, r₁) = register uuid_parse spm r in
        let c = next_backoff r₁.max_backoff b in
        let h = register-Agrees r in
        let ih = loop-Agrees fuel (suc n) c r₁ in
        (
          ground (arith, h.0, ih.0),
          ground (arith, h.1, ih.1),
          λ name. ground (arith, h.0, ih.0, h.2 name, ih.2 name),
        )

    -- After any run, ended or not, the configuration is as before, the registrar is marked as
    -- succeeded if it was or if the run ended registered, the status gauge of its provider is 1 if
    -- the run ended registered and as before otherwise, and those of other providers stay.
    pub run-Agrees :
        (fuel : ℕ) (r : Registrar W)
        → let result = run uuid_parse spm done fuel r in
          Agrees (ended_registered result.ended) r result.registrar
    unfolding run
    run-Agrees fuel r = loop-Agrees fuel 0 r.initial_backoff r

pub start_background-provider_cfg :
    {W : Type 0} (uuid_parse : String → Result String String) (spm : SpmClient W) (done : ℕ → Bool)
    (fuel : ℕ) (r : Registrar W)
    → (start_background uuid_parse spm done fuel r).provider_cfg ≡ r.provider_cfg
unfolding start_background Agrees
start_background-provider_cfg uuid_parse spm done fuel r =
    ground (arith, (run-Agrees uuid_parse spm done fuel (record r { started = true })).0)

-- The answers after which the SPM is not asked again.
abbrev pub is_final : Result String CreateAnswer → Bool
is_final (err _) = false
is_final (ok resp) =
    let sc = resp.status_code in eqb sc 200 || eqb sc 201 || (leb 400 sc && ltb sc 500)

module _ {W : Type 0} (uuid_parse : String → Result String String) (spm : SpmClient W) where
  classify-definitive :
      (resp : CreateAnswer) (r : Registrar W) → definitive (classify resp r).0 ≡ is_final (ok resp)
  unfolding classify definitive accept_registration titled_failure count_attempt set_status
  classify-definitive resp r = ground arith

  -- Where the provider's id parses, an attempt is the last one exactly if the SPM answers it with
  -- 200, 201 or a status from 400 to 499: errors of the transport and all other statuses are
  -- retried.
  pub register-definitive :
      (provider_id : String) (r : Registrar W)
      → uuid_parse r.provider_cfg.id ≡ ok provider_id
      → definitive (register uuid_parse spm r).0
        ≡ is_final (spm.create_provider provider_id (provider_of r.provider_cfg) r.spm).0
  unfolding register definitive
  register-definitive provider_id r e =
      let (answer, w) = spm.create_provider provider_id (provider_of r.provider_cfg) r.spm in
      elim (Result-cases (spm.create_provider provider_id (provider_of r.provider_cfg) r.spm).0) [
        | inl (m, f) ↦ rw (e, register) (rw f refl)
        | inr (resp, f) ↦ rw (e, register) (rw f (classify-definitive resp (record r { spm = w })))
      ]

  register_started : (r : Registrar W) → (register uuid_parse spm r).1.started ≡ r.started
  unfolding register classify accept_registration titled_failure count_attempt set_status
  register_started r = ground arith

  run_loop_started :
      (done : ℕ → Bool) (fuel n b : ℕ) (r : Registrar W)
      → (run_loop uuid_parse spm done fuel n b r).registrar.started ≡ r.started
  unfolding run_loop after_wait
  run_loop_started done zero n b r = refl
  run_loop_started done (suc fuel) n b r =
      let r₁ = (register uuid_parse spm r).1 in
      let c = next_backoff r₁.max_backoff b in
      ground (arith, register_started r, run_loop_started done fuel (suc n) c r₁)

  pub start_background_again :
      (done done' : ℕ → Bool) (fuel fuel' : ℕ) (r : Registrar W)
      → let r' = start_background uuid_parse spm done fuel r in
        start_background uuid_parse spm done' fuel' r' ≡ r'
  unfolding start_background run
  start_background_again done done' fuel fuel' r =
      ground (arith, run_loop_started done fuel 0 r.initial_backoff (record r { started = true }))

  pub start_background_started :
      (done : ℕ → Bool) (fuel : ℕ) (r : Registrar W)
      → (start_background uuid_parse spm done fuel r).started ≡ true
  unfolding start_background run
  start_background_started done fuel r =
      ground (arith, run_loop_started done fuel 0 r.initial_backoff (record r { started = true }))

  pub deregister-provider_cfg :
      (r : Registrar W) → (deregister uuid_parse spm r).provider_cfg ≡ r.provider_cfg
  unfolding deregister set_status
  deregister-provider_cfg r = ground arith

  pub deregister-status :
      (sc : ℕ) (provider_id : String) (r : Registrar W)
      → uuid_parse r.provider_cfg.id ≡ ok provider_id
      → (spm.delete_provider provider_id r.spm).0 ≡ ok sc
      → (leb 200 sc && ltb sc 300) ≡ true
      → (deregister uuid_parse spm r).status ≡ insert r.provider_cfg.name 0 r.status
  unfolding deregister set_status
  deregister-status sc provider_id r e f g = rw (e, deregister) (rw f (rw g refl))

  pub run-deregister :
      (done : ℕ → Bool) (fuel sc : ℕ) (provider_id name : String) (r : Registrar W)
      → uuid_parse r.provider_cfg.id ≡ ok provider_id
      → (spm.delete_provider provider_id (run uuid_parse spm done fuel r).registrar.spm).0 ≡ ok sc
      → (leb 200 sc && ltb sc 300) ≡ true
      → lookup name (deregister uuid_parse spm (run uuid_parse spm done fuel r).registrar).status
        ≡ (if r.provider_cfg.name == name then some 0 else lookup name r.status)
  unfolding Agrees
  run-deregister done fuel sc provider_id name r e f g =
      let r' = (run uuid_parse spm done fuel r).registrar in
      let h = run-Agrees uuid_parse spm done fuel r in
      let e' : uuid_parse r'.provider_cfg.id ≡ ok provider_id = grind (arith, h.0, e) in
      ground (
        arith,
        h.0,
        h.2 name,
        deregister-status sc provider_id r' e' f g,
        lookup-insert r'.provider_cfg.name name 0 r'.status,
      )
