-- ===== src/Registration.antt =====
-- internal/registration/registrar.go: the registration of a provider with the service provider
-- manager (SPM). Its client, uuid.Parse, and when the context is done are parameters. A dereference
-- of a field that the answer lacks, which panics in Go, is an outcome of its own.
pub mod Retry
pub mod Backoff
pub mod Status
pub mod Runs
use dcm_kcli_provider.Prelude.{
  ℕ, zero, suc, ◌+◌, ◌*◌, ◌%◌, ◌^◌, String, Bool, true, false, ◌&&◌, Option, none, some, List, [],
  ◌∷◌, ◌==◌, ltb, leb, eqb, if◌then◌else◌,
}
use dcm_kcli_provider.Prelude.Result.{Result, ok, err}
use dcm_kcli_provider.Prelude.Dict.{Dict, insert}
use dcm_kcli_provider.Text.{int_mod, int_limit}

-- The metadata's values are texts, as everywhere in the program.
pub record ProviderConfig : Type 0 where
  pub id : String
  pub name : String
  pub display_name : String
  pub endpoint : String
  pub service_type : String
  pub schema_version : String
  pub operations : List String
  pub metadata : Dict String

-- The body of the SPM's call, an optional field being a pointer.
pub record Provider : Type 0 where
  pub name : String
  pub endpoint : String
  pub service_type : String
  pub schema_version : String
  pub display_name : Option String
  pub operations : Option (List String)
  pub metadata : Option (Dict String)

-- An answer to the creation of a provider: `id` is `*resp.JSON201.Id` or `*resp.JSON200.Id`, `title`
-- that of the problem of a 409 or a 400, and `none` a pointer that is nil on the way there.
pub record CreateAnswer : Type 0 where
  pub status_code : ℕ
  pub id : Option String
  pub title : Option String

-- What is used of the SPM's client; an error is one of the transport or of the context. `accepts` is
-- the check of the URL when the client is made.
pub record SpmClient (W : Type 0) : Type 0 where
  pub accepts : String → Option String
  pub create_provider : String → Provider → W → Result String CreateAnswer × W
  pub delete_provider : String → W → Result String ℕ × W

pub data RegisterError : Type 0 where
  invalid_id : String → RegisterError
  transport_error : String → RegisterError
  conflict validation_error : String → RegisterError
  client_error unexpected_status : ℕ → RegisterError

-- What `register` ends in: nil, an error, or the panic of a nil dereference.
pub data Outcome : Type 0 where
  registered : Outcome
  failed : RegisterError → Outcome
  panicked : Outcome

-- errors.Is(err, errNonRetryable)
unfoldable pub non_retryable : RegisterError → Bool
non_retryable (invalid_id _) = true
non_retryable (transport_error _) = false
non_retryable (conflict _) = true
non_retryable (validation_error _) = true
non_retryable (client_error _) = true
non_retryable (unexpected_status _) = false

-- A duration is the 64-bit pattern of its nanoseconds. `spm` is what lies behind the client;
-- `attempts` are the increments of `RegistrationAttemptsTotal` by provider and result, the newest
-- first, and `status` is the gauge `RegistrationStatus`.
pub record Registrar (W : Type 0) : Type 0 where
  pub spm : W
  pub provider_cfg : ProviderConfig
  pub initial_backoff : ℕ
  pub max_backoff : ℕ
  pub started : Bool
  pub succeeded : Bool
  pub attempts : List (String × String)
  pub status : Dict ℕ

unfoldable pub set_initial_backoff : {W : Type 0} → ℕ → Registrar W → Registrar W
set_initial_backoff d r = record r { initial_backoff = d }

unfoldable pub set_max_backoff : {W : Type 0} → ℕ → Registrar W → Registrar W
set_max_backoff d r = record r { max_backoff = d }

apply_options : {W : Type 0} → List (Registrar W → Registrar W) → Registrar W → Registrar W
apply_options [] r = r
apply_options (opt ∷ opts) r = apply_options opts (opt r)

-- `NewRegistrar`, over a process that has counted and set nothing yet
unfoldable pub new_registrar :
    {W : Type 0}
    → SpmClient W
    → W
    → String
    → ProviderConfig
    → List (Registrar W → Registrar W)
    → Result String (Registrar W)
unfolding apply_options
new_registrar spm w spm_url provider_cfg opts = elim (spm.accepts spm_url) [
  | some m ↦ err m
  | none ↦ ok (
      apply_options opts (record {
        spm = w;
        provider_cfg = provider_cfg;
        initial_backoff = 1_000_000_000;
        max_backoff = 60_000_000_000;
        started = false;
        succeeded = false;
        attempts = [];
        status = [];
      }))
]

count_attempt : {W : Type 0} → String → Registrar W → Registrar W
count_attempt result r = record r { attempts = (r.provider_cfg.name, result) ∷ r.attempts }

set_status : {W : Type 0} → ℕ → Registrar W → Registrar W
set_status n r = record r { status = insert r.provider_cfg.name n r.status }

-- the branch of a 201 or a 200
accept_registration : {W : Type 0} → Option String → Registrar W → Outcome × Registrar W
unfolding count_attempt set_status
accept_registration none r = (panicked, r)
accept_registration (some id) r =
    (registered, record (count_attempt "success" (set_status 1 r)) { succeeded = true })

-- the branches that read the title of the problem, after they have counted
titled_failure :
    {W : Type 0} → (String → RegisterError) → Option String → Registrar W → Outcome × Registrar W
titled_failure error none r = (panicked, r)
titled_failure error (some title) r = (failed (error title), r)

-- switch resp.StatusCode()
pub classify : {W : Type 0} → CreateAnswer → Registrar W → Outcome × Registrar W
unfolding accept_registration titled_failure count_attempt
classify resp r =
    let sc = resp.status_code in
    if eqb sc 201
    then accept_registration resp.id r
    else if eqb sc 200
    then accept_registration resp.id r
    else if eqb sc 409
    then titled_failure conflict resp.title (count_attempt "rejected" r)
    else if eqb sc 400
    then titled_failure validation_error resp.title (count_attempt "rejected" r)
    else if leb 400 sc && ltb sc 500
    then (failed (client_error sc), count_attempt "rejected" r)
    else (failed (unexpected_status sc), count_attempt "error" r)

nonempty_text : String → Option String
nonempty_text s = if s == "" then none else some s

nonempty_list {ℓ} : {A : Type ℓ} → List A → Option (List A)
nonempty_list [] = none
nonempty_list (x ∷ xs) = some (x ∷ xs)

-- the body that `register` sends
unfoldable pub provider_of : ProviderConfig → Provider
unfolding nonempty_text nonempty_list
provider_of cfg = record {
  name = cfg.name;
  endpoint = cfg.endpoint;
  service_type = cfg.service_type;
  schema_version = cfg.schema_version;
  display_name = nonempty_text cfg.display_name;
  operations = nonempty_list cfg.operations;
  metadata = nonempty_list cfg.metadata;
}

-- backoff *= 2; if backoff > r.maxBackoff { backoff = r.maxBackoff }, the comparison being signed
signed_key : ℕ → ℕ
signed_key d = (d + int_limit) % int_mod

unfoldable pub next_backoff : ℕ → ℕ → ℕ
unfolding signed_key
next_backoff max_backoff backoff =
    let doubled : ℕ = (backoff * 2) % int_mod in
    if ltb (signed_key max_backoff) (signed_key doubled) then max_backoff else doubled

-- How far the loop of `run` has come.
pub data Ended : Type 0 where
  still_trying : Ended
  returned : Outcome → Ended
  cancelled : Ended

-- The loop with the timers that it started, in the order of time.
pub record Run (W : Type 0) : Type 0 where
  pub registrar : Registrar W
  pub waits : List ℕ
  pub ended : Ended

after_wait : {W : Type 0} → ℕ → Run W → Run W
after_wait backoff run = record run { waits = backoff ∷ run.waits }

module _ {W : Type 0} (uuid_parse : String → Result String String) (spm : SpmClient W) where
  unfoldable pub register : Registrar W → Outcome × Registrar W
  unfolding classify provider_of count_attempt
  register r = elim (uuid_parse r.provider_cfg.id) [
    | err m ↦ (failed (invalid_id m), count_attempt "rejected" r)
    | ok provider_id ↦
        let (answer, w) = spm.create_provider provider_id (provider_of r.provider_cfg) r.spm in
        elim answer [
          | err m ↦ (failed (transport_error m), count_attempt "error" (record r { spm = w }))
          | ok resp ↦ classify resp (record r { spm = w })
        ]
  ]

  -- `done n` is whether the context is done before the timer of the n-th wait.
  module _ (done : ℕ → Bool) where
    unfoldable pub run_loop : ℕ → ℕ → ℕ → Registrar W → Run W
    unfolding non_retryable next_backoff after_wait
    run_loop zero n backoff r = record { registrar = r; waits = []; ended = still_trying }
    run_loop (suc fuel) n backoff r =
        let (outcome, r₁) = register r in
        let rest = run_loop fuel (suc n) (next_backoff r₁.max_backoff backoff) r₁ in
        elim outcome [
          | registered ↦ record { registrar = r₁; waits = []; ended = returned registered }
          | panicked ↦ record { registrar = r₁; waits = []; ended = returned panicked }
          | failed e ↦
              if non_retryable e
              then record { registrar = r₁; waits = []; ended = returned (failed e) }
              else if done n
              then record { registrar = r₁; waits = backoff ∷ []; ended = cancelled }
              else after_wait backoff rest
        ]

    unfoldable pub run : ℕ → Registrar W → Run W
    unfolding run_loop
    run fuel r = run_loop fuel 0 r.initial_backoff r

  -- The work that `StartBackground` has done when the goroutine is left alone: the second call, under
  -- `startOnce`, does nothing.
  unfoldable pub start_background : (ℕ → Bool) → ℕ → Registrar W → Registrar W
  unfolding run
  start_background done fuel r =
      if r.started then r else (run done fuel (record r { started = true })).registrar

  -- `Stop` waits for `done`, which only the goroutine of `StartBackground` closes: `none` is a wait
  -- without end. The goroutine ends once its context is done, and what it did before is in `r`.
  unfoldable pub stop : Registrar W → Option (Registrar W)
  stop r = if r.started then some r else none

  unfoldable pub deregister : Registrar W → Registrar W
  unfolding set_status
  deregister r = elim (uuid_parse r.provider_cfg.id) [
    | err _ ↦ r
    | ok provider_id ↦
        let (answer, w) = spm.delete_provider provider_id r.spm in
        elim answer [
          | err _ ↦ record r { spm = w }
          | ok sc ↦
              if leb 200 sc && ltb sc 300
              then set_status 0 (record r { spm = w })
              else record r { spm = w }
        ]
  ]
