-- ===== src/Registration/Runs.antt =====
-- Runs of the registration, against an SPM that cannot be reached twice and then takes the provider.
use dcm_kcli_provider.Prelude.{
  ℕ, zero, suc, ◌<◌, ◌≡◌, refl, Bool, true, false, ◌||◌, String, none, some, [], ◌∷◌, length, arith,
}
use dcm_kcli_provider.Prelude.Result.{Result, ok, err}
use dcm_kcli_provider.Registration.{
  SpmClient, CreateAnswer, Registrar, registered, returned, register, run,
}
use dcm_kcli_provider.Registration.Retry.{
  definitive, after_attempts, outcome_at, is_over, run_ends, run_registers,
}
use dcm_kcli_provider.Registration.Backoff.{backoffs, run-waits}
use dcm_kcli_provider.Registration.Status.{Agrees, ended_registered, run-Agrees}

abbrev answer : ℕ → Result String CreateAnswer
answer zero = err "connection refused"
answer (suc zero) = err "connection refused"
answer (suc (suc _)) = ok (record { status_code = 201; id = some "7"; title = none })

abbrev late_spm : SpmClient ℕ
late_spm = record {
  accepts = λ _. none;
  create_provider = λ _ _ n. (answer n, suc n);
  delete_provider = λ _ n. (ok 204, n);
}

abbrev parsed : String → Result String String
parsed s = ok s

abbrev never : ℕ → Bool
never _ = false

abbrev vm_registrar : Registrar ℕ
vm_registrar = record {
  spm = 0;
  provider_cfg = record {
    id = "7";
    name = "kcli-vm";
    display_name = "kcli Virtual Machines";
    endpoint = "http://:8080/api/v1alpha1/vms";
    service_type = "vm";
    schema_version = "v1alpha1";
    operations = "create" ∷ "delete" ∷ [];
    metadata = ("backend", "libvirt") ∷ [];
  };
  initial_backoff = 1_000_000_000;
  max_backoff = 60_000_000_000;
  started = false;
  succeeded = false;
  attempts = [];
  status = [];
}

late_waits : (run parsed late_spm never 5 vm_registrar).waits ≡ 1_000_000_000 ∷ 2_000_000_000 ∷ []
unfolding run register
late_waits = refl

late_attempts :
    (run parsed late_spm never 5 vm_registrar).registrar.attempts
    ≡ ("kcli-vm", "success") ∷ ("kcli-vm", "error") ∷ ("kcli-vm", "error") ∷ []
unfolding run register
late_attempts = refl

outcome_last : outcome_at parsed late_spm 2 vm_registrar ≡ registered
unfolding outcome_at register
outcome_last = refl

outcome_early :
    (i : ℕ) → i < 2 → (definitive (outcome_at parsed late_spm i vm_registrar) || never i) ≡ false
unfolding definitive outcome_at register
outcome_early zero h = refl
outcome_early (suc zero) h = refl
outcome_early (suc (suc i)) h = absurd (omega arith)

run_ends_example :
    (run parsed late_spm never 9 vm_registrar ≡ run parsed late_spm never 3 vm_registrar)
    × (is_over (run parsed late_spm never 3 vm_registrar).ended ≡ true)
unfolding definitive outcome_at register
run_ends_example = run_ends parsed late_spm never 2 9 vm_registrar (omega arith) refl

run_registers_example :
    let result = run parsed late_spm never 5 vm_registrar in
    (result.ended ≡ returned registered)
    × (length result.waits ≡ 2)
    × (result.registrar ≡ after_attempts parsed late_spm 3 vm_registrar)
run_registers_example =
    run_registers parsed late_spm never 2 5 vm_registrar (omega arith) outcome_early outcome_last

run-waits_example :
    let result = run parsed late_spm never 5 vm_registrar in
    result.waits ≡ backoffs 1_000_000_000 60_000_000_000 0 (length result.waits)
run-waits_example = run-waits parsed late_spm never 5 vm_registrar (omega arith) (omega arith)

run-Agrees_example :
    let result = run parsed late_spm never 5 vm_registrar in
    Agrees (ended_registered result.ended) vm_registrar result.registrar
run-Agrees_example = run-Agrees parsed late_spm never 5 vm_registrar
