-- ===== src/Assembly/Shutdown/Order.antt =====
-- The order of the steps of a shutdown, and that it comes to its end.
use mathlib.Core.Path.{subst}
use dcm_kcli_provider.Prelude.{
  ℕ, ◌≤◌, ◌≡◌, refl, String, Bool, true, some, List, [], ◌∷◌, ◌++◌, map, if◌then◌else◌, arith, inl,
  inr, false, Member, All, ◌⊎◌, ap, sym, ◌∙◌, Bool-cases,
}
use dcm_kcli_provider.Prelude.Result.{Result, ok, err, Result-cases}
use dcm_kcli_provider.Text.{is_positive}
use dcm_kcli_provider.Registration.{SpmClient, Registrar, start_background, stop}
use dcm_kcli_provider.Registration.Status.{start_background_started, start_background-provider_cfg}
use dcm_kcli_provider.Assembly.Shutdown.{
  Step, http_shut_down, http_shutdown_failed, monitor_cancelled, monitor_ended, wait_timed_out,
  registrar_stopped, deregistration_sent, publisher_closed, store_closed, Outcome, listening_failed,
  probe_failed, hangs, crashed, served, registration_panics, stop_all, deregistrations, shutdown,
  start,
}

-- The phase of the shutdown that a step is of.
abbrev pub phase : Step → ℕ
phase http_shut_down = 0
phase http_shutdown_failed = 0
phase monitor_cancelled = 1
phase monitor_ended = 2
phase wait_timed_out = 2
phase (registrar_stopped _) = 3
phase (deregistration_sent _) = 4
phase publisher_closed = 5
phase store_closed = 6

-- The phases never go back, from a phase on, and the last step is of the last phase.
pub IsOrdered : ℕ → List Step → Type 0
IsOrdered n [] = n ≡ 6
IsOrdered n (s ∷ steps) = (n ≤ phase s) × IsOrdered (phase s) steps

-- The shutdown has asked the SPM to forget a registrar whose id parses.
abbrev pub IsForgotten : {W : Type 0} → List Step → Registrar W → Result String String → Type 0
IsForgotten steps r (err _) = Unit
IsForgotten steps r (ok _) = Member (deregistration_sent r.provider_cfg.name) steps

-- The steps of a whole shutdown of a process with these registrars.
pub record IsShutdown {W : Type 0} (uuid_parse : String → Result String String)
    (rs : List (Registrar W)) (steps : List Step) : Type 0 where
  pub ordered : IsOrdered 0 steps
  pub http : Member http_shut_down steps ⊎ Member http_shutdown_failed steps
  pub monitor :
      Member monitor_cancelled steps × (Member monitor_ended steps ⊎ Member wait_timed_out steps)
  pub stopped : All (λ r. Member (registrar_stopped r.provider_cfg.name) steps) rs
  pub deregistered : All (λ r. IsForgotten steps r (uuid_parse r.provider_cfg.id)) rs
  pub publisher : Member publisher_closed steps

-- How a start that serves ends: with a whole shutdown, which returns.
unfoldable pub IsGraceful :
    {W : Type 0} → (String → Result String String) → List (Registrar W) → Outcome W → Type 0
IsGraceful uuid_parse rs (listening_failed _) = ⊥
IsGraceful uuid_parse rs probe_failed = ⊥
IsGraceful uuid_parse rs hangs = ⊥
IsGraceful uuid_parse rs crashed = ⊥
IsGraceful uuid_parse rs (served steps _) = IsShutdown uuid_parse rs steps

Member-left : {A : Type 0} (x : A) (xs ys : List A) → Member x xs → Member x (xs ++ ys)
Member-left x [] ys m = absurd m
Member-left x (y ∷ xs) ys (inl e) = inl e
Member-left x (y ∷ xs) ys (inr m) = inr (Member-left x xs ys m)

Member-right : {A : Type 0} (x : A) (xs ys : List A) → Member x ys → Member x (xs ++ ys)
Member-right x [] ys m = m
Member-right x (y ∷ xs) ys m = inr (Member-right x xs ys m)

All-weaken :
    {A : Type 0} (P Q : A → Type 0) (xs : List A) → ((x : A) → P x → Q x) → All P xs → All Q xs
All-weaken P Q [] f a = tt
All-weaken P Q (x ∷ xs) f a = (f x a.0, All-weaken P Q xs f a.1)

module _ {W : Type 0} (uuid_parse : String → Result String String) (spm : SpmClient W) where
  stop_all_started :
      (done : ℕ → Bool) (fuel : ℕ) (rs : List (Registrar W))
      → stop_all uuid_parse spm (map (start_background uuid_parse spm done fuel) rs)
        ≡ some (
            map
              (λ r.
                registrar_stopped (start_background uuid_parse spm done fuel r).provider_cfg.name)
              rs)
  unfolding stop_all stop
  stop_all_started done fuel [] = refl
  stop_all_started done fuel (r ∷ rs) =
      rw (start_background_started uuid_parse spm done fuel r)
        (rw (stop_all_started done fuel rs) refl)

  stops-IsOrdered :
      (n : ℕ) (name : Registrar W → String) (rs : List (Registrar W)) (rest : List Step)
      → n ≤ 3
      → ((m : ℕ) → m ≤ 3 → IsOrdered m rest)
      → IsOrdered n (map (λ r. registrar_stopped (name r)) rs ++ rest)
  unfolding IsOrdered
  stops-IsOrdered n name [] rest h all = all n h
  stops-IsOrdered n name (r ∷ rs) rest h all = (h, stops-IsOrdered 3 name rs rest (omega arith) all)

  deregistrations-IsOrdered :
      (n : ℕ) (rs : List (Registrar W))
      → n ≤ 4
      → IsOrdered n (deregistrations uuid_parse spm rs ++ (publisher_closed ∷ store_closed ∷ []))
  unfolding IsOrdered deregistrations
  deregistrations-IsOrdered n [] h = (omega arith, (omega arith, refl))
  deregistrations-IsOrdered n (r ∷ rs) h = elim (Result-cases (uuid_parse r.provider_cfg.id)) [
    | inl (m, e) ↦ rw (e, deregistrations) (deregistrations-IsOrdered n rs h)
    | inr (id, e) ↦ rw (e, deregistrations) (h, deregistrations-IsOrdered 4 rs (omega arith))
  ]

  module _ (done : ℕ → Bool) (fuel : ℕ) where
    abbrev named : Registrar W → Step
    named r = registrar_stopped (start_background uuid_parse spm done fuel r).provider_cfg.name

    All-stopped :
        (rs : List (Registrar W))
        → All (λ r. Member (registrar_stopped r.provider_cfg.name) (map named rs)) rs
    All-stopped [] = tt
    All-stopped (r ∷ rs) = (
      inl (
          ap (λ c. registrar_stopped c.name)
            (sym (start_background-provider_cfg uuid_parse spm done fuel r))),
      All-weaken _ _ rs (λ x m. inr m) (All-stopped rs),
    )

    abbrev sent : List (Registrar W) → List Step
    sent rs = deregistrations uuid_parse spm (map (start_background uuid_parse spm done fuel) rs)

    abbrev AllForgotten : List Step → List (Registrar W) → Type 0
    AllForgotten steps = All (λ r. IsForgotten steps r (uuid_parse r.provider_cfg.id))

    IsForgotten-later :
        (steps steps' : List Step) (r : Registrar W) (id : Result String String)
        → ((x : Step) → Member x steps → Member x steps')
        → IsForgotten steps r id
        → IsForgotten steps' r id
    IsForgotten-later steps steps' r (err _) f h = tt
    IsForgotten-later steps steps' r (ok _) f h = f _ h

    AllForgotten-sent : (rs : List (Registrar W)) → AllForgotten (sent rs) rs
    unfolding deregistrations
    AllForgotten-sent [] = tt
    AllForgotten-sent (r ∷ rs) =
        let cfg = start_background-provider_cfg uuid_parse spm done fuel r in
        elim (Result-cases (uuid_parse r.provider_cfg.id)) [
          | inl (m, e) ↦
              let none_sent : sent (r ∷ rs) ≡ sent rs =
                rw (ap (λ c. uuid_parse c.id) cfg ∙ e, deregistrations) refl in
              subst (λ steps. AllForgotten steps (r ∷ rs)) (sym none_sent)
                (rw e tt, AllForgotten-sent rs)
          | inr (id, e) ↦
              let one_sent : sent (r ∷ rs) ≡ deregistration_sent r.provider_cfg.name ∷ sent rs =
                rw (ap (λ c. uuid_parse c.id) cfg ∙ e, deregistrations)
                  (ap (λ c. deregistration_sent c.name ∷ sent rs) cfg) in
              subst (λ steps. AllForgotten steps (r ∷ rs)) (sym one_sent)
                (
                  rw e (inl refl),
                  All-weaken _ _ rs
                      (λ x h.
                        IsForgotten-later (sent rs)
                          (deregistration_sent r.provider_cfg.name ∷ sent rs) x
                          (uuid_parse x.provider_cfg.id) (λ y m. inr m) h)
                      (AllForgotten-sent rs),
                )
        ]

    all_steps : Bool → Bool → List (Registrar W) → List Step
    all_steps http_ok in_time rs =
        (if http_ok then http_shut_down else http_shutdown_failed)
        ∷ monitor_cancelled
        ∷ (if in_time then monitor_ended else wait_timed_out)
        ∷ (map named rs ++ (sent rs ++ (publisher_closed ∷ store_closed ∷ [])))

    all_steps-IsOrdered :
        (http_ok in_time : Bool) (rs : List (Registrar W))
        → IsOrdered 0 (all_steps http_ok in_time rs)
    unfolding all_steps IsOrdered
    all_steps-IsOrdered http_ok in_time rs =
        let started = map (start_background uuid_parse spm done fuel) rs in
        let name : Registrar W → String =
          λ r. (start_background uuid_parse spm done fuel r).provider_cfg.name in
        let ordered =
          stops-IsOrdered 2 name rs (sent rs ++ (publisher_closed ∷ store_closed ∷ []))
            (omega arith) (λ m h. deregistrations-IsOrdered m started (omega arith)) in
        let first : phase (if http_ok then http_shut_down else http_shutdown_failed) ≡ 0 =
          ground arith in
        let third : phase (if in_time then monitor_ended else wait_timed_out) ≡ 2 = ground arith in
        rw first (rw third (omega arith, (omega arith, (omega arith, ordered))))

    all_steps-IsShutdown :
        (http_ok in_time : Bool) (rs : List (Registrar W))
        → IsShutdown uuid_parse rs (all_steps http_ok in_time rs)
    unfolding all_steps
    all_steps-IsShutdown http_ok in_time rs =
        let tail = publisher_closed ∷ store_closed ∷ [] in
        record {
          ordered = all_steps-IsOrdered http_ok in_time rs;
          http = elim (Bool-cases http_ok) [
            | inl e ↦ inl (rw e (inl refl))
            | inr e ↦ inr (rw e (inl refl))
          ];
          monitor = (
            inr (inl refl),
            elim (Bool-cases in_time) [
              | inl e ↦ inl (rw e (inr (inr (inl refl))))
              | inr e ↦ inr (rw e (inr (inr (inl refl))))
            ],
          );
          stopped =
              All-weaken _ _ rs
                (λ r m. inr (inr (inr (Member-left _ (map named rs) (sent rs ++ tail) m))))
                (All-stopped rs);
          deregistered =
              All-weaken _ _ rs
                (λ r h.
                  IsForgotten-later (sent rs) (all_steps http_ok in_time rs) r
                    (uuid_parse r.provider_cfg.id)
                    (λ x m. inr (
                      inr (
                        inr (
                          Member-right x (map named rs) (sent rs ++ tail)
                            (Member-left x (sent rs) tail m)))))
                    h)
                (AllForgotten-sent rs);
          publisher = inr (
              inr (
                inr (
                  Member-right _ (map named rs) (sent rs ++ tail)
                    (Member-right _ (sent rs) tail (inl refl)))));
        }

  -- Where the listener opens, the self-probe succeeds, the poll interval is positive and no
  -- registration panics, a start comes to the end of its shutdown, however else the registrations
  -- went and whether or not the HTTP server and the monitor ended in time; the shutdown stops the
  -- HTTP server, the monitor and every registrar, deregisters every one whose id parses, and closes
  -- the publisher and the store, in this order.
  pub start-IsGraceful :
      (poll_interval : ℕ) (done : ℕ → Bool) (fuel : ℕ) (http_ok in_time : Bool)
      (rs : List (Registrar W))
      → is_positive poll_interval ≡ true
      → registration_panics uuid_parse spm done fuel rs ≡ false
      → IsGraceful uuid_parse rs
          (start uuid_parse spm (ok tt) true poll_interval done fuel http_ok in_time rs)
  unfolding start shutdown IsGraceful all_steps
  start-IsGraceful poll_interval done fuel http_ok in_time rs ticks calm =
      rw (ticks, start)
        (rw (calm) (
          rw (stop_all_started done fuel rs, shutdown)
            (all_steps-IsShutdown done fuel http_ok in_time rs)))
