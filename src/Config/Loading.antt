-- ===== src/Config/Loading.antt =====
-- When internal/config/config.go loads a configuration, and what it blames when it does not.
use mathlib.Core.Path.{subst}
use dcm_kcli_provider.Prelude.{
  List, [], ◌∷◌, Member, ℕ, String, ◌≡◌, ◌≢◌, refl, arith, eq_iff, inl, inr,
}
use dcm_kcli_provider.Prelude.Result.{Result, ok, err, ◌>>=◌}
use dcm_kcli_provider.Config.{
  Config, ConfigError, required, invalid_duration, env_or_default, required_env, parse_duration,
  load,
}

-- The variables of durations, each with its default.
abbrev pub durations : List (String × String)
durations =
    ("POLL_INTERVAL", "30s")
    ∷ ("DEBOUNCE_WINDOW", "5s")
    ∷ ("SHUTDOWN_TIMEOUT", "10s")
    ∷ ("READ_TIMEOUT", "15s")
    ∷ ("WRITE_TIMEOUT", "60s")
    ∷ ("IDLE_TIMEOUT", "60s")
    ∷ ("REQUEST_TIMEOUT", "45s")
    ∷ ("KWEB_TIMEOUT", "120s")
    ∷ ("CLUSTER_CREATE_TIMEOUT", "30m")
    ∷ []

module _ (env : String → String) (parse : String → Result String ℕ) where
  -- The duration is what its variable says, or its default where the variable is empty.
  unfoldable pub Given : String → String → ℕ → Type 0
  Given key fallback d = parse (env_or_default env key fallback) ≡ ok d

  -- What a loaded configuration promises of the required variables and of the durations.
  pub record IsLoaded (cfg : Config) : Type 0 where
    pub kweb_url : (cfg.kweb_url ≡ env "KWEB_URL") × (env "KWEB_URL" ≢ "")
    pub spm_url : (cfg.spm_url ≡ env "SPM_URL") × (env "SPM_URL" ≢ "")
    pub poll_interval : Given "POLL_INTERVAL" "30s" cfg.poll_interval
    pub debounce_window : Given "DEBOUNCE_WINDOW" "5s" cfg.debounce_window
    pub shutdown_timeout : Given "SHUTDOWN_TIMEOUT" "10s" cfg.shutdown_timeout
    pub read_timeout : Given "READ_TIMEOUT" "15s" cfg.read_timeout
    pub write_timeout : Given "WRITE_TIMEOUT" "60s" cfg.write_timeout
    pub idle_timeout : Given "IDLE_TIMEOUT" "60s" cfg.idle_timeout
    pub request_timeout : Given "REQUEST_TIMEOUT" "45s" cfg.request_timeout
    pub kweb_timeout : Given "KWEB_TIMEOUT" "120s" cfg.kweb_timeout
    pub cluster_create_timeout : Given "CLUSTER_CREATE_TIMEOUT" "30m" cfg.cluster_create_timeout

  -- An error of `load` names a variable that it requires and that is empty, or one of a duration
  -- with the text that was read for it and that does not parse.
  pub Blames : ConfigError → Type 0
  Blames (required key) = Member key ("KWEB_URL" ∷ "SPM_URL" ∷ []) × (env key ≡ "")
  Blames (invalid_duration key raw m) =
      (fallback : String) × Member (key, fallback) durations
      × (raw ≡ env_or_default env key fallback)
      × (parse raw ≡ err m)

  required_ok :
      (key : String) {v : String} → required_env env key ≡ ok v → (v ≡ env key) × (env key ≢ "")
  unfolding required_env
  required_ok key h = ground (arith, eq_iff (env key) "")

  duration_ok :
      (key fallback : String) {d : ℕ}
      → parse_duration env parse key fallback ≡ ok d
      → Given key fallback d
  unfolding parse_duration Given
  duration_ok key fallback h = ground arith

  -- Every error that a step can end in is blamed rightly.
  abbrev BlamesRightly {ℓ} : {A : Type ℓ} → Result ConfigError A → Type ℓ
  BlamesRightly m = (e : ConfigError) → m ≡ err e → Blames e

  required-Blames :
      (key : String)
      → Member key ("KWEB_URL" ∷ "SPM_URL" ∷ [])
      → BlamesRightly (required_env env key)
  unfolding required_env Blames
  required-Blames key m (required k) h = (
    subst (λ j. Member j ("KWEB_URL" ∷ "SPM_URL" ∷ [])) (ground arith) m,
    ground (arith, eq_iff (env key) ""),
  )
  required-Blames key m (invalid_duration k raw t) h = ground arith

  duration-Blames :
      (key fallback : String)
      → Member (key, fallback) durations
      → BlamesRightly (parse_duration env parse key fallback)
  unfolding parse_duration Blames
  duration-Blames key fallback m (required k) h = ground arith
  duration-Blames key fallback m (invalid_duration k raw t) h = (
    fallback,
    subst (λ j. Member (j, fallback) durations) (ground arith) m,
    ground arith,
    ground arith,
  )

  bind-Blames {ℓ κ} :
      {A : Type ℓ} {B : Type κ} (m : Result ConfigError A) (f : A → Result ConfigError B)
      → BlamesRightly m
      → ((a : A) → BlamesRightly (f a))
      → BlamesRightly (m >>= f)
  bind-Blames (ok a) f hm hf e h = hf a e h
  bind-Blames (err e') f hm hf e h = hm e (ground arith)

  -- An error of the loading names a required variable that is empty, or one of the nine variables of
  -- durations with the text read for it, which does not parse.
  pub load-Blames : (e : ConfigError) → load env parse ≡ err e → Blames e
  unfolding load
  load-Blames = bind-Blames _ _ (required-Blames "KWEB_URL" (inl refl)) (λ kweb_url.
      bind-Blames _ _ (required-Blames "SPM_URL" (inr (inl refl))) (λ spm_url.
        bind-Blames _ _ (duration-Blames "POLL_INTERVAL" "30s" (inl refl)) (λ poll_interval.
          bind-Blames _ _ (duration-Blames "DEBOUNCE_WINDOW" "5s" (inr (inl refl)))
            (λ debounce_window.
              bind-Blames _ _ (duration-Blames "SHUTDOWN_TIMEOUT" "10s" (inr (inr (inl refl))))
                (λ shutdown_timeout.
                  bind-Blames _ _
                    (duration-Blames "READ_TIMEOUT" "15s" (inr (inr (inr (inl refl)))))
                    (λ read_timeout.
                      bind-Blames _ _
                        (duration-Blames "WRITE_TIMEOUT" "60s" (inr (inr (inr (inr (inl refl))))))
                        (λ write_timeout.
                          bind-Blames _ _
                            (duration-Blames "IDLE_TIMEOUT" "60s"
                              (inr (inr (inr (inr (inr (inl refl)))))))
                            (λ idle_timeout.
                              bind-Blames _ _
                                (duration-Blames "REQUEST_TIMEOUT" "45s"
                                  (inr (inr (inr (inr (inr (inr (inl refl))))))))
                                (λ request_timeout.
                                  bind-Blames _ _
                                    (duration-Blames "KWEB_TIMEOUT" "120s"
                                      (inr (inr (inr (inr (inr (inr (inr (inl refl)))))))))
                                    (λ kweb_timeout.
                                      bind-Blames _ _
                                        (duration-Blames "CLUSTER_CREATE_TIMEOUT" "30m" (
                                          inr (inr (inr (inr (inr (inr (inr (inr (inl refl))))))))))
                                        (λ cluster_create_timeout e h.
                                          absurd (ground arith))))))))))))

  -- What every result of a computation keeps, once each of its steps keeps it.
  abbrev Ensures : Result ConfigError Config → Type 0
  Ensures m = (cfg : Config) → m ≡ ok cfg → IsLoaded cfg

  bind-Ensures {ℓ} :
      {A : Type ℓ} (m : Result ConfigError A) (f : A → Result ConfigError Config)
      → ((a : A) → m ≡ ok a → Ensures (f a))
      → Ensures (m >>= f)
  bind-Ensures (ok a) f hf cfg h = hf a refl cfg h
  bind-Ensures (err e) f hf cfg h = absurd (ground arith)

  ok-Ensures : (cfg : Config) → IsLoaded cfg → Ensures (ok cfg)
  ok-Ensures cfg loaded cfg' h = subst IsLoaded (ground arith) loaded

  -- A configuration that is loaded has the two required URLs, which are not empty, and each duration
  -- is what its variable parses to, or its documented default where the variable is empty.
  pub load-IsLoaded : (cfg : Config) → load env parse ≡ ok cfg → IsLoaded cfg
  unfolding load Given
  load-IsLoaded = bind-Ensures (required_env env "KWEB_URL") _ (λ kweb_url k.
      bind-Ensures (required_env env "SPM_URL") _ (λ spm_url l.
        bind-Ensures (parse_duration env parse "POLL_INTERVAL" "30s") _ (λ poll_interval d0.
          bind-Ensures (parse_duration env parse "DEBOUNCE_WINDOW" "5s") _ (λ debounce_window d1.
            bind-Ensures (parse_duration env parse "SHUTDOWN_TIMEOUT" "10s") _
              (λ shutdown_timeout d2.
                bind-Ensures (parse_duration env parse "READ_TIMEOUT" "15s") _ (λ read_timeout d3.
                  bind-Ensures (parse_duration env parse "WRITE_TIMEOUT" "60s") _
                    (λ write_timeout d4.
                      bind-Ensures (parse_duration env parse "IDLE_TIMEOUT" "60s") _
                        (λ idle_timeout d5.
                          bind-Ensures (parse_duration env parse "REQUEST_TIMEOUT" "45s") _
                            (λ request_timeout d6.
                              bind-Ensures (parse_duration env parse "KWEB_TIMEOUT" "120s") _
                                (λ kweb_timeout d7.
                                  bind-Ensures
                                    (parse_duration env parse "CLUSTER_CREATE_TIMEOUT" "30m") _
                                    (λ cluster_create_timeout d8. ok-Ensures _ (record {
                                      kweb_url = required_ok "KWEB_URL" k;
                                      spm_url = required_ok "SPM_URL" l;
                                      poll_interval = duration_ok "POLL_INTERVAL" "30s" d0;
                                      debounce_window = duration_ok "DEBOUNCE_WINDOW" "5s" d1;
                                      shutdown_timeout = duration_ok "SHUTDOWN_TIMEOUT" "10s" d2;
                                      read_timeout = duration_ok "READ_TIMEOUT" "15s" d3;
                                      write_timeout = duration_ok "WRITE_TIMEOUT" "60s" d4;
                                      idle_timeout = duration_ok "IDLE_TIMEOUT" "60s" d5;
                                      request_timeout = duration_ok "REQUEST_TIMEOUT" "45s" d6;
                                      kweb_timeout = duration_ok "KWEB_TIMEOUT" "120s" d7;
                                      cluster_create_timeout =
                                          duration_ok "CLUSTER_CREATE_TIMEOUT" "30m" d8;
                                    }))))))))))))

  -- What is loaded where the variables of durations come to the given ones.
  abbrev pub config_of : (String → ℕ) → Config
  config_of times = record {
    listen_address = env_or_default env "LISTEN_ADDRESS" ":8080";
    kweb_url = env "KWEB_URL";
    spm_url = env "SPM_URL";
    nats_url = env "NATS_URL";
    provider_id_vm = env_or_default env "PROVIDER_ID_VM" "";
    provider_id_cluster = env_or_default env "PROVIDER_ID_CLUSTER" "";
    provider_name_vm = env_or_default env "PROVIDER_NAME_VM" "kcli-vm";
    provider_name_cluster = env_or_default env "PROVIDER_NAME_CLUSTER" "kcli-cluster";
    schema_version = env_or_default env "SCHEMA_VERSION" "v1alpha1";
    state_store_path = env_or_default env "STATE_STORE_PATH" "/data/state.db";
    log_level = env_or_default env "LOG_LEVEL" "info";
    poll_interval = times "POLL_INTERVAL";
    debounce_window = times "DEBOUNCE_WINDOW";
    shutdown_timeout = times "SHUTDOWN_TIMEOUT";
    read_timeout = times "READ_TIMEOUT";
    write_timeout = times "WRITE_TIMEOUT";
    idle_timeout = times "IDLE_TIMEOUT";
    request_timeout = times "REQUEST_TIMEOUT";
    kweb_timeout = times "KWEB_TIMEOUT";
    cluster_create_timeout = times "CLUSTER_CREATE_TIMEOUT";
  }

  required_given : (key : String) → env key ≢ "" → required_env env key ≡ ok (env key)
  unfolding required_env
  required_given key h = ground (arith, eq_iff (env key) "")

  duration_given :
      (key fallback : String) (d : ℕ)
      → parse (env_or_default env key fallback) ≡ ok d
      → parse_duration env parse key fallback ≡ ok d
  unfolding parse_duration
  duration_given key fallback d h = ground arith

  pub load_given :
      (times : String → ℕ)
      → env "KWEB_URL" ≢ ""
      → env "SPM_URL" ≢ ""
      → ((key fallback : String)
          → Member (key, fallback) durations
          → parse (env_or_default env key fallback) ≡ ok (times key))
      → load env parse ≡ ok (config_of times)
  unfolding load
  load_given times kweb spm given = rw (required_given "KWEB_URL" kweb) (
      rw (required_given "SPM_URL" spm) (
        rw
          (duration_given "POLL_INTERVAL" "30s" (times "POLL_INTERVAL")
            (given "POLL_INTERVAL" "30s" (inl refl)))
          (rw
            (duration_given "DEBOUNCE_WINDOW" "5s" (times "DEBOUNCE_WINDOW")
              (given "DEBOUNCE_WINDOW" "5s" (inr (inl refl))))
            (rw
              (duration_given "SHUTDOWN_TIMEOUT" "10s" (times "SHUTDOWN_TIMEOUT")
                (given "SHUTDOWN_TIMEOUT" "10s" (inr (inr (inl refl)))))
              (rw
                (duration_given "READ_TIMEOUT" "15s" (times "READ_TIMEOUT")
                  (given "READ_TIMEOUT" "15s" (inr (inr (inr (inl refl))))))
                (rw
                  (duration_given "WRITE_TIMEOUT" "60s" (times "WRITE_TIMEOUT")
                    (given "WRITE_TIMEOUT" "60s" (inr (inr (inr (inr (inl refl)))))))
                  (rw
                    (duration_given "IDLE_TIMEOUT" "60s" (times "IDLE_TIMEOUT")
                      (given "IDLE_TIMEOUT" "60s" (inr (inr (inr (inr (inr (inl refl))))))))
                    (rw
                      (duration_given "REQUEST_TIMEOUT" "45s" (times "REQUEST_TIMEOUT") (
                        given "REQUEST_TIMEOUT" "45s"
                          (inr (inr (inr (inr (inr (inr (inl refl)))))))))
                      (rw
                        (duration_given "KWEB_TIMEOUT" "120s" (times "KWEB_TIMEOUT") (
                          given "KWEB_TIMEOUT" "120s"
                            (inr (inr (inr (inr (inr (inr (inr (inl refl))))))))))
                        (rw
                          (duration_given "CLUSTER_CREATE_TIMEOUT" "30m"
                            (times "CLUSTER_CREATE_TIMEOUT")
                            (given "CLUSTER_CREATE_TIMEOUT" "30m"
                              (inr (inr (inr (inr (inr (inr (inr (inr (inl refl)))))))))))
                          (refl)))))))))))
