-- ===== src/Lambda/Laws.antt =====
-- How the start of the process ends.
use spec_star_go.Prelude.{String, ◌≡◌, refl, sym, ap, ◌∙◌, inl, inr, [], ◌∷◌, ◌++◌, arith, Bool}
use spec_star_go.Prelude.Int.{pos}
use spec_star_go.Domain.Errors.{Error, error_text}
use spec_star_go.Domain.Effect.{Result, ok, err, Result-cases}
use spec_star_go.Platform.Database.{
  DatabaseConfig, PoolConfig, load_database_config, build_pool_config, new_pool,
}
use spec_star_go.Platform.Logger.{Line, text, enabled, handle, with_attrs, log, new_logger_factory}
use spec_star_go.Platform.Telemetry.{Telemetry, TelemetryDeps, Sdk, Shutdown, init_telemetry}
use spec_star_go.Platform.Telemetry.Laws.{
  Shuts, Quiet, NoneLeft, BothOpen, IsRegistered, Ended, started, refused, init_telemetry-Ended,
}
use spec_star_go.Platform.Logger.{no_span}
use spec_star_go.Lambda.{Boot, Launch, exited, serving, Surroundings, with_config, launch}

-- the line that `main` writes before it exits
abbrev pub exit_line : (message : String) → Error → Line
exit_line message e = record {
  level = pos 8;
  message = message;
  attrs = ([], text "service" "spec-star") ∷ ([], text "error" (error_text e)) ∷ [];
}

log-exit_line :
    (message : String) (e : Error)
    → log no_span
        (pos 8)
        message
        (text "error" (error_text e) ∷ [])
        (new_logger_factory "spec-star" (pos 0)).1
      ≡ exit_line message e ∷ []
unfolding log enabled handle with_attrs new_logger_factory
log-exit_line message e = refl

-- the settings of a pool: the limits of the configuration on what the connection string gives
abbrev pub limited : {C : Type 0} → DatabaseConfig → PoolConfig C → PoolConfig C
limited cfg parsed = record {
  max_conns = cfg.max_connections;
  min_conns = cfg.min_connections;
  max_conn_lifetime = cfg.max_conn_lifetime;
  max_conn_idle_time = cfg.max_conn_idle_time;
  health_check_period = cfg.health_check_period;
  others = parsed.others;
}

module _ {W R X Y T M C P : Type 0} (sdk : Sdk W R X Y T M) (deps : TelemetryDeps W R X Y)
    (around : Surroundings W C P) (tracer_open : T → W → Bool) (meter_open : M → W → Bool) where
  open around use {env, parse_int, parse_duration, parse_config, new_with_config}

  -- the two providers are registered and open after the start
  pub record HasTelemetry (t t' : Telemetry W T M) : Type 0 where
    pub tracer : T
    pub meter : M
    pub registered : IsRegistered sdk deps tracer meter t'.globals
    pub opened : BothOpen sdk deps tracer_open meter_open tracer meter t.outside t'.outside

  -- the outside when telemetry has started, or failed to
  abbrev pub begun : Boot W T M → W
  begun s = (init_telemetry sdk deps s.telemetry).1.outside

  pub data Launched (s : Boot W T M) : Launch P → Boot W T M → Type 0 where
    no_telemetry :
        {s' : Boot W T M} (e : Error)
        → (init_telemetry sdk deps s.telemetry).0 ≡ err e
        → s'.telemetry.globals ≡ s.telemetry.globals
        → NoneLeft sdk deps tracer_open meter_open s.telemetry.outside s'.telemetry.outside
        → s'.written ≡ s.written ++ exit_line "initializing telemetry" e ∷ []
        → Launched s (exited 1) s'
    no_config :
        {s' : Boot W T M} (e : Error)
        → load_database_config env parse_int parse_duration ≡ err e
        → HasTelemetry s.telemetry s'.telemetry
        → s'.written ≡ s.written ++ exit_line "loading database config" e ∷ []
        → Launched s (exited 1) s'
    no_pool :
        {s' : Boot W T M} (cfg : DatabaseConfig) (e : Error)
        → load_database_config env parse_int parse_duration ≡ ok cfg
        → new_pool parse_config new_with_config cfg (begun s) ≡ (err e, s'.telemetry.outside)
        → HasTelemetry s.telemetry s'.telemetry
        → s'.written ≡ s.written ++ exit_line "creating database pool" e ∷ []
        → Launched s (exited 1) s'
    serves :
        {s' : Boot W T M} (cfg : DatabaseConfig) (parsed : PoolConfig C) (pool : P)
        → load_database_config env parse_int parse_duration ≡ ok cfg
        → parse_config cfg.dsn ≡ ok parsed
        → new_with_config (limited cfg parsed) (begun s) ≡ (ok pool, s'.telemetry.outside)
        → HasTelemetry s.telemetry s'.telemetry
        → s'.written ≡ s.written
        → Launched s (serving (new_logger_factory "spec-star" (pos 0)).0 pool) s'

  new_pool-eq_ok :
      (cfg : DatabaseConfig) (w w' : W) (pool : P)
      → new_pool parse_config new_with_config cfg w ≡ (ok pool, w')
      → (parsed : PoolConfig C) × (parse_config cfg.dsn ≡ ok parsed)
        × (new_with_config (limited cfg parsed) w ≡ (ok pool, w'))
  unfolding new_pool build_pool_config
  new_pool-eq_ok cfg w w' pool h = elim (Result-cases (parse_config cfg.dsn)) [
    | inr (e, k) ↦ ground arith
    | inl (parsed, k) ↦ (parsed, k, rw (k, new_pool, build_pool_config) at h)
  ]

  module _ (laws : Shuts sdk deps tracer_open meter_open)
      (pool_quiet : (cfg : PoolConfig C) (w : W)
        → Quiet tracer_open meter_open w (new_with_config cfg w).1) where
    new_pool-Quiet :
        (cfg : DatabaseConfig) (w : W)
        → Quiet tracer_open meter_open w (new_pool parse_config new_with_config cfg w).1
    unfolding new_pool
    new_pool-Quiet cfg w = elim (Result-cases (build_pool_config parse_config cfg)) [
      | inr (e, k) ↦ rw (k, new_pool) (λ u. refl, λ u. refl)
      | inl (pool, k) ↦ rw (k, new_pool) (pool_quiet pool w)
    ]

    -- the pool opens and closes no provider
    BothOpen-new_pool :
        {t : T} {m : M} {w : W} (cfg : DatabaseConfig) (w1 : W)
        → BothOpen sdk deps tracer_open meter_open t m w w1
        → BothOpen sdk deps tracer_open meter_open t m w
            (new_pool parse_config new_with_config cfg w1).1
    BothOpen-new_pool {t} {m} cfg w1 both =
        let quiet = new_pool-Quiet cfg w1 in
        record {
          tracer = quiet.0 t ∙ both.tracer;
          meter = quiet.1 m ∙ both.meter;
          other_tracers = λ u k. both.other_tracers u (sym (quiet.0 u) ∙ k);
          other_meters = λ u k. both.other_meters u (sym (quiet.1 u) ∙ k);
        }

    with_config-Launched :
        (s s1 : Boot W T M) (cfg : DatabaseConfig)
        → load_database_config env parse_int parse_duration ≡ ok cfg
        → s1.telemetry.outside ≡ begun s
        → HasTelemetry s.telemetry s1.telemetry
        → s1.written ≡ s.written
        → Launched s
            (with_config sdk deps around
              (new_logger_factory "spec-star" (pos 0)).0
              (new_logger_factory "spec-star" (pos 0)).1
              cfg
              s1).0
            (with_config sdk deps around
              (new_logger_factory "spec-star" (pos 0)).0
              (new_logger_factory "spec-star" (pos 0)).1
              cfg
              s1).1
    unfolding with_config
    with_config-Launched s s1 cfg loaded same has unwritten =
        let w = s1.telemetry.outside in
        let (created, w2) = new_pool parse_config new_with_config cfg w in
        let has' : HasTelemetry s.telemetry (record (s1.telemetry) { outside = w2 }) = record {
          tracer = has.tracer;
          meter = has.meter;
          registered = has.registered;
          opened = BothOpen-new_pool cfg w has.opened;
        } in
        let failed : (e : Error)
            → created ≡ err e
            → new_pool parse_config new_with_config cfg (begun s) ≡ (err e, w2) =
          λ e k.
            ap (λ v. new_pool parse_config new_with_config cfg v) (sym same)
            ∙ ap (λ c. (c, w2)) k in
        elim (Result-cases created) [
          | inr (e, k) ↦
              rw (k, with_config, log-exit_line "creating database pool" e)
                (no_pool cfg e loaded (failed e k) has' (rw unwritten refl))
          | inl (pool, k) ↦
              let (parsed, read, made) = new_pool-eq_ok cfg w w2 pool (ground arith) in
              rw (k, with_config)
                (serves cfg parsed pool loaded read
                  (ap (λ v. new_with_config (limited cfg parsed) v) (sym same) ∙ made) has'
                  unwritten)
        ]

    Ended-Launched :
        (s : Boot W T M) (r : Result (Shutdown W)) (t : Telemetry W T M)
        → Ended sdk deps tracer_open meter_open s.telemetry r t
        → (r ≡ (init_telemetry sdk deps s.telemetry).0)
        → (t ≡ (init_telemetry sdk deps s.telemetry).1)
        → Launched s (launch sdk deps around s).0 (launch sdk deps around s).1
    unfolding launch
    Ended-Launched s r t (started tracer meter shutdown registered opened shuts) er et =
        let has : HasTelemetry s.telemetry (init_telemetry sdk deps s.telemetry).1 = record {
          tracer = tracer;
          meter = meter;
          registered = rw et at registered;
          opened = rw et at opened;
        } in
        elim (Result-cases (load_database_config env parse_int parse_duration)) [
          | inr (e, k) ↦
              rw (sym er, k, launch, log-exit_line "loading database config" e)
                (no_config e k has refl)
          | inl (cfg, k) ↦ rw (sym er, k, launch) (with_config-Launched s _ cfg k refl has refl)
        ]
    Ended-Launched s r t (refused e same quiet) er et =
        rw (sym er, launch, log-exit_line "initializing telemetry" e)
          (no_telemetry e (sym er) (rw et at same) (rw et at quiet) refl)

    -- The process starts to serve exactly when telemetry, the configuration and the pool succeed:
    -- then its loggers are those of a new factory for the service, the pool was made with the
    -- limits of the configuration on the settings of the connection string, and nothing was
    -- written. Otherwise it exits with code 1 after one line, an error with what the step that
    -- failed has returned: `initTelemetry`, `LoadDatabaseConfig` or `NewPool`. Telemetry that failed
    -- registers no provider and leaves none open that was not; a process that exits after telemetry
    -- has started leaves both of its providers open, since the deferred shutdown does not run. The
    -- theorem takes it that a provider that is shut down stays so, and that making a pool opens and
    -- closes none.
    pub launch-Launched :
        (s : Boot W T M) → Launched s (launch sdk deps around s).0 (launch sdk deps around s).1
    launch-Launched s =
        Ended-Launched s _ _ (init_telemetry-Ended sdk deps tracer_open meter_open laws s.telemetry)
          refl refl
