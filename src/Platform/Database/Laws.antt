-- ===== src/Platform/Database/Laws.antt =====
-- What the configuration of the database is made of.
use spec_star_go.Prelude.{
  ◌*◌, String, ◌≡◌, ◌≢◌, ◌↔◌, ◌⊎◌, inl, inr, refl, str_eq, eq_iff, Bool-cases, arith, sym, ap,
}
use spec_star_go.Prelude.Int.{ℤ, pos}
use spec_star_go.Domain.Effect.{Result, ok, Result-cases, then-eq-ok}
use spec_star_go.Platform.Database.{DatabaseConfig, second, setting, load_database_config}

module _ (env : String → String) (parse_int parse_duration : String → Result ℤ) where
  abbrev load : (String → Result ℤ) → String → ℤ → Result ℤ
  load = setting env parse_int parse_duration

  -- the variable gives this value: it is not set and this is the default, or its text parses to it
  abbrev pub Sets : (String → Result ℤ) → String → ℤ → ℤ → Type 0
  Sets parse name default n =
      ((env name ≡ "") × (n ≡ default)) ⊎ ((env name ≢ "") × (parse (env name) ≡ ok n))

  module _ (parse : String → Result ℤ) (name : String) (default n : ℤ) where
    setting-ok :
        setting env parse_int parse_duration parse name default ≡ ok n → Sets parse name default n
    unfolding setting
    setting-ok e = elim (Bool-cases (str_eq (env name) "")) [
      | inl h ↦ inl ((eq_iff (env name) "").0 h, ground arith)
      | inr h ↦ elim (Result-cases (parse (env name))) [
        | inl (m, k) ↦ inr (λ q. ground (arith, (eq_iff (env name) "").1 q), ground arith)
        | inr (why, k) ↦ ground arith
      ]
    ]

    ok-setting :
        Sets parse name default n → setting env parse_int parse_duration parse name default ≡ ok n
    unfolding setting
    ok-setting s = elim s [
      | inl (unset, e) ↦ rw ((eq_iff (env name) "").1 unset, e, setting) refl
      | inr (set, e) ↦ elim (Bool-cases (str_eq (env name) "")) [
        | inl h ↦ absurd (set ((eq_iff (env name) "").0 h))
        | inr h ↦ rw (h, e, setting) refl
      ]
    ]

  -- The configuration is loaded exactly when DATABASE_URL is set and each of the other variables is
  -- not set or parses; its fields are then the URL and, for each variable, its value, or the default
  -- of three connections at most and none at least, five minutes, thirty seconds and fifteen seconds.
  pub load_database_config_iff :
      (c : DatabaseConfig)
      → (load_database_config env parse_int parse_duration ≡ ok c) ↔ (
          (env "DATABASE_URL" ≢ "")
          × (c.dsn ≡ env "DATABASE_URL")
          × Sets parse_int "DB_MAX_CONNECTIONS" (pos 3) c.max_connections
          × Sets parse_int "DB_MIN_CONNECTIONS" (pos 0) c.min_connections
          × Sets parse_duration "DB_MAX_CONN_LIFETIME" (pos (300 * second)) c.max_conn_lifetime
          × Sets parse_duration "DB_MAX_CONN_IDLE_TIME" (pos (30 * second)) c.max_conn_idle_time
          × Sets parse_duration "DB_HEALTH_CHECK_PERIOD" (pos (15 * second)) c.health_check_period)
  unfolding load_database_config
  load_database_config_iff c = (
    λ h. elim (Bool-cases (str_eq (env "DATABASE_URL") "")) [
      | inl e ↦ ground arith
      | inr e ↦
          let (a, ha, h) =
            then-eq-ok (load parse_int "DB_MAX_CONNECTIONS" (pos 3)) _
              (rw (e, load_database_config) at h) in
          let (b, hb, h) = then-eq-ok (load parse_int "DB_MIN_CONNECTIONS" (pos 0)) _ h in
          let (l, hl, h) =
            then-eq-ok (load parse_duration "DB_MAX_CONN_LIFETIME" (pos (300 * second))) _ h in
          let (i, hi, h) =
            then-eq-ok (load parse_duration "DB_MAX_CONN_IDLE_TIME" (pos (30 * second))) _ h in
          let (p, hp, h) =
            then-eq-ok (load parse_duration "DB_HEALTH_CHECK_PERIOD" (pos (15 * second))) _ h in
          let same : record {
            dsn = env "DATABASE_URL";
            max_connections = a;
            min_connections = b;
            max_conn_lifetime = l;
            max_conn_idle_time = i;
            health_check_period = p;
          }
              ≡ c =
            ground arith in
          (
            λ q. ground (arith, (eq_iff (env "DATABASE_URL") "").1 q),
            ap (λ x. x.dsn) (sym same),
            rw (ap (λ x. x.max_connections) (sym same)) (setting-ok parse_int _ _ a ha),
            rw (ap (λ x. x.min_connections) (sym same)) (setting-ok parse_int _ _ b hb),
            rw (ap (λ x. x.max_conn_lifetime) (sym same)) (setting-ok parse_duration _ _ l hl),
            rw (ap (λ x. x.max_conn_idle_time) (sym same)) (setting-ok parse_duration _ _ i hi),
            rw (ap (λ x. x.health_check_period) (sym same)) (setting-ok parse_duration _ _ p hp),
          )
    ],
    λ (set, dsn, sa, sb, sl, si, sp). elim (Bool-cases (str_eq (env "DATABASE_URL") "")) [
      | inl e ↦ absurd (set ((eq_iff (env "DATABASE_URL") "").0 e))
      | inr e ↦
          rw
            (
              e,
              load_database_config,
              ok-setting parse_int _ _ _ sa,
              ok-setting parse_int _ _ _ sb,
              ok-setting parse_duration _ _ _ sl,
              ok-setting parse_duration _ _ _ si,
              ok-setting parse_duration _ _ _ sp,
              sym dsn,
            )
            refl
    ],
  )
