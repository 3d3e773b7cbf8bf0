-- ===== src/Platform/Database.antt =====
-- internal/platform/database.go. `env` is `os.Getenv`, which gives "" for a variable that is not
-- set; durations are nanoseconds. `strconv.ParseInt(v, 10, 32)` and `time.ParseDuration` are
-- parameters, and so are `pgxpool.ParseConfig` and `pgxpool.NewWithConfig`.
pub mod Laws
use Prim.Native.String.{◌++◌}
use spec_star_go.Prelude.{ℕ, ◌*◌, String, str_eq, if◌then◌else◌}
use spec_star_go.Prelude.Int.{ℤ, pos}
use spec_star_go.Domain.Errors.{Error, wrap, message}
use spec_star_go.Domain.Effect.{Result, ok, err, ◌>>=◌, Action}

pub record DatabaseConfig : Type 0 where
  pub dsn : String
  pub max_connections : ℤ
  pub min_connections : ℤ
  pub max_conn_lifetime : ℤ
  pub max_conn_idle_time : ℤ
  pub health_check_period : ℤ

abbrev pub second : ℕ
second = 1_000_000_000

module _ (env : String → String) (parse_int parse_duration : String → Result ℤ) where
  -- one optional variable: unset keeps the default, a text that does not parse is an error, in
  -- which `%q` puts it in quotes (a text with nothing to escape)
  unfoldable pub setting : (String → Result ℤ) → (name : String) → ℤ → Result ℤ
  setting parse name default =
      let v = env name in
      if str_eq v "" then ok default else elim (parse v) [
        | ok n ↦ ok n
        | err e ↦ err (wrap ("invalid " ++ name ++ " \"" ++ v ++ "\"") e)
      ]

  unfoldable pub load_database_config : Result DatabaseConfig
  unfolding setting
  load_database_config =
      let dsn = env "DATABASE_URL" in
      if str_eq dsn "" then err (message "DATABASE_URL is required") else do
        max_connections ← setting parse_int "DB_MAX_CONNECTIONS" (pos 3)
        min_connections ← setting parse_int "DB_MIN_CONNECTIONS" (pos 0)
        max_conn_lifetime ← setting parse_duration "DB_MAX_CONN_LIFETIME" (pos (5 * (60 * second)))
        max_conn_idle_time ← setting parse_duration "DB_MAX_CONN_IDLE_TIME" (pos (30 * second))
        health_check_period ← setting parse_duration "DB_HEALTH_CHECK_PERIOD" (pos (15 * second))
        ok (record {
          dsn = dsn;
          max_connections = max_connections;
          min_connections = min_connections;
          max_conn_lifetime = max_conn_lifetime;
          max_conn_idle_time = max_conn_idle_time;
          health_check_period = health_check_period;
        })

-- `pgxpool.Config`: the five fields that the code sets, and the others
pub record PoolConfig (C : Type 0) : Type 0 where
  pub max_conns : ℤ
  pub min_conns : ℤ
  pub max_conn_lifetime : ℤ
  pub max_conn_idle_time : ℤ
  pub health_check_period : ℤ
  pub others : C

module _ {C : Type 0} (parse_config : String → Result (PoolConfig C)) where
  unfoldable pub build_pool_config : DatabaseConfig → Result (PoolConfig C)
  build_pool_config cfg = elim (parse_config cfg.dsn) [
    | err e ↦ err (wrap "parsing connection string" e)
    | ok pool ↦ ok (record pool {
      max_conns = cfg.max_connections;
      min_conns = cfg.min_connections;
      max_conn_lifetime = cfg.max_conn_lifetime;
      max_conn_idle_time = cfg.max_conn_idle_time;
      health_check_period = cfg.health_check_period;
    })
  ]

  unfoldable pub new_pool :
      {W P : Type 0} → (PoolConfig C → Action W P) → DatabaseConfig → Action W P
  unfolding build_pool_config
  new_pool new_with_config cfg w = elim (build_pool_config cfg) [
    | err e ↦ (err e, w)
    | ok pool ↦ new_with_config pool w
  ]
