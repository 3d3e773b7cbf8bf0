-- ===== src/Lambda.antt =====
-- cmd/http-lambda/main.go: the start of the process up to `lambda.Start`, and the handlers that it
-- serves requests with. A deferred call does not run when the process exits by `os.Exit`, and
-- `lambda.Start` does not return.
pub mod Laws
use spec_star_go.Prelude.{ℕ, String, false, List, [], ◌∷◌, ◌++◌, Option}
use spec_star_go.Prelude.Int.{ℤ, pos}
use spec_star_go.Decimal.{Decimal}
use spec_star_go.Domain.Errors.{Error, error_text}
use spec_star_go.Domain.Effect.{Result, ok, err, Action}
use spec_star_go.Ports.{Codec, Json}
use spec_star_go.Application.Deposit
use spec_star_go.Application.Deposit.{DepositResponse}
use spec_star_go.Application.Deposit.Request.{DepositRequest}
use spec_star_go.Application.Withdraw
use spec_star_go.Application.Withdraw.{WithdrawResponse}
use spec_star_go.Application.Withdraw.Request.{WithdrawRequest}
use spec_star_go.Postgres.World.{World, Sql}
use spec_star_go.Postgres.Transaction.{environment}
use spec_star_go.Platform.Database.{DatabaseConfig, PoolConfig, load_database_config, new_pool}
use spec_star_go.Platform.Logger.{
  Line, text, Context, Span, Logger, LoggerFactory, log, new_logger_factory, no_span,
}
use spec_star_go.Platform.Telemetry.{Telemetry, TelemetryDeps, Sdk, init_telemetry}
use spec_star_go.Http.{HttpCodec}
use spec_star_go.Http.Handlers.Calls.{Server}

-- what the process has done, and the lines that it wrote
pub record Boot (W T M : Type 0) : Type 0 where
  pub telemetry : Telemetry W T M
  pub written : List Line

-- `os.Exit`, or `lambda.Start` with handlers that have the loggers and the pool
pub data Launch (P : Type 0) : Type 0 where
  exited : (code : ℕ) → Launch P
  serving : LoggerFactory → (pool : P) → Launch P

-- what `main` finds outside: the environment with the parsers of its values, and the pool
pub record Surroundings (W C P : Type 0) : Type 0 where
  pub env : String → String
  pub parse_int : String → Result ℤ
  pub parse_duration : String → Result ℤ
  pub parse_config : String → Result (PoolConfig C)
  pub new_with_config : PoolConfig C → Action W P

module _ {W R X Y T M C P : Type 0} (sdk : Sdk W R X Y T M) (deps : TelemetryDeps W R X Y)
    (around : Surroundings W C P) where
  open around use {env, parse_int, parse_duration, parse_config, new_with_config}

  -- `slog.Error(message, "error", err)` and `os.Exit(1)`
  unfoldable pub give_up : Logger → (message : String) → Error → Boot W T M → Launch P × Boot W T M
  give_up default message e s =
      let line = log no_span (pos 8) message (text "error" (error_text e) ∷ []) default in
      (exited 1, record s { written = s.written ++ line })

  -- from `NewPool` on
  unfoldable pub with_config :
      LoggerFactory → (default : Logger) → DatabaseConfig → Boot W T M → Launch P × Boot W T M
  unfolding give_up
  with_config loggers default cfg s =
      let (created, w) = new_pool parse_config new_with_config cfg s.telemetry.outside in
      let s' = record s { telemetry = record (s.telemetry) { outside = w } } in
      elim created [
        | err e ↦ give_up default "creating database pool" e s'
        | ok pool ↦ (serving loggers pool, s')
      ]

  unfoldable pub launch : Boot W T M → Launch P × Boot W T M
  unfolding give_up with_config
  launch s =
      let (loggers, default) = new_logger_factory "spec-star" (pos 0) in
      let (telemetry, t) = init_telemetry sdk deps s.telemetry in
      let s' = record s { telemetry = t } in
      elim telemetry [
        | err e ↦ give_up default "initializing telemetry" e s'
        | ok shutdown ↦ elim (load_database_config env parse_int parse_duration) [
          | err e ↦ give_up default "loading database config" e s'
          | ok cfg ↦ with_config loggers default cfg s'
        ]
      ]

-- the services on the tables, and the handlers on the services
module _ {D : Type 0} ⦃d : Decimal D⦄ (sql : Sql D) (codec : Codec)
    (deposit_json : Json DepositResponse) (withdraw_json : Json WithdrawResponse) where
  abbrev pub server :
      HttpCodec DepositRequest (Option DepositResponse)
      → HttpCodec WithdrawRequest (Option WithdrawResponse)
      → (String → Context → Span)
      → Server (World D) DepositRequest DepositResponse WithdrawRequest WithdrawResponse
  server deposits withdrawals tracer = record {
    deposits = deposits;
    withdrawals = withdrawals;
    tracer = tracer;
    execute_deposit = Deposit.execute (environment sql codec) codec deposit_json;
    execute_withdraw = Withdraw.execute (environment sql codec) codec withdraw_json;
  }
