-- ===== src/Examples/Retrying.antt =====
-- The deposit and the withdrawal of the examples over HTTP, each sent twice.
use spec_star_go.Prelude.{String, ◌≡◌, refl, [], Option, none, some}
use spec_star_go.Prelude.Int.{ℤ, pos}
use spec_star_go.Decimal.Whole.{whole}
use spec_star_go.Domain.Effect.{ok}
use spec_star_go.Application.Deposit.{DepositResponse}
use spec_star_go.Application.Deposit.Request.{DepositRequest}
use spec_star_go.Application.Withdraw.{WithdrawResponse}
use spec_star_go.Application.Withdraw.Request.{WithdrawRequest}
use spec_star_go.Postgres.World.{World}
use spec_star_go.Platform.Logger.{Context, Span, new_logger_factory}
use spec_star_go.Platform.Logger.{no_span}
use spec_star_go.Http.{Request, HttpCodec, payload, error_body, coded_error_body, json_response}
use spec_star_go.Http.Observation.{Process}
use spec_star_go.EndToEnd.Retry.{
  first_deposit, second_deposit, deposit_retry, first_withdraw, second_withdraw, withdraw_retry,
}
use spec_star_go.Examples.Fixtures.{codec, sql, world}
use spec_star_go.Examples.EndToEnd as Deposits
use spec_star_go.Examples.Withdrawals as Withdrawals

abbrev tracer : String → Context → Span
tracer name ctx = no_span

abbrev context : String → Context
context id = record { span = no_span; logger = none; request_id = some id }

abbrev process : Process (World ℤ)
process = record {
  world = world;
  loggers = (new_logger_factory "spec-star" (pos 0)).0;
  events = [];
}

abbrev post : String → Request
post path = record { method = "POST"; path = path; body = "{}" }

abbrev deposits : HttpCodec DepositRequest (Option DepositResponse)
deposits = record {
  decode = λ s. ok Deposits.deposit;
  encode = λ b. elim b [
    | payload r ↦ ok "payload"
    | error_body e ↦ ok e
    | coded_error_body e code ↦ ok code
  ];
}

abbrev withdrawals : HttpCodec WithdrawRequest (Option WithdrawResponse)
withdrawals = record {
  decode = λ s. ok Withdrawals.withdrawal;
  encode = λ b. elim b [
    | payload r ↦ ok "payload"
    | error_body e ↦ ok e
    | coded_error_body e code ↦ ok code
  ];
}

deposit_retry_example :
    let first =
      first_deposit sql codec tracer
        (context "a")
        (context "b")
        (post "/deposits")
        5
        6
        process
        refl
        Deposits.deposit_json
        deposits in
    let second =
      second_deposit sql codec tracer
        (context "a")
        (context "b")
        (post "/deposits")
        5
        6
        process
        refl
        Deposits.deposit_json
        deposits in
    (resp : DepositResponse) × (first.0 ≡ json_response deposits 201 (payload (some resp)))
    × (second.0 ≡ json_response deposits 200 (payload (some resp)))
    × (second.1.world.tables ≡ first.1.world.tables)
deposit_retry_example =
    deposit_retry sql codec tracer (context "a") (context "b") (post "/deposits") 5 6 process refl
      Deposits.deposit_json deposits Deposits.deposit_trips Deposits.deposit refl Deposits.created
      Deposits.holds

withdraw_retry_example :
    let first =
      first_withdraw sql codec tracer
        (context "a")
        (context "b")
        (post "/withdrawals")
        5
        6
        process
        refl
        Withdrawals.withdraw_json
        withdrawals in
    let second =
      second_withdraw sql codec tracer
        (context "a")
        (context "b")
        (post "/withdrawals")
        5
        6
        process
        refl
        Withdrawals.withdraw_json
        withdrawals in
    (resp : WithdrawResponse) × (first.0 ≡ json_response withdrawals 200 (payload (some resp)))
    × (second.0 ≡ first.0)
    × (second.1.world.tables ≡ first.1.world.tables)
withdraw_retry_example =
    withdraw_retry sql codec tracer (context "a") (context "b") (post "/withdrawals") 5 6 process
      refl Withdrawals.withdraw_json withdrawals Withdrawals.withdraw_trips Withdrawals.withdrawal
      refl Withdrawals.withdrawn Withdrawals.holds
