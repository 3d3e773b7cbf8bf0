-- ===== src/Examples/Adapters.antt =====
-- Concrete calls of the handlers, and concrete settings and loggers.
use spec_star_go.Prelude.{
  ℕ, ◌+◌, ◌*◌, String, ◌≡◌, ◌≢◌, ◌↔◌, refl, [], ◌∷◌, Option, none, some, str_eq, if◌then◌else◌,
}
use spec_star_go.Prelude.Int.{ℤ, pos}
use spec_star_go.Domain.Errors.{wrap, message, sentinel, insufficient_position}
use spec_star_go.Domain.Effect.{Result, ok, err}
use spec_star_go.Application.Flow.{Reply, failure, success}
use spec_star_go.Http.{
  Request, Response, HttpCodec, payload, error_body, coded_error_body, coded_error_response,
  json_response,
}
use spec_star_go.Http.Handlers.{handle_deposit, handle_withdraw}
use spec_star_go.Http.Handlers.Laws.{
  Answer, withdraw_body, deposit_body, handle_withdraw-Answer, handle_deposit-Answer,
}
use spec_star_go.Platform.Database.{DatabaseConfig, second, load_database_config}
use spec_star_go.Platform.Database.Laws.{Sets, load_database_config_iff}
use spec_star_go.Platform.Logger.{Context, Span, LoggerFactory, new_logger_factory}
use spec_star_go.Platform.Logger.{no_span}
use spec_star_go.Http.Observation.{Process}

-- a request is its text, and a body is shown by its kind
abbrev json : HttpCodec String (Option String)
json = record {
  decode = λ s. ok s;
  encode = λ b. elim b [
    | payload r ↦ ok "payload"
    | error_body e ↦ ok e
    | coded_error_body e code ↦ ok code
  ];
}

-- a service that counts its calls and always refuses, and one that accepts
abbrev refuse : String → ℕ → Reply String × ℕ
refuse q n = (failure 409 (wrap "withdraw" (sentinel insufficient_position)), n + 1)

abbrev accept : String → ℕ → Reply String × ℕ
accept q n = (success 201 q, n + 1)

abbrev post : Request
post = record { method = "POST"; path = "/withdrawals"; body = "{}" }

abbrev refused : Response
refused = record {
  status_code = 409;
  headers = ("Content-Type", "application/json") ∷ [];
  body = "INSUFFICIENT_POSITION";
}

abbrev accepted : Response
accepted = record {
  status_code = 201;
  headers = ("Content-Type", "application/json") ∷ [];
  body = "payload";
}

-- a span that is not recorded, and a process that has served nothing
abbrev tracer : String → Context → Span
tracer name ctx = no_span

abbrev ctx : Context
ctx = record { span = no_span; logger = none; request_id = some "id" }

abbrev loggers : LoggerFactory
loggers = (new_logger_factory "spec-star" (pos 0)).0

abbrev process : Process ℕ
process = record { world = 0; loggers = loggers; events = [] }

refusal :
    handle_withdraw json tracer refuse ctx post 7 process
    ≡ (ok refused, (handle_withdraw json tracer refuse ctx post 7 process).1)
unfolding handle_withdraw coded_error_response
refusal = refl

handle_withdraw-Answer_example :
    Answer json refuse
      (withdraw_body json)
      post
      0
      refused
      (handle_withdraw json tracer refuse ctx post 7 process).1.world
handle_withdraw-Answer_example =
    handle_withdraw-Answer json tracer refuse ctx post 7 process
      (handle_withdraw json tracer refuse ctx post 7 process).1 refused refusal

acceptance :
    handle_deposit json tracer accept ctx post 7 process
    ≡ (ok accepted, (handle_deposit json tracer accept ctx post 7 process).1)
unfolding handle_deposit json_response
acceptance = refl

handle_deposit-Answer_example :
    Answer json accept
      (deposit_body json)
      post
      0
      accepted
      (handle_deposit json tracer accept ctx post 7 process).1.world
handle_deposit-Answer_example =
    handle_deposit-Answer json tracer accept ctx post 7 process
      (handle_deposit json tracer accept ctx post 7 process).1 accepted acceptance

-- only the URL and one limit are set
abbrev env : String → String
env name =
    if str_eq name "DATABASE_URL"
    then "url"
    else if str_eq name "DB_MAX_CONNECTIONS"
    then "9"
    else ""

abbrev parse : String → Result ℤ
parse s = if str_eq s "9" then ok (pos 9) else err (message "invalid syntax")

abbrev config : DatabaseConfig
config = record {
  dsn = "url";
  max_connections = pos 9;
  min_connections = pos 0;
  max_conn_lifetime = pos (300 * second);
  max_conn_idle_time = pos (30 * second);
  health_check_period = pos (15 * second);
}

load_database_config_iff_example : (load_database_config env parse parse ≡ ok config) ↔ (
    (env "DATABASE_URL" ≢ "")
    × (config.dsn ≡ env "DATABASE_URL")
    × Sets env parse parse parse "DB_MAX_CONNECTIONS" (pos 3) (pos 9)
    × Sets env parse parse parse "DB_MIN_CONNECTIONS" (pos 0) (pos 0)
    × Sets env parse parse parse "DB_MAX_CONN_LIFETIME" (pos (300 * second)) (pos (300 * second))
    × Sets env parse parse parse "DB_MAX_CONN_IDLE_TIME" (pos (30 * second)) (pos (30 * second))
    × Sets env parse parse parse "DB_HEALTH_CHECK_PERIOD" (pos (15 * second)) (pos (15 * second)))
load_database_config_iff_example = load_database_config_iff env parse parse config
