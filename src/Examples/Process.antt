-- ===== src/Examples/Process.antt =====
-- Concrete runs of the process: its start, and the requests that it serves.
use spec_star_go.Prelude.{
  ℕ, ◌+◌, String, str_eq, ◌≡◌, refl, List, [], ◌∷◌, true, false, Option, none, some, if◌then◌else◌,
}
use spec_star_go.Prelude.Int.{pos}
use spec_star_go.Domain.Errors.{message, sentinel, insufficient_position}
use spec_star_go.Domain.Effect.{ok, err}
use spec_star_go.Application.Flow.{failure, success}
use spec_star_go.Http.{HttpCodec, payload, error_body, coded_error_body}
use spec_star_go.Http.Observation.{Process}
use spec_star_go.Http.Handlers.Calls.{Call, Server, serve_calls}
use spec_star_go.Http.Handlers.Counts.{counts, counts-serve_calls}
use spec_star_go.Platform.Logger.{Span, text, Handler, json, trace_context, log, new_logger_factory}
use spec_star_go.Platform.Logger.Derived.{attrs, group, derive, log-derive}
use spec_star_go.Platform.Telemetry.{Telemetry, init_telemetry}
use spec_star_go.Platform.Telemetry.Laws.{Ended, init_telemetry-Ended}
use spec_star_go.Examples.Providers.{
  Outside, sdk, deps, good_deps, tracer_open, meter_open, sdk-Shuts,
}
use spec_star_go.Lambda.{Boot, Surroundings, launch}
use spec_star_go.Lambda.Laws.{Launched, launch-Launched}

abbrev nothing : Telemetry Outside ℕ ℕ
nothing = record {
  outside = record { made = 0; tracers = λ i. false; meters = λ i. false };
  globals = record { tracer_provider = none; meter_provider = none; propagator = none };
}

init_telemetry-Ended_example :
    Ended sdk deps tracer_open meter_open nothing
      (init_telemetry sdk deps nothing).0
      (init_telemetry sdk deps nothing).1
init_telemetry-Ended_example =
    init_telemetry-Ended sdk deps tracer_open meter_open (sdk-Shuts (err (message "no endpoint")))
      nothing

-- the connection string is set, and it gives a pool of ten connections
abbrev around : Surroundings Outside ℕ String
around = record {
  env = λ name. if str_eq name "DATABASE_URL" then "url" else "";
  parse_int = λ s. err (message "invalid syntax");
  parse_duration = λ s. err (message "invalid duration");
  parse_config = λ dsn. ok (record {
    max_conns = pos 10;
    min_conns = pos 1;
    max_conn_lifetime = pos 1;
    max_conn_idle_time = pos 1;
    health_check_period = pos 1;
    others = 0;
  });
  new_with_config = λ cfg w. (ok "pool", w);
}

abbrev boot : Boot Outside ℕ ℕ
boot = record { telemetry = nothing; written = [] }

launch-Launched_example :
    Launched sdk good_deps around tracer_open meter_open boot
      (launch sdk good_deps around boot).0
      (launch sdk good_deps around boot).1
launch-Launched_example =
    launch-Launched sdk good_deps around tracer_open meter_open (sdk-Shuts (ok 3))
      (λ cfg w. (λ u. refl, λ u. refl)) boot

-- a recorded span
abbrev span : Span
span = record {
  is_recording = true;
  span_context = record { trace_id = "t1"; span_id = "s1"; is_valid = true };
}

abbrev inner : Handler
inner = json (record { least = pos 4; groups = []; attrs = [] })

log-derive_example :
    log span
      (pos 8)
      "failed"
      (text "a" "b" ∷ [])
      (derive (group "g" ∷ attrs (text "c" "d" ∷ []) ∷ []) (trace_context inner))
    ≡ log span
        (pos 8)
        "failed"
        (text "a" "b" ∷ text "trace_id" "t1" ∷ text "span_id" "s1" ∷ [])
        (derive (group "g" ∷ attrs (text "c" "d" ∷ []) ∷ []) inner)
log-derive_example =
    log-derive (group "g" ∷ attrs (text "c" "d" ∷ []) ∷ []) inner span (pos 8) "failed"
      (text "a" "b" ∷ [])

-- a request is its text
abbrev codec : HttpCodec String (Option String)
codec = record {
  decode = λ s. if str_eq s "" then err (message "unexpected end of JSON input") else ok s;
  encode = λ b. elim b [
    | payload r ↦ ok "payload"
    | error_body e ↦ ok e
    | coded_error_body e code ↦ ok code
  ];
}

-- deposits are replayed, and withdrawals refused; the outside counts the commands
abbrev server : Server ℕ String String String String
server = record {
  deposits = codec;
  withdrawals = codec;
  tracer = λ name ctx. span;
  execute_deposit = λ q n. (success 200 q, n + 1);
  execute_withdraw = λ q n. (failure 409 (sentinel insufficient_position), n + 1);
}

abbrev call : (method path body : String) → Call
call method path body = record {
  ctx = record { span = span; logger = none; request_id = some "id" };
  req = record { method = method; path = path; body = body };
  elapsed = 12;
}

abbrev calls : List Call
calls =
    call "POST" "/withdrawals" "w"
    ∷ call "GET" "/deposits" "d"
    ∷ call "POST" "/other" "o"
    ∷ call "POST" "/deposits" "d"
    ∷ call "POST" "/deposits" ""
    ∷ []

abbrev process : Process ℕ
process = record { world = 0; loggers = (new_logger_factory "spec-star" (pos 0)).0; events = [] }

counts-serve_calls_example :
    (counts (serve_calls server calls process).events
      ≡ ("withdraw", "failed") ∷ ("deposit", "replayed") ∷ [])
    × ((serve_calls server calls process).world ≡ 2)
counts-serve_calls_example = counts-serve_calls server calls process
