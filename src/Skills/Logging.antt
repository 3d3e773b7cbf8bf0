-- ===== src/Skills/Logging.antt =====
-- .github/skills/go-lambda-structured-logging/examples: a factory of loggers, and handlers for HTTP and
-- SQS that log what they do. An error is its text.
pub mod Laws
use Prim.Native.String.{◌++◌ as ◌++ₛ◌}
use spec_star_go.Prelude.{
  ℕ, ltb, length, String, Bool, true, false, List, [], ◌∷◌, ◌++◌, Option, none, some, if◌then◌else◌,
}
use spec_star_go.Prelude.Int.{ℤ, pos}
use spec_star_go.Platform.Logger.{
  text, flag, number, Line, Context, Logger, json, with_attrs, log, no_span,
}
use spec_star_go.Skills.{SqsMessage, Response, Result, ok, err, Action}

pub record LoggerFactory : Type 0 where
  pub base : Logger
  pub service : String
  pub cold_start : Bool

unfoldable pub new_logger_factory : (service : String) (level : ℤ) → LoggerFactory
new_logger_factory service level = record {
  base =
      with_attrs (text "service" service ∷ [])
        (json (record { least = level; groups = []; attrs = [] }));
  service = service;
  cold_start = true;
}

abbrev with_request : Option String → Logger → Logger
with_request none logger = logger
with_request (some id) logger = with_attrs (text "request_id" id ∷ []) logger

unfoldable pub from_context :
    Context → (trigger operation : String) → LoggerFactory → Logger × LoggerFactory
from_context ctx trigger operation f =
    let logger =
      with_request ctx.request_id
        (with_attrs (text "trigger" trigger ∷ text "operation" operation ∷ []) f.base) in
    if f.cold_start
    then (with_attrs (flag "cold_start" true ∷ []) logger, record f { cold_start = false })
    else (logger, f)

-- `create` is `HandleCreateThing`, which gives an identifier
unfoldable pub handle_http :
    {W : Type 0}
    → (create : (name : String) → Action W String String) → Logger
    → (method route name : String) → W
    → Response × List Line × W
handle_http create base method route name w =
    let logger = with_attrs (text "method" method ∷ text "route" route ∷ []) base in
    let (result, w') = create name w in
    elim result [
      | err e ↦ (
        record { status_code = 500; headers = []; body = "{\"message\":\"internal error\"}" },
        log no_span (pos 8) "create thing failed" (text "outcome" "failed" ∷ text "error" e ∷ [])
            logger,
        w',
      )
      | ok id ↦ (
        record { status_code = 201; headers = []; body = "{\"id\":\"" ++ₛ id ++ₛ "\"}" },
        log no_span (pos 0) "create thing completed"
            (text "outcome" "success" ∷ text "thing_id" id ∷ []) logger,
        w',
      )
    ]

-- what the loop over a batch has gathered: the failures, and the lines that were logged
pub record Progress : Type 0 where
  pub failures : List String
  pub written : List Line

-- one message, after it was processed
unfoldable pub report : Logger → SqsMessage → Result String (Unit {0}) → Progress → Progress
report base r (ok _) p = p
report base r (err e) p =
    let logger =
      with_attrs (text "message_id" r.message_id ∷ text "queue_arn" r.event_source_arn ∷ []) base in
    record {
      failures = p.failures ++ r.message_id ∷ [];
      written =
          p.written
          ++ log no_span (pos 8) "message processing failed"
              (text "outcome" "failed" ∷ text "error" e ∷ []) logger;
    }

module _ {W : Type 0} (process : SqsMessage → Action W String (Unit {0})) where
  unfoldable pub process_all : Logger → List SqsMessage → Progress → W → Progress × W
  process_all base [] p w = (p, w)
  process_all base (r ∷ rest) p w =
      let (result, w') = process r w in process_all base rest (report base r result p) w'

  unfoldable pub handle_batch : Logger → List SqsMessage → W → Progress × W
  unfolding process_all
  handle_batch logger messages w =
      let base = with_attrs (number "batch_size" (length messages) ∷ []) logger in
      let (p, w') = process_all base messages (record { failures = []; written = [] }) w in
      let summary =
        if ltb 0 (length p.failures)
        then log no_span (pos 4) "batch completed with failures"
            (text "outcome" "partial_failure" ∷ number "failed_count" (length p.failures) ∷ []) base
        else log no_span (pos 0) "batch completed" (text "outcome" "success" ∷ []) base in
      (record p { written = p.written ++ summary }, w')
