-- ===== src/Platform/Logger.antt =====
-- internal/platform/logger.go, with the part of the package `log/slog` that it builds on: a handler
-- that writes JSON lines, and the loggers derived from it. The writer takes every line.
pub mod Laws
pub mod Derived
use spec_star_go.Prelude.{
  ℕ, String, Bool, true, false, not, List, [], ◌∷◌, ◌++◌, map, Option, none, some, if◌then◌else◌,
}
use spec_star_go.Prelude.Int.{ℤ, ltb_ℤ}

pub data Attr : Type 0 where
  text : (key value : String) → Attr
  flag : (key : String) → Bool → Attr
  number : (key : String) → ℕ → Attr

-- what the handler reads of `trace.SpanContext` and of `trace.Span`
pub record SpanContext : Type 0 where
  pub trace_id : String
  pub span_id : String
  pub is_valid : Bool

pub record Span : Type 0 where
  pub is_recording : Bool
  pub span_context : SpanContext

-- the span of `context.Background()`
abbrev pub no_span : Span
no_span = record {
  is_recording = false;
  span_context = record { trace_id = ""; span_id = ""; is_valid = false };
}

-- `slog.Record`, whose level is an integer
pub record Record : Type 0 where
  pub level : ℤ
  pub message : String
  pub attrs : List Attr

-- a line that was written, each attribute with the groups that it is nested in
pub record Line : Type 0 where
  pub level : ℤ
  pub message : String
  pub attrs : List (List String × Attr)

abbrev nested : List String → List Attr → List (List String × Attr)
nested groups = map (λ a. (groups, a))

-- `slog.JSONHandler`: the least level that it writes, the groups that are open, and the attributes
-- of every line
pub record JsonHandler : Type 0 where
  pub least : ℤ
  pub groups : List String
  pub attrs : List (List String × Attr)

-- the implementations of `slog.Handler`: the library's, and `traceContextHandler` round another
pub data Handler : Type 0 where
  json : JsonHandler → Handler
  trace_context : (inner : Handler) → Handler

unfoldable pub enabled : ℤ → Handler → Bool
enabled level (json h) = not (ltb_ℤ level h.least)
enabled level (trace_context inner) = enabled level inner

-- the attributes that `Handle` adds to a record
abbrev pub trace_attrs : Span → List Attr
trace_attrs span =
    if span.is_recording
    then if span.span_context.is_valid
      then text "trace_id" span.span_context.trace_id
        ∷ text "span_id" span.span_context.span_id
        ∷ []
      else []
    else []

unfoldable pub handle : Span → Record → Handler → Line
handle span r (json h) = record {
  level = r.level;
  message = r.message;
  attrs = h.attrs ++ nested h.groups r.attrs;
}
handle span r (trace_context inner) =
    handle span (record r { attrs = r.attrs ++ trace_attrs span }) inner

unfoldable pub with_attrs : List Attr → Handler → Handler
with_attrs attrs (json h) = json (record h { attrs = h.attrs ++ nested h.groups attrs })
with_attrs attrs (trace_context inner) = trace_context (with_attrs attrs inner)

unfoldable pub with_group : String → Handler → Handler
with_group name (json h) = json (record h { groups = h.groups ++ name ∷ [] })
with_group name (trace_context inner) = trace_context (with_group name inner)

-- `*slog.Logger` is its handler. A call of `WarnContext` or `ErrorContext` writes a line if the
-- level is enabled.
abbrev pub Logger : Type 0
Logger = Handler

unfoldable pub log : Span → ℤ → String → List Attr → Logger → List Line
log span level message attrs logger =
    if enabled level logger
    then handle span (record { level = level; message = message; attrs = attrs }) logger ∷ []
    else []

-- what the code reads of a `context.Context`: the span, the logger, and the request id of the Lambda
-- context
pub record Context : Type 0 where
  pub span : Span
  pub logger : Option Logger
  pub request_id : Option String

unfoldable pub with_logger : Context → Logger → Context
with_logger ctx logger = record ctx { logger = some logger }

-- `LoggerFromContext`; the first argument is `slog.Default()`
unfoldable pub logger_from_context : Logger → Context → Logger
logger_from_context default ctx = elim ctx.logger [ some logger ↦ logger | none ↦ default ]

pub record LoggerFactory : Type 0 where
  pub base : Logger
  pub cold_start : Bool

-- the factory, and the logger that becomes `slog.Default()`
unfoldable pub new_logger_factory : (service : String) (level : ℤ) → LoggerFactory × Logger
unfolding with_attrs
new_logger_factory service level =
    let base =
      with_attrs (text "service" service ∷ [])
        (trace_context (json (record { least = level; groups = []; attrs = [] }))) in
    (record { base = base; cold_start = true }, base)

abbrev pub request_attr : Option String → List Attr
request_attr none = []
request_attr (some id) = text "request_id" id ∷ []

unfoldable pub from_context :
    Context → (trigger operation : String) → LoggerFactory → Logger × LoggerFactory
from_context ctx trigger operation f = (
  with_attrs
      (text "trigger" trigger
        ∷ text "operation" operation
        ∷ flag "cold_start" f.cold_start
        ∷ request_attr ctx.request_id)
      f.base,
  record f { cold_start = false },
)
