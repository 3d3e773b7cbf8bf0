-- ===== src/Http/Observation.antt =====
-- What a handler of internal/adapters/inbound/httphandler shows of its work: spans, metrics and log
-- lines, as the events of the process in the order in which they happen.
use Prim.Native.String.{◌++◌ as concat}
use spec_star_go.Prelude.{ℕ, leb, String, List, [], ◌∷◌, ◌++◌, map, if◌then◌else◌}
use spec_star_go.Prelude.Int.{pos}
use spec_star_go.Domain.Errors.{Error, error_text}
use spec_star_go.Domain.Effect.{Result, ok, err}
use spec_star_go.Platform.Logger.{Attr, text, number, Line, Span, Logger, LoggerFactory, log}

-- `codes.Code`
pub data SpanCode : Type 0 where
  error_code ok_code : SpanCode

pub data Event : Type 0 where
  span_started : (name : String) → Event
  span_attributes : List Attr → Event
  span_error : Error → Event
  span_status : SpanCode → (description : String) → Event
  span_ended : Event
  -- one more on `wallet.command.count`
  counted : (command outcome : String) → Event
  -- a value of `wallet.command.duration`
  timed : (milliseconds : ℕ) → (command outcome : String) → Event
  logged : Line → Event

-- The handlers share the factory of loggers, and the outside `W`.
pub record Process (W : Type 0) : Type 0 where
  pub world : W
  pub loggers : LoggerFactory
  pub events : List Event

-- `createMetrics`, which panics
pub data Panics {ℓ} (A : Type ℓ) : Type ℓ where
  returned : A → Panics A
  panicked : String → Panics A

-- the two constructors of instruments of a `metric.Meter`, by name
unfoldable pub create_metrics :
    {C H : Type 0}
    → (int64_counter : String → Result C) (float64_histogram : String → Result H) → Panics (C × H)
create_metrics int64_counter float64_histogram = elim (int64_counter "wallet.command.count") [
  | err e ↦ panicked (concat "create wallet.command.count counter: " (error_text e))
  | ok count ↦ elim (float64_histogram "wallet.command.duration") [
    | err e ↦ panicked (concat "create wallet.command.duration histogram: " (error_text e))
    | ok duration ↦ returned (count, duration)
  ]
]

unfoldable pub record_command_metrics : (command outcome : String) (elapsed : ℕ) → List Event
record_command_metrics command outcome elapsed =
    counted command outcome ∷ timed elapsed command outcome ∷ []

-- `slog.LevelWarn` is 4 and `slog.LevelError` is 8
unfoldable pub log_terminal_error : Span → Logger → (status : ℕ) → Error → List Line
log_terminal_error span logger status e =
    let attrs =
      number "status" status ∷ text "error" (error_text e) ∷ text "outcome" "failed" ∷ [] in
    if leb 500 status
    then log span (pos 8) "request failed" attrs logger
    else log span (pos 4) "request failed" attrs logger

abbrev pub span_opened : (name route command : String) → List Event
span_opened name route command =
    span_started name
    ∷ span_attributes
        (text "http.method" "POST" ∷ text "http.route" route ∷ text "wallet.command" command ∷ [])
    ∷ []

-- what both handlers do with an error of the service
unfoldable pub failed :
    (command : String) → Span → Logger → (elapsed status : ℕ) → Error → List Event
unfolding log_terminal_error record_command_metrics
failed command span logger elapsed status e =
    map logged (log_terminal_error span logger status e)
    ++ span_error e
      ∷ span_status error_code (error_text e)
      ∷ span_attributes (text "wallet.outcome" "failed" ∷ [])
      ∷ record_command_metrics command "failed" elapsed

-- and with a reply that has none
unfoldable pub succeeded : (command outcome : String) (elapsed : ℕ) → List Event
unfolding record_command_metrics
succeeded command outcome elapsed =
    span_status ok_code ""
    ∷ span_attributes (text "wallet.outcome" outcome ∷ [])
    ∷ record_command_metrics command outcome elapsed
