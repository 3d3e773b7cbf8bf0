-- ===== src/Http/Handlers.antt =====
-- `Handle` of deposit_handler.go and of withdraw_handler.go, over any service.
pub mod Laws
pub mod Calls
pub mod Counts
use spec_star_go.Prelude.{
  ℕ, ◌==◌, String, str_eq, List, [], ◌∷◌, ◌++◌, Option, none, some, if◌then◌else◌,
}
use spec_star_go.Domain.Errors.{
  Error, error_text, message, is, insufficient_position, concurrency_conflict,
}
use spec_star_go.Domain.Effect.{Result, ok, err}
use spec_star_go.Application.Flow.{Reply}
use spec_star_go.Platform.Logger.{Context, Span, Logger, from_context}
use spec_star_go.Http.{
  Request, Response, Body, HttpCodec, payload, json_response, error_response, coded_error_response,
}
use spec_star_go.Http.Observation.{Event, span_ended, Process, span_opened, failed, succeeded}

-- `resp` of a call with no error; Go marshals a nil pointer as `null`
abbrev pub respond : {Q R : Type 0} → HttpCodec Q (Option R) → Reply R → Result Response
respond json r = json_response json r.status (payload r.response)

-- `wallet.outcome` of a deposit that has no error
abbrev pub deposit_success : ℕ → String
deposit_success status = if status == 200 then "replayed" else "success"

-- what is shown of the reply to a deposit, and of the reply to a withdrawal
unfoldable pub show_deposit : {R : Type 0} → Span → Logger → ℕ → Reply R → List Event
show_deposit span logger elapsed r = elim r.error [
  | some e ↦ failed "deposit" span logger elapsed r.status e
  | none ↦ succeeded "deposit" (deposit_success r.status) elapsed
]

unfoldable pub show_withdraw : {R : Type 0} → Span → Logger → ℕ → Reply R → List Event
show_withdraw span logger elapsed r = elim r.error [
  | some e ↦ failed "withdraw" span logger elapsed r.status e
  | none ↦ succeeded "withdraw" "success" elapsed
]

abbrev pub see : {W : Type 0} → Process W → List Event → Process W
see s events = record s { events = s.events ++ events }

-- `tracer` is `tracer.Start`, which gives the new span in a context; `execute` is the service. The
-- number is `time.Since(startTime)` in milliseconds.
module _ {W Q R : Type 0} (json : HttpCodec Q (Option R)) (tracer : String → Context → Span)
    (execute : Q → W → Reply R × W) where
  unfoldable pub deposit_reply : Reply R → Result Response
  deposit_reply r = elim r.error [
    | some e ↦ error_response json r.status (error_text e)
    | none ↦ respond json r
  ]

  unfoldable pub handle_deposit :
      Context → Request → (elapsed : ℕ) → Process W → Result Response × Process W
  unfolding deposit_reply show_deposit
  handle_deposit ctx req elapsed s =
      let ctx' = record ctx { span = tracer "POST /deposits" ctx } in
      let opened = see s (span_opened "POST /deposits" "/deposits" "deposit") in
      if str_eq req.method "POST"
      then (elim (json.decode req.body) [
        | err e ↦ (error_response json 422 "invalid request body", see opened (span_ended ∷ []))
        | ok request ↦
            let (logger, loggers) = from_context ctx' "http" "deposit" s.loggers in
            let (r, w) = execute request s.world in
            let shown = show_deposit ctx'.span logger elapsed r in
            (
              deposit_reply r,
              see (record opened { world = w; loggers = loggers }) (shown ++ span_ended ∷ []),
            )
      ])
      else (error_response json 405 "method not allowed", see opened (span_ended ∷ []))

  unfoldable pub withdraw_reply : Reply R → Result Response
  withdraw_reply r = elim r.error [
    | some e ↦
        if is e insufficient_position
        then coded_error_response json r.status (error_text e) "INSUFFICIENT_POSITION"
        else if is e concurrency_conflict
        then coded_error_response json r.status (error_text e) "CONCURRENCY_CONFLICT"
        else error_response json r.status (error_text e)
    | none ↦ respond json r
  ]

  unfoldable pub handle_withdraw :
      Context → Request → (elapsed : ℕ) → Process W → Result Response × Process W
  unfolding withdraw_reply show_withdraw
  handle_withdraw ctx req elapsed s =
      let ctx' = record ctx { span = tracer "POST /withdrawals" ctx } in
      let opened = see s (span_opened "POST /withdrawals" "/withdrawals" "withdraw") in
      if str_eq req.method "POST"
      then (elim (json.decode req.body) [
        | err e ↦ (error_response json 422 "invalid request body", see opened (span_ended ∷ []))
        | ok request ↦
            let (logger, loggers) = from_context ctx' "http" "withdraw" s.loggers in
            let (r, w) = execute request s.world in
            let shown = show_withdraw ctx'.span logger elapsed r in
            (
              withdraw_reply r,
              see (record opened { world = w; loggers = loggers }) (shown ++ span_ended ∷ []),
            )
      ])
      else (error_response json 405 "method not allowed", see opened (span_ended ∷ []))
