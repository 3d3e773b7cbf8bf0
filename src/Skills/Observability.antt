-- ===== src/Skills/Observability.antt =====
-- .github/skills/go-lambda-observability-otel/examples: the providers of OpenTelemetry, and handlers
-- for HTTP and SQS that show their work by spans and metrics. An error is its text.
pub mod Laws
use spec_star_go.Prelude.{ℕ, String, List, [], ◌∷◌, ◌++◌, ◌+◌, Option, none, some}
use spec_star_go.Domain.Errors.{Error, wrap}
use spec_star_go.Domain.Effect
use spec_star_go.Platform.Logger.{Attr, text}
use spec_star_go.Platform.Telemetry.{Globals, Telemetry, Sdk}
use spec_star_go.Http.Observation.{SpanCode, error_code, ok_code}
use spec_star_go.Skills.{SqsMessage, Response, Result, ok, err, Action}

-- `Config`
pub record Config : Type 0 where
  pub service_name : String
  pub environment : String
  pub version : String
  pub otlp_endpoint : String

-- `Providers`
pub record Providers (W T M : Type 0) : Type 0 where
  pub tracer_provider : T
  pub meter_provider : M
  pub shutdown : W → Option Error × W

-- The meter provider is made without a reader.
module _ {W R X T M : Type 0} (sdk : Sdk W R X (Unit {0}) T M)
    (new_resource : Config → Effect.Action W R)
    (new_trace_exporter : String → Effect.Action W X) where
  -- the function `Shutdown`
  unfoldable pub shut_down : T → M → W → Option Error × W
  shut_down tp mp w =
      let (failure, w') = sdk.shutdown_tracer tp w in
      elim failure [ some e ↦ (some e, w') | none ↦ sdk.shutdown_meter mp w' ]

  unfoldable pub build_providers :
      Config → Telemetry W T M → Effect.Result (Providers W T M) × Telemetry W T M
  unfolding shut_down
  build_providers cfg s =
      let (resource, w1) = new_resource cfg s.outside in
      elim resource [
        | Effect.err e ↦ (Effect.err (wrap "build otel resource" e), record s { outside = w1 })
        | Effect.ok res ↦
            let (exporter, w2) = new_trace_exporter cfg.otlp_endpoint w1 in
            elim exporter [
              | Effect.err e ↦
                  (Effect.err (wrap "build trace exporter" e), record s { outside = w2 })
              | Effect.ok trace_exporter ↦
                  let (tp, w3) = sdk.new_tracer_provider trace_exporter res w2 in
                  let (mp, w4) = sdk.new_meter_provider tt res w3 in
                  (
                    Effect.ok (record {
                      tracer_provider = tp;
                      meter_provider = mp;
                      shutdown = shut_down tp mp;
                    }),
                    record {
                      outside = w4;
                      globals = record (s.globals) {
                        tracer_provider = some tp;
                        meter_provider = some mp;
                      };
                    },
                  )
            ]
      ]

-- what a handler shows, in order
pub data Event : Type 0 where
  started : (name : String) → Event
  attributes : List Attr → Event
  recorded_error : String → Event
  status : SpanCode → String → Event
  ended : Event
  duration : (milliseconds : ℕ) → List Attr → Event
  failure : List Attr → Event

module _ {W : Type 0} where
  -- `Handle` of httpapi; `handle` is the use case, given the path parameter, and `elapsed` the
  -- reading of the clock
  unfoldable pub handle_http :
      (handle : String → Action W String (Unit {0}))
      → (method route id : String) (elapsed : ℕ) → W
      → Response × List Event × W
  handle_http handle method route id elapsed w =
      let attrs =
        text "trigger" "http" ∷ text "http.method" method ∷ text "http.route" route ∷ [] in
      let (result, w') = handle id w in
      let begun = started "http create-order" ∷ attributes attrs ∷ duration elapsed attrs ∷ [] in
      elim result [
        | err e ↦ (
          record { status_code = 500; headers = []; body = "{\"message\":\"internal error\"}" },
          begun
              ++ recorded_error e
                ∷ status error_code "create order failed"
                ∷ failure attrs
                ∷ ended
                ∷ [],
          w',
        )
        | ok _ ↦ (
          record { status_code = 201; headers = []; body = "" },
          begun ++ status ok_code "ok" ∷ ended ∷ [],
          w',
        )
      ]

  module _ (handle : (body : String) → Action W String (Unit {0})) where
    abbrev pub message_attrs : SqsMessage → List Attr
    message_attrs r =
        text "trigger" "sqs"
        ∷ text "message_id" r.message_id
        ∷ text "event_source" r.event_source_arn
        ∷ []

    -- what is shown of one message, by how it ended
    unfoldable pub show_message : SqsMessage → (elapsed : ℕ) → Result String (Unit {0}) → List Event
    show_message r elapsed result =
        let attrs = message_attrs r in
        started "sqs process record" ∷ attributes attrs ∷ duration elapsed attrs ∷ (elim result [
          | err e ↦
              recorded_error e ∷ status error_code "record failed" ∷ failure attrs ∷ ended ∷ []
          | ok _ ↦ status ok_code "ok" ∷ ended ∷ []
        ])

    -- the loop of `Handle` of sqs, with the readings of the clock to come
    unfoldable pub handle_messages :
        (clock : ℕ → ℕ)
        → List String
        → List Event
        → List SqsMessage
        → W
        → List String × List Event × W
    unfolding show_message
    handle_messages clock failures events [] w = (failures, events ++ ended ∷ [], w)
    handle_messages clock failures events (r ∷ rest) w =
        let (result, w') = handle r.body w in
        handle_messages (λ i. clock (i + 1))
          (elim result [ err e ↦ failures ++ r.message_id ∷ [] | ok _ ↦ failures ])
          (events ++ show_message r (clock 0) result) rest w'

    unfoldable pub handle_batch :
        (clock : ℕ → ℕ) → List SqsMessage → W → List String × List Event × W
    unfolding handle_messages
    handle_batch clock messages w =
        handle_messages clock [] (started "sqs process batch" ∷ []) messages w
