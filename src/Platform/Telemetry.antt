-- ===== src/Platform/Telemetry.antt =====
-- internal/platform/otel.go. The OpenTelemetry library is a parameter: what makes resources, exporters
-- and providers, and what shuts providers down, on a state `W` of the outside.
pub mod Laws
use spec_star_go.Prelude.{Option, none, some}
use spec_star_go.Domain.Errors.{Error, wrap, join}
use spec_star_go.Domain.Effect.{Result, ok, err, Action}

-- `propagation.TraceContext{}`
pub data Propagator : Type 0 where
  trace_context : Propagator

-- what `otel.SetTracerProvider`, `otel.SetMeterProvider` and `otel.SetTextMapPropagator` set
pub record Globals (T M : Type 0) : Type 0 where
  pub tracer_provider : Option T
  pub meter_provider : Option M
  pub propagator : Option Propagator

pub record Telemetry (W T M : Type 0) : Type 0 where
  pub outside : W
  pub globals : Globals T M

-- `telemetryDeps`: `R` is a resource, and `X` and `Y` are the exporters
pub record TelemetryDeps (W R X Y : Type 0) : Type 0 where
  pub build_resource : Action W R
  pub new_trace_exporter : Action W X
  pub new_metric_exporter : Action W Y

-- the constructors of the providers with the options that the code gives, and their `Shutdown`
pub record Sdk (W R X Y T M : Type 0) : Type 0 where
  pub new_tracer_provider : X → R → W → T × W
  pub new_meter_provider : Y → R → W → M × W
  pub shutdown_tracer : T → W → Option Error × W
  pub shutdown_meter : M → W → Option Error × W

-- `errors.Join` of two errors, each of which may be nil
abbrev pub joined : Option Error → Option Error → Option Error
joined none b = b
joined (some a) none = some a
joined (some a) (some b) = some (join a b)

-- the same where the first is not nil
abbrev pub joined_with : Error → Option Error → Error
joined_with a none = a
joined_with a (some b) = join a b

-- the function that is returned
abbrev pub Shutdown : Type 0 → Type 0
Shutdown W = W → Option Error × W

module _ {W R X Y T M : Type 0} (sdk : Sdk W R X Y T M) (deps : TelemetryDeps W R X Y) where
  unfoldable pub shut_down : T → M → Shutdown W
  shut_down tp mp w =
      let (a, w1) = sdk.shutdown_tracer tp w in
      let (b, w2) = sdk.shutdown_meter mp w1 in (joined a b, w2)

  -- after the providers of traces is made
  unfoldable pub with_tracer : R → T → Telemetry W T M → Result (Shutdown W) × Telemetry W T M
  unfolding shut_down
  with_tracer res tp s =
      let (exporter, w1) = deps.new_metric_exporter s.outside in
      elim exporter [
        | err e ↦
            let (failure, w2) = sdk.shutdown_tracer tp w1 in
            (
              err (joined_with (wrap "creating metric exporter" e) failure),
              record s { outside = w2 },
            )
        | ok metric_exporter ↦
            let (mp, w2) = sdk.new_meter_provider metric_exporter res w1 in
            (
              ok (shut_down tp mp),
              record {
                outside = w2;
                globals = record {
                  tracer_provider = some tp;
                  meter_provider = some mp;
                  propagator = some trace_context;
                };
              },
            )
      ]

  unfoldable pub init_telemetry : Telemetry W T M → Result (Shutdown W) × Telemetry W T M
  unfolding with_tracer
  init_telemetry s =
      let (resource, w1) = deps.build_resource s.outside in
      elim resource [
        | err e ↦ (err (wrap "building otel resource" e), record s { outside = w1 })
        | ok res ↦
            let (exporter, w2) = deps.new_trace_exporter w1 in
            elim exporter [
              | err e ↦ (err (wrap "creating trace exporter" e), record s { outside = w2 })
              | ok trace_exporter ↦
                  let (tp, w3) = sdk.new_tracer_provider trace_exporter res w2 in
                  with_tracer res tp (record s { outside = w3 })
            ]
      ]
