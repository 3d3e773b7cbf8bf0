-- ===== src/Examples/Providers.antt =====
-- A library of telemetry that is simple enough to run: providers are numbered, and known to be open.
use spec_star_go.Prelude.{
  ℕ, ◌+◌, ◌==◌, ==_iff, ◌≡◌, refl, ◌⊎◌, inl, inr, Bool, true, false, not, ◌&&◌, ◌||◌, Bool-cases,
  none, some, arith,
}
use spec_star_go.Domain.Errors.{message}
use spec_star_go.Domain.Effect.{Result, ok, err}
use spec_star_go.Platform.Telemetry.{TelemetryDeps, Sdk}
use spec_star_go.Platform.Telemetry.Laws.{Shuts}

-- The outside counts the providers that were made, and knows which of each kind are open.
pub record Outside : Type 0 where
  pub made : ℕ
  pub tracers : ℕ → Bool
  pub meters : ℕ → Bool

abbrev opening : ℕ → (ℕ → Bool) → ℕ → Bool
opening id is_open i = (i == id) || is_open i

abbrev closing : ℕ → (ℕ → Bool) → ℕ → Bool
closing id is_open i = not (i == id) && is_open i

abbrev pub sdk : Sdk Outside ℕ ℕ ℕ ℕ ℕ
sdk = record {
  new_tracer_provider =
      λ x r w. (w.made, record w { made = w.made + 1; tracers = opening w.made w.tracers });
  new_meter_provider =
      λ y r w. (w.made, record w { made = w.made + 1; meters = opening w.made w.meters });
  shutdown_tracer = λ t w. (none, record w { tracers = closing t w.tracers });
  shutdown_meter =
      λ m w. (some (message "deadline exceeded"), record w { meters = closing m w.meters });
}

-- the exporter of metrics cannot be made
abbrev pub deps : TelemetryDeps Outside ℕ ℕ ℕ
deps = record {
  build_resource = λ w. (ok 1, w);
  new_trace_exporter = λ w. (ok 2, w);
  new_metric_exporter = λ w. (err (message "no endpoint"), w);
}

-- everything can be made
abbrev pub good_deps : TelemetryDeps Outside ℕ ℕ ℕ
good_deps = record deps { new_metric_exporter = λ w. (ok 3, w) }

abbrev pub tracer_open : ℕ → Outside → Bool
tracer_open t w = w.tracers t

abbrev pub meter_open : ℕ → Outside → Bool
meter_open m w = w.meters m

opening_self : (id : ℕ) (is_open : ℕ → Bool) → opening id is_open id ≡ true
opening_self id is_open = ground arith

opening_still :
    (id : ℕ) (is_open : ℕ → Bool) (i : ℕ) → is_open i ≡ true → opening id is_open i ≡ true
opening_still id is_open i h = ground arith

opening_other :
    (id : ℕ) (is_open : ℕ → Bool) (i : ℕ)
    → opening id is_open i ≡ true
    → (i ≡ id) ⊎ (is_open i ≡ true)
opening_other id is_open i h = elim (Bool-cases (i == id)) [
  | inl same ↦ inl ((==_iff i id).0 same)
  | inr other ↦ inr (ground arith)
]

closing_self : (id : ℕ) (is_open : ℕ → Bool) → closing id is_open id ≡ false
closing_self id is_open = ground arith

closing_before :
    (id : ℕ) (is_open : ℕ → Bool) (i : ℕ) → closing id is_open i ≡ true → is_open i ≡ true
closing_before id is_open i h = ground arith

closing_other :
    (id : ℕ) (is_open : ℕ → Bool) (i : ℕ)
    → is_open i ≡ true
    → (i ≡ id) ⊎ (closing id is_open i ≡ true)
closing_other id is_open i h = elim (Bool-cases (i == id)) [
  | inl same ↦ inl ((==_iff i id).0 same)
  | inr other ↦ inr (ground arith)
]

module _ (metric_exporter : Result ℕ) where
  abbrev some_deps : TelemetryDeps Outside ℕ ℕ ℕ
  some_deps = record deps { new_metric_exporter = λ w. (metric_exporter, w) }

  pub sdk-Shuts : Shuts sdk some_deps tracer_open meter_open
  sdk-Shuts = record {
    resource_quiet = λ w. (λ u. refl, λ u. refl);
    trace_exporter_quiet = λ w. (λ u. refl, λ u. refl);
    metric_exporter_quiet = λ w. (λ u. refl, λ u. refl);
    tracer_made = λ x r w. record {
      open_now = opening_self w.made w.tracers;
      still = opening_still w.made w.tracers;
      no_other = opening_other w.made w.tracers;
      apart = λ u. refl;
    };
    meter_made = λ y r w. record {
      open_now = opening_self w.made w.meters;
      still = opening_still w.made w.meters;
      no_other = opening_other w.made w.meters;
      apart = λ u. refl;
    };
    tracer_shut = λ t w. record {
      closed = closing_self t w.tracers;
      no_new = closing_before t w.tracers;
      no_other = closing_other t w.tracers;
      apart = λ u. refl;
    };
    meter_shut = λ m w. record {
      closed = closing_self m w.meters;
      no_new = closing_before m w.meters;
      no_other = closing_other m w.meters;
      apart = λ u. refl;
    };
  }
