-- ===== src/Platform/Telemetry/Laws.antt =====
-- No provider is left open when the start of telemetry fails.
use spec_star_go.Prelude.{
  ◌≡◌, refl, sym, ◌∙◌, ◌↔◌, ◌⊎◌, inl, inr, Option, none, some, Bool, true, false,
}
use spec_star_go.Domain.Errors.{Error}
use spec_star_go.Domain.Effect.{Result, ok, err, Result-cases}
use spec_star_go.Platform.Telemetry.{
  Globals, Telemetry, TelemetryDeps, Sdk, Shutdown, joined, shut_down, with_tracer, init_telemetry,
  trace_context,
}

-- How a step changes which providers are open: `A` is the kind that it works on.
module _ {W A B : Type 0} (a_open : A → W → Bool) (b_open : B → W → Bool) where
  abbrev pub Quiet : W → W → Type 0
  Quiet w w' = ((a : A) → a_open a w' ≡ a_open a w) × ((b : B) → b_open b w' ≡ b_open b w)

  -- a provider is made: it is open, and nothing else is that was not
  pub record Opens (a : A) (w w' : W) : Type 0 where
    pub open_now : a_open a w' ≡ true
    pub still : (u : A) → a_open u w ≡ true → a_open u w' ≡ true
    pub no_other : (u : A) → a_open u w' ≡ true → (u ≡ a) ⊎ (a_open u w ≡ true)
    pub apart : (b : B) → b_open b w' ≡ b_open b w

  -- a provider is shut down: it is not open, whether it was or not, and nothing else changes
  pub record Closes (a : A) (w w' : W) : Type 0 where
    pub closed : a_open a w' ≡ false
    pub no_new : (u : A) → a_open u w' ≡ true → a_open u w ≡ true
    pub no_other : (u : A) → a_open u w ≡ true → (u ≡ a) ⊎ (a_open u w' ≡ true)
    pub apart : (b : B) → b_open b w' ≡ b_open b w

module _ {W R X Y T M : Type 0} (sdk : Sdk W R X Y T M) (deps : TelemetryDeps W R X Y) where
  -- Which providers are open, by the documentation of the library: a provider is open once it is
  -- made and until it is shut down, and to shut it down again does nothing more. The operations on
  -- resources and exporters, and those on providers of the other kind, open and close none.
  pub record Shuts (tracer_open : T → W → Bool) (meter_open : M → W → Bool) : Type 0 where
    pub resource_quiet : (w : W) → Quiet tracer_open meter_open w (deps.build_resource w).1
    pub trace_exporter_quiet :
        (w : W) → Quiet tracer_open meter_open w (deps.new_trace_exporter w).1
    pub metric_exporter_quiet :
        (w : W) → Quiet tracer_open meter_open w (deps.new_metric_exporter w).1
    pub tracer_made :
        (x : X) (r : R) (w : W)
        → let (t, w') = sdk.new_tracer_provider x r w in Opens tracer_open meter_open t w w'
    pub meter_made :
        (y : Y) (r : R) (w : W)
        → let (m, w') = sdk.new_meter_provider y r w in Opens meter_open tracer_open m w w'
    pub tracer_shut :
        (t : T) (w : W) → Closes tracer_open meter_open t w (sdk.shutdown_tracer t w).1
    pub meter_shut : (m : M) (w : W) → Closes meter_open tracer_open m w (sdk.shutdown_meter m w).1

  -- what a start that succeeded has set
  pub record IsRegistered (t : T) (m : M) (g : Globals T M) : Type 0 where
    pub tracer : g.tracer_provider ≡ some t
    pub meter : g.meter_provider ≡ some m
    pub propagated : g.propagator ≡ some trace_context

  module _ (tracer_open : T → W → Bool) (meter_open : M → W → Bool) where
    -- every provider that is open afterwards was open before
    abbrev pub NoneLeft : W → W → Type 0
    NoneLeft w w' =
        ((u : T) → tracer_open u w' ≡ true → tracer_open u w ≡ true)
        × ((u : M) → meter_open u w' ≡ true → meter_open u w ≡ true)

    -- the two providers are open, and no other is that was not
    pub record BothOpen (t : T) (m : M) (w w' : W) : Type 0 where
      pub tracer : tracer_open t w' ≡ true
      pub meter : meter_open m w' ≡ true
      pub other_tracers : (u : T) → tracer_open u w' ≡ true → (u ≡ t) ⊎ (tracer_open u w ≡ true)
      pub other_meters : (u : M) → meter_open u w' ≡ true → (u ≡ m) ⊎ (meter_open u w ≡ true)

    -- the shutdown of both providers, whatever the state in which it is called
    pub record ShutsBoth (t : T) (m : M) (shutdown : Shutdown W) (w : W) : Type 0 where
      pub tracer : tracer_open t (shutdown w).1 ≡ false
      pub meter : meter_open m (shutdown w).1 ≡ false
      pub none_left : NoneLeft w (shutdown w).1
      pub reports : ((shutdown w).0 ≡ none) ↔ (
          ((sdk.shutdown_tracer t w).0 ≡ none)
          × ((sdk.shutdown_meter m (sdk.shutdown_tracer t w).1).0 ≡ none))

    -- the two ways in which a start can end
    pub data Ended (s : Telemetry W T M) : Result (Shutdown W) → Telemetry W T M → Type 0 where
      started :
          {s' : Telemetry W T M} (t : T) (m : M) (shutdown : Shutdown W)
          → IsRegistered t m s'.globals
          → BothOpen t m s.outside s'.outside
          → ((w : W) → ShutsBoth t m shutdown w)
          → Ended s (ok shutdown) s'
      refused :
          {s' : Telemetry W T M} (e : Error)
          → s'.globals ≡ s.globals
          → NoneLeft s.outside s'.outside
          → Ended s (err e) s'

  joined-none : (a b : Option Error) → (joined a b ≡ none) ↔ ((a ≡ none) × (b ≡ none))
  joined-none none b = (λ h. (refl, h), λ h. h.1)
  joined-none (some a) none = (λ h. (h, refl), λ h. h.0)
  joined-none (some a) (some b) = (λ h. absurd (cc), λ h. absurd (cc))

  module _ (tracer_open : T → W → Bool) (meter_open : M → W → Bool)
      (laws : Shuts tracer_open meter_open) where
    shut_down-ShutsBoth :
        (t : T) (m : M) (w : W) → ShutsBoth tracer_open meter_open t m (shut_down sdk deps t m) w
    unfolding shut_down
    shut_down-ShutsBoth t m w =
        let first = laws.tracer_shut t w in
        let second = laws.meter_shut m (sdk.shutdown_tracer t w).1 in
        record {
          tracer = second.apart t ∙ first.closed;
          meter = second.closed;
          none_left = (
            λ u h. first.no_new u (sym (second.apart u) ∙ h),
            λ u h. sym (first.apart u) ∙ second.no_new u h,
          );
          reports = joined-none _ _;
        }

    -- from a state that has opened one more provider of traces
    with_tracer-Ended :
        (s s3 : Telemetry W T M) (r : R) (t : T)
        → s3.globals ≡ s.globals
        → Opens tracer_open meter_open t s.outside s3.outside
        → Ended tracer_open meter_open s
            (with_tracer sdk deps r t s3).0
            (with_tracer sdk deps r t s3).1
    unfolding with_tracer
    with_tracer-Ended s s3 r t same_globals opened =
        let w1 = (deps.new_metric_exporter s3.outside).1 in
        let quiet = laws.metric_exporter_quiet s3.outside in
        let gone = laws.tracer_shut t w1 in
        elim (Result-cases (deps.new_metric_exporter s3.outside).0) [
          | inr (e, h) ↦
              rw (h, with_tracer)
                (refused _ same_globals (
                  (λ u k. elim (opened.no_other u (sym (quiet.0 u) ∙ gone.no_new u k)) [
                    | inl same ↦ absurd (let shut = gone.closed in cc)
                    | inr before ↦ before
                  ]),
                  λ u k. sym (opened.apart u) ∙ sym (quiet.1 u) ∙ sym (gone.apart u) ∙ k,
                ))
          | inl (y, h) ↦
              let (m, w2) = sdk.new_meter_provider y r w1 in
              let made = laws.meter_made y r w1 in
              rw (h, with_tracer)
                (started t m (shut_down sdk deps t m)
                  (record { tracer = refl; meter = refl; propagated = refl })
                  (record {
                    tracer = made.apart t ∙ quiet.0 t ∙ opened.open_now;
                    meter = made.open_now;
                    other_tracers =
                        λ u k. opened.no_other u (sym (quiet.0 u) ∙ sym (made.apart u) ∙ k);
                    other_meters = λ u k. elim (made.no_other u k) [
                      | inl same ↦ inl same
                      | inr before ↦ inr (sym (opened.apart u) ∙ sym (quiet.1 u) ∙ before)
                    ];
                  })
                  (shut_down-ShutsBoth t m))
        ]

    -- When a provider that is shut down stays so, the start of telemetry ends in one of two ways.
    -- Either it registers a tracer provider, a meter provider and the propagator of trace contexts,
    -- the two are open and no other provider is that was not, and the shutdown that it returns, in
    -- whatever state it is called and however often, leaves neither open, opens none, and reports
    -- no error exactly when neither of the two reports one; or it fails, registers nothing, and
    -- every provider that is open afterwards was open before.
    pub init_telemetry-Ended :
        (s : Telemetry W T M)
        → Ended tracer_open meter_open s (init_telemetry sdk deps s).0 (init_telemetry sdk deps s).1
    unfolding init_telemetry
    init_telemetry-Ended s =
        let (resource, w1) = deps.build_resource s.outside in
        let quiet = laws.resource_quiet s.outside in
        elim (Result-cases resource) [
          | inr (e, h) ↦
              rw (h, init_telemetry)
                (refused _ refl (λ u k. sym (quiet.0 u) ∙ k, λ u k. sym (quiet.1 u) ∙ k))
          | inl (r, h) ↦
              let (exporter, w2) = deps.new_trace_exporter w1 in
              let still = laws.trace_exporter_quiet w1 in
              elim (Result-cases exporter) [
                | inr (e, k) ↦
                    rw (h, k, init_telemetry)
                      (refused _ refl (
                        λ u q. sym (quiet.0 u) ∙ sym (still.0 u) ∙ q,
                        λ u q. sym (quiet.1 u) ∙ sym (still.1 u) ∙ q,
                      ))
                | inl (x, k) ↦
                    let (t, w3) = sdk.new_tracer_provider x r w2 in
                    let made = laws.tracer_made x r w2 in
                    rw (h, k, init_telemetry)
                      (with_tracer-Ended s (record s { outside = w3 }) r t refl
                        (record {
                          open_now = made.open_now;
                          still = λ u q. made.still u (still.0 u ∙ quiet.0 u ∙ q);
                          no_other = λ u q. elim (made.no_other u q) [
                            | inl same ↦ inl same
                            | inr before ↦ inr (sym (quiet.0 u) ∙ sym (still.0 u) ∙ before)
                          ];
                          apart = λ u. made.apart u ∙ still.1 u ∙ quiet.1 u;
                        }))
              ]
        ]
