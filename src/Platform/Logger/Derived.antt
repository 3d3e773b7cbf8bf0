-- ===== src/Platform/Logger/Derived.antt =====
-- Every logger that is derived from one with a `traceContextHandler` adds the trace identifiers.
use spec_star_go.Prelude.{String, List, [], ◌∷◌, ◌++◌, ◌≡◌, refl}
use spec_star_go.Prelude.Int.{ℤ}
use spec_star_go.Platform.Logger.{
  Attr, Span, Handler, trace_context, trace_attrs, enabled, handle, with_attrs, with_group, log,
}

-- how one logger is made from another
pub data Derivation : Type 0 where
  attrs : List Attr → Derivation
  group : String → Derivation

abbrev pub derive : List Derivation → Handler → Handler
derive [] h = h
derive (attrs a ∷ ds) h = derive ds (with_attrs a h)
derive (group name ∷ ds) h = derive ds (with_group name h)

derive-trace_context :
    (ds : List Derivation) (h : Handler) → derive ds (trace_context h) ≡ trace_context (derive ds h)
unfolding with_attrs with_group
derive-trace_context [] h = refl
derive-trace_context (attrs a ∷ ds) h = derive-trace_context ds (with_attrs a h)
derive-trace_context (group name ∷ ds) h = derive-trace_context ds (with_group name h)

-- A logger that is derived from one with the handler of trace contexts, by any sequence of `With`
-- and `WithGroup`, writes for each call what the logger derived from the inner handler writes for
-- the call with the trace and span identifiers after its own attributes, when the span is recorded
-- and valid, and for the call itself otherwise; it writes at the same levels.
pub log-derive :
    (ds : List Derivation) (h : Handler) (span : Span) (level : ℤ) (message : String)
    (own : List Attr)
    → log span level message own (derive ds (trace_context h))
      ≡ log span level message (own ++ trace_attrs span) (derive ds h)
unfolding log enabled handle
log-derive ds h span level message own = rw (derive-trace_context ds h) refl
