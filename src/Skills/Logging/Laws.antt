-- ===== src/Skills/Logging/Laws.antt =====
-- A batch logs one line for each message that it reports, and a summary.
use spec_star_go.Prelude.{
  ℕ, ◌+◌, ltb, length, length-append, String, true, ◌≡◌, refl, ◌∙◌, inl, inr, List, [], ◌∷◌, arith,
  Bool-cases,
}
use spec_star_go.Prelude.Int.{ℤ, pos}
use spec_star_go.Platform.Logger.{
  Attr, number, Span, Logger, Handler, json, trace_context, enabled, with_attrs, log,
}
use spec_star_go.Skills.{SqsMessage, Result, ok, err, Action}
use spec_star_go.Skills.Logging.{Progress, report, process_all, handle_batch}

enabled-with_attrs :
    (level : ℤ) (attrs : List Attr) (h : Handler)
    → enabled level (with_attrs attrs h) ≡ enabled level h
unfolding enabled with_attrs
enabled-with_attrs level attrs (json h) = refl
enabled-with_attrs level attrs (trace_context inner) = enabled-with_attrs level attrs inner

log_one :
    (span : Span) (level : ℤ) (message : String) (own attrs : List Attr) (logger : Logger)
    → enabled level logger ≡ true
    → length (log span level message own (with_attrs attrs logger)) ≡ 1
unfolding log
log_one span level message own attrs logger h = rw (enabled-with_attrs level attrs logger ∙ h) refl

module _ {W : Type 0} (process : SqsMessage → Action W String (Unit {0})) (logger : Logger)
    (errors : enabled (pos 8) logger ≡ true) where
  -- as many lines as failures
  abbrev IsReported : Progress → Type 0
  IsReported p = length p.written ≡ length p.failures

  report-IsReported :
      (r : SqsMessage) (result : Result String (Unit {0})) (p : Progress)
      → IsReported p
      → IsReported (report logger r result p)
  unfolding report
  report-IsReported r (ok _) p h = h
  report-IsReported r (err e) p h =
      length-append p.written _
      ∙ omega (
        arith,
        h,
        log_one _ (pos 8) "message processing failed" _ _ logger errors,
        length-append p.failures (r.message_id ∷ []),
      )

  process_all-IsReported :
      (messages : List SqsMessage) (p : Progress) (w : W)
      → IsReported p
      → IsReported (process_all process logger messages p w).0
  unfolding process_all
  process_all-IsReported [] p w h = h
  process_all-IsReported (r ∷ rest) p w h =
      process_all-IsReported rest _ _ (report-IsReported r _ p h)

enabled_mono : (n : ℕ) (h : Handler) → enabled (pos 0) h ≡ true → enabled (pos n) h ≡ true
unfolding enabled
enabled_mono n (json h) e = ground arith
enabled_mono n (trace_context inner) e = enabled_mono n inner e

module _ {W : Type 0} (process : SqsMessage → Action W String (Unit {0})) where
  -- Where informational lines are written, a batch writes one line for each message that it reports
  -- and one summary.
  pub handle_batch-lines :
      (logger : Logger) (messages : List SqsMessage) (w : W)
      → enabled (pos 0) logger ≡ true
      → let (p, w') = handle_batch process logger messages w in
        length p.written ≡ length p.failures + 1
  unfolding handle_batch
  handle_batch-lines logger messages w info =
      let size = number "batch_size" (length messages) ∷ [] in
      let base = with_attrs size logger in
      let start : Progress = record { failures = []; written = [] } in
      let (p, w') = process_all process base messages start w in
      let errors = enabled-with_attrs (pos 8) size logger ∙ enabled_mono 8 logger info in
      let reported = process_all-IsReported process base errors messages start w refl in
      elim (Bool-cases (ltb 0 (length p.failures))) [
        | inl some_failed ↦ rw some_failed (
            length-append p.written _
            ∙ omega (
              arith,
              reported,
              log_one _ (pos 4) "batch completed with failures" _ size logger
                  (enabled_mono 4 logger info),
            ))
        | inr all_done ↦ rw all_done (
            length-append p.written _
            ∙ omega (arith, reported, log_one _ (pos 0) "batch completed" _ size logger info))
      ]
