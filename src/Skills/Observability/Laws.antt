-- ===== src/Skills/Observability/Laws.antt =====
-- What a batch counts.
use spec_star_go.Prelude.{
  ℕ, ◌+◌, length, length-append, String, ◌≡◌, refl, ◌∙◌, List, [], ◌∷◌, ◌++◌, arith,
}
use spec_star_go.Skills.{SqsMessage, Result, ok, err, Action}
use spec_star_go.Skills.Observability.{
  Event, started, attributes, recorded_error, status, ended, duration, failure, show_message,
  handle_messages, handle_batch,
}

-- the failures that were counted, and the messages whose duration was recorded
abbrev pub failures_counted : List Event → ℕ
failures_counted [] = 0
failures_counted (failure attrs ∷ es) = failures_counted es + 1
failures_counted (started name ∷ es) = failures_counted es
failures_counted (attributes attrs ∷ es) = failures_counted es
failures_counted (recorded_error e ∷ es) = failures_counted es
failures_counted (status code text ∷ es) = failures_counted es
failures_counted (ended ∷ es) = failures_counted es
failures_counted (duration n attrs ∷ es) = failures_counted es

failures_counted-append :
    (es fs : List Event) → failures_counted (es ++ fs) ≡ failures_counted es + failures_counted fs
failures_counted-append [] fs = omega arith
failures_counted-append (failure attrs ∷ es) fs = omega (arith, failures_counted-append es fs)
failures_counted-append (started name ∷ es) fs = failures_counted-append es fs
failures_counted-append (attributes attrs ∷ es) fs = failures_counted-append es fs
failures_counted-append (recorded_error e ∷ es) fs = failures_counted-append es fs
failures_counted-append (status code text ∷ es) fs = failures_counted-append es fs
failures_counted-append (ended ∷ es) fs = failures_counted-append es fs
failures_counted-append (duration n attrs ∷ es) fs = failures_counted-append es fs

abbrev with_failure : Result String (Unit {0}) → String → List String → List String
with_failure result id failures = elim result [ err e ↦ failures ++ id ∷ [] | ok _ ↦ failures ]

module _ {W : Type 0} (handle : String → Action W String (Unit {0})) where
  one_message :
      (r : SqsMessage) (elapsed : ℕ) (result : Result String (Unit {0})) (failures : List String)
      → length (with_failure result r.message_id failures)
        ≡ length failures + failures_counted (show_message handle r elapsed result)
  unfolding show_message
  one_message r elapsed (ok _) failures = omega arith
  one_message r elapsed (err e) failures = length-append failures (r.message_id ∷ []) ∙ omega arith

  handle_messages-failures :
      (clock : ℕ → ℕ) (failures : List String) (events : List Event) (messages : List SqsMessage)
      (w : W)
      → length failures ≡ failures_counted events
      → let (fs, es, w') = handle_messages handle clock failures events messages w in
        length fs ≡ failures_counted es
  unfolding handle_messages
  handle_messages-failures clock failures events [] w h =
      omega (arith, h, failures_counted-append events (ended ∷ []))
  handle_messages-failures clock failures events (r ∷ rest) w h =
      let (result, w') = handle r.body w in
      handle_messages-failures (λ i. clock (i + 1)) _ _ rest w'
        (omega (
          arith,
          h,
          one_message r (clock 0) result failures,
          failures_counted-append events (show_message handle r (clock 0) result),
        ))

  -- A batch counts as many failures as it reports messages.
  pub handle_batch-failures :
      (clock : ℕ → ℕ) (messages : List SqsMessage) (w : W)
      → let (fs, es, w') = handle_batch handle clock messages w in length fs ≡ failures_counted es
  unfolding handle_batch
  handle_batch-failures clock messages w =
      handle_messages-failures clock [] (started "sqs process batch" ∷ []) messages w refl
