-- ===== src/Skills/ErrorHandling/Laws.antt =====
-- Which messages of a batch are reported as failures, and which are executed.
use spec_star_go.Prelude.{
  String, Bool, true, false, ◌≡◌, refl, sym, ap, ◌∙◌, subst, inl, inr, List, [], ◌∷◌, ◌++◌, map,
  arith, Bool-cases, if◌then◌else◌,
}
use mathlib.Core.List.{append_assoc, append-nil}
use spec_star_go.Skills.{SqsMessage, Result, ok, err, Action}
use spec_star_go.Skills.ErrorHandling.{
  Error, is, retryable, terminal, record_failure, process, handle_batch,
}

-- A message is settled when it was processed, or failed for good.
abbrev pub is_settled : Result Error String → Bool
is_settled (ok value) = true
is_settled (err e) = if is e retryable then false else is e terminal

abbrev ids : List SqsMessage → List String
ids = map (λ r. r.message_id)

record_failure_settled :
    (fifo : Bool) (r : Result Error String) (id : String) (failures : List String)
    → is_settled r ≡ true
    → record_failure fifo r id failures ≡ (failures, false)
unfolding record_failure
record_failure_settled fifo (ok value) id failures h = refl
record_failure_settled fifo (err e) id failures h = ground arith

record_failure_unsettled :
    (fifo : Bool) (r : Result Error String) (id : String) (failures : List String)
    → is_settled r ≡ false
    → record_failure fifo r id failures ≡ (failures ++ id ∷ [], fifo)
unfolding record_failure
record_failure_unsettled fifo (ok value) id failures h = absurd (cc)
record_failure_unsettled fifo (err e) id failures h = ground arith

module _ {W : Type 0} (fifo : Bool) (execute : String → Action W Error String) where
  -- The messages are executed in order on the outside; a settled one is not reported, another one
  -- is; in a FIFO queue that one is the last to be executed, and all that follow are reported.
  pub data Batch : List SqsMessage → W → List String → W → Type 0 where
    finished : {w : W} → Batch [] w [] w
    settled :
        {r : SqsMessage} {rest : List SqsMessage} {w w' : W} {failures : List String}
        → is_settled (execute r.message_id w).0 ≡ true
        → Batch rest (execute r.message_id w).1 failures w'
        → Batch (r ∷ rest) w failures w'
    reported :
        {r : SqsMessage} {rest : List SqsMessage} {w w' : W} {failures : List String}
        → fifo ≡ false
        → is_settled (execute r.message_id w).0 ≡ false
        → Batch rest (execute r.message_id w).1 failures w'
        → Batch (r ∷ rest) w (r.message_id ∷ failures) w'
    stopped :
        {r : SqsMessage} {rest : List SqsMessage} {w : W}
        → fifo ≡ true
        → is_settled (execute r.message_id w).0 ≡ false
        → Batch (r ∷ rest) w (ids (r ∷ rest)) (execute r.message_id w).1

  process_stopped :
      (failures : List String) (messages : List SqsMessage) (w : W)
      → process fifo execute true failures messages w ≡ (failures ++ ids messages, w)
  unfolding process
  process_stopped failures [] w = ap (λ fs. (fs, w)) (sym (append-nil failures))
  process_stopped failures (r ∷ rest) w =
      process_stopped (failures ++ r.message_id ∷ []) rest w
      ∙ ap (λ fs. (fs, w)) (append_assoc failures (r.message_id ∷ []) (ids rest))

  process-Batch :
      (failures : List String) (messages : List SqsMessage) (w : W)
      → (fs : List String) × (w' : W) × (process fifo execute false failures messages w
          ≡ (failures ++ fs, w'))
        × Batch messages w fs w'
  unfolding process
  process-Batch failures [] w = ([], w, ap (λ fs. (fs, w)) (sym (append-nil failures)), finished)
  process-Batch failures (r ∷ rest) w =
      let (result, w1) = execute r.message_id w in
      elim (Bool-cases (is_settled result)) [
        | inl done ↦
            let (fs, w', run, batch) = process-Batch failures rest w1 in
            let same = record_failure_settled fifo result r.message_id failures done in
            (fs, w', rw same run, settled done batch)
        | inr open_still ↦
            let more = record_failure_unsettled fifo result r.message_id failures open_still in
            elim (Bool-cases fifo) [
              | inr standard ↦
                  let (fs, w', run, batch) =
                    process-Batch (failures ++ r.message_id ∷ []) rest w1 in
                  (
                    r.message_id ∷ fs,
                    w',
                    rw more (
                        ap
                          (λ stop.
                            process fifo execute stop (failures ++ r.message_id ∷ []) rest w1)
                          standard
                        ∙ run
                        ∙ ap (λ xs. (xs, w')) (append_assoc failures (r.message_id ∷ []) fs)),
                    reported standard open_still batch,
                  )
              | inl ordered ↦ (
                ids (r ∷ rest),
                w1,
                rw more (
                    ap (λ stop. process fifo execute stop (failures ++ r.message_id ∷ []) rest w1)
                      ordered
                    ∙ process_stopped (failures ++ r.message_id ∷ []) rest w1
                    ∙ ap (λ xs. (xs, w1)) (append_assoc failures (r.message_id ∷ []) (ids rest))),
                stopped ordered open_still,
              )
            ]
      ]

  -- The batch handler executes the messages in order. Without FIFO it executes each message once and
  -- reports exactly those that were neither processed nor failed for good. With FIFO it stops
  -- executing at the first such message and reports it with every message after it, so that none
  -- overtakes it; the messages before it are settled and are not reported. A message that failed
  -- for good does not stop the batch, with FIFO neither, and is not reported.
  pub handle_batch-Batch :
      (messages : List SqsMessage) (w : W)
      → Batch messages w
          (handle_batch fifo execute messages w).0
          (handle_batch fifo execute messages w).1
  unfolding handle_batch
  handle_batch-Batch messages w =
      let (fs, w', run, batch) = process-Batch [] messages w in
      subst (λ r. Batch messages w r.0 r.1) (sym run) batch
