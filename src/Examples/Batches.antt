-- ===== src/Examples/Batches.antt =====
-- A batch of a FIFO queue whose second message fails for good and whose third is to be retried.
use spec_star_go.Prelude.{ℕ, ◌+◌, String, str_eq, true, ◌≡◌, refl, List, [], ◌∷◌, if◌then◌else◌}
use spec_star_go.Skills.{SqsMessage, ok, err, Action}
use spec_star_go.Skills.ErrorHandling.{
  Error, sentinel, wrap, terminal, retryable, process, record_failure, handle_batch,
}
use spec_star_go.Skills.ErrorHandling.Laws.{Batch, handle_batch-Batch}

abbrev message : String → SqsMessage
message id = record { message_id = id; event_source_arn = "arn:aws:sqs:q"; body = "{}" }

abbrev messages : List SqsMessage
messages = message "a" ∷ message "b" ∷ message "c" ∷ message "d" ∷ []

-- the outside counts the calls
abbrev execute : String → Action ℕ Error String
execute id n = (
  if str_eq id "b"
      then err (sentinel terminal)
      else if str_eq id "c"
      then err (wrap "load" (sentinel retryable))
      else ok id,
  n + 1,
)

stopped_at_c : handle_batch true execute messages 0 ≡ ("c" ∷ "d" ∷ [], 3)
unfolding handle_batch process record_failure
stopped_at_c = refl

handle_batch-Batch_example :
    Batch true execute messages 0
      (handle_batch true execute messages 0).0
      (handle_batch true execute messages 0).1
handle_batch-Batch_example = handle_batch-Batch true execute messages 0
