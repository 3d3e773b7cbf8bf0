-- ===== src/Skills/ErrorHandling.antt =====
-- .github/skills/go-lambda-error-handling/examples: a use case, and its handlers for HTTP and SQS.
pub mod Laws
use Prim.Native.String.{◌++◌ as ◌++ₛ◌}
use spec_star_go.Prelude.{
  ℕ, ◌==◌, String, str_eq, Bool, true, false, List, [], ◌∷◌, ◌++◌, if◌then◌else◌,
}
use spec_star_go.Skills.{SqsMessage, Response, Result, ok, err, Action}

pub data Sentinel : Type 0 where
  invalid_input not_found conflict retryable terminal : Sentinel

-- Sentinels are compared by identity.
abbrev index : Sentinel → ℕ
index invalid_input = 0
index not_found = 1
index conflict = 2
index retryable = 3
index terminal = 4

-- `message` is any other error, and `wrap` is `fmt.Errorf("…: %w", err)`
pub data Error : Type 0 where
  sentinel : Sentinel → Error
  message : String → Error
  wrap : String → Error → Error

-- `errors.Is(err, target)`
abbrev pub is : Error → Sentinel → Bool
is (sentinel s) t = index s == index t
is (message m) t = false
is (wrap prefix e) t = is e t

unfoldable pub map_error : Error → Response
map_error e =
    if is e invalid_input
    then record { status_code = 400; headers = []; body = "{\"message\":\"invalid request\"}" }
    else if is e not_found
    then record { status_code = 404; headers = []; body = "{\"message\":\"not found\"}" }
    else if is e conflict
    then record { status_code = 409; headers = []; body = "{\"message\":\"conflict\"}" }
    else record {
      status_code = 500;
      headers = [];
      body = "{\"message\":\"internal server error\"}";
    }

-- what one message does to the failures, and whether the loop stops after it
unfoldable pub record_failure :
    (fifo : Bool) → Result Error String → (id : String) → List String → List String × Bool
record_failure fifo (ok value) id failures = (failures, false)
record_failure fifo (err e) id failures =
    if is e retryable
    then (failures ++ id ∷ [], fifo)
    else if is e terminal
    then (failures, false)
    else (failures ++ id ∷ [], fifo)

module _ {W : Type 0} where
  -- `UseCase.Execute`; `%q` puts the identifier in quotes (a text with nothing to escape)
  unfoldable pub execute : (load : String → Action W Error String) → String → Action W Error String
  execute load id w =
      if str_eq id ""
      then (err (sentinel invalid_input), w)
      else let (r, w') = load id w in
        (
          elim r [ ok value ↦ ok value | err e ↦ err (wrap ("load entity \"" ++ₛ id ++ₛ "\"") e) ],
          w',
        )

  -- `Handle` of httpapi; the text is the path parameter
  unfoldable pub handle_http : (String → Action W Error String) → String → W → Response × W
  unfolding map_error
  handle_http execute id w =
      let (r, w') = execute id w in
      (
        elim r [
          | err e ↦ map_error e
          | ok value ↦ record { status_code = 200; headers = []; body = value }
        ],
        w',
      )

  module _ (fifo : Bool) (execute : String → Action W Error String) where
    -- the loop of `Handle` of sqs
    unfoldable pub process : (stop : Bool) → List String → List SqsMessage → W → List String × W
    process stop failures [] w = (failures, w)
    process stop failures (r ∷ rest) w = elim stop [
      | true ↦ process true (failures ++ r.message_id ∷ []) rest w
      | false ↦
          let (result, w') = execute r.message_id w in
          let (failures', stop') = record_failure fifo result r.message_id failures in
          process stop' failures' rest w'
    ]

    unfoldable pub handle_batch : List SqsMessage → W → List String × W
    unfolding process
    handle_batch messages w = process false [] messages w
