-- ===== src/Skills.antt =====
-- .github/skills: the examples that show how handlers of Lambda events are written in this repository.
pub mod ErrorHandling
pub mod Logging
pub mod Orders
pub mod Observability
use spec_star_go.Prelude.{ℕ, String, List}

-- `events.SQSMessage`, what the handlers read of it
pub record SqsMessage : Type 0 where
  pub message_id : String
  pub event_source_arn : String
  pub body : String

-- `events.APIGatewayV2HTTPResponse`
pub record Response : Type 0 where
  pub status_code : ℕ
  pub headers : List (String × String)
  pub body : String

-- a call with its effect on the outside, which gives a value or an error
pub data Result (E A : Type 0) : Type 0 where
  ok : A → Result E A
  err : E → Result E A

abbrev pub Action : Type 0 → Type 0 → Type 0 → Type 0
Action W E A = W → Result E A × W
