-- ===== src/EndToEnd/Deposit/Record.antt =====
-- A deposit that went through, and the two ways in which one ends.
use spec_star_go.Prelude.{ℕ, String, ◌≡◌, ◌≢◌, ◌⊎◌, [], ◌∷◌, ◌++◌, none, some}
use spec_star_go.Decimal.{Decimal}
use spec_star_go.Domain.Effect.{ok}
use spec_star_go.Domain.Position.{Position, new_position}
use spec_star_go.Postgres.Writes.{assign_position}
use spec_star_go.Postgres.PositionRepository.{arguments}
use spec_star_go.Domain.ProcessedCommand.{ProcessedCommand}
use spec_star_go.Ports.{Codec, Json}
use spec_star_go.Application.Flow.{Reply}
use spec_star_go.Application.Deposit.{DepositResponse, command_type_deposit, to_deposit_response}
use spec_star_go.Application.Deposit.Request.{
  DepositRequest, ValidDeposit, validate_deposit_request,
}
use spec_star_go.Postgres.World.{World, Tables, Sql, done}
use spec_star_go.Postgres.Statements.{find, has_key}
use spec_star_go.Postgres.Transaction.{environment}

module _ {D : Type 0} ⦃d : Decimal D⦄ (sql : Sql D) (codec : Codec)
    (json : Json DepositResponse) where
  -- The position is the one that `NewPosition` makes of the fields of the request, a fresh identifier
  -- and two readings of the clock.
  pub record Requested (req : DepositRequest) (p : Position D) : Type 0 where
    pub cmd : ValidDeposit D
    pub valid : validate_deposit_request codec req ≡ ok cmd
    pub id : ℕ
    pub now : ℕ
    pub purchased_at : ℕ
    pub made : new_position id now cmd.client cmd.asset cmd.quantity cmd.price purchased_at ≡ ok p

  -- The deposit went through: the requested position and one command are new, each as the database
  -- stores it, the reply shows the position, and the command is found under its order with the reply
  -- as its snapshot.
  pub record Created (req : DepositRequest) (t : Tables D) (r : Reply DepositResponse) (w : World D)
      : Type 0 where
    pub status : r.status ≡ 201
    pub no_error : r.error ≡ none
    pub position : Position D
    pub requested : Requested req position
    pub replied :
        r.response ≡ some (to_deposit_response (environment sql codec) codec json position)
    pub row : Position D
    pub assigned : assign_position sql (arguments sql codec position) ≡ done row
    pub command : ProcessedCommand
    pub text : String
    pub marshalled :
        json.marshal (to_deposit_response (environment sql codec) codec json position) ≡ ok text
    pub stored : sql.jsonb text ≡ done command.response_snapshot
    pub found :
        find (has_key command_type_deposit req.order_id) w.tables.processed_commands ≡ some command
    pub written : w.tables ≡ record t {
      positions = t.positions ++ row ∷ [];
      processed_commands = t.processed_commands ++ command ∷ [];
    }

  -- Either nothing changed, and the status is not 201, or the deposit went through.
  abbrev pub Outcome : DepositRequest → Tables D → Reply DepositResponse → World D → Type 0
  Outcome req t r w = ((r.status ≢ 201) × (w.tables ≡ t)) ⊎ Created req t r w
