-- ===== src/Domain/ProcessedCommand.antt =====
-- internal/domain/processed_command.go. A snapshot is the text of a JSON document.
pub mod Laws
use spec_star_go.Prelude.{ℕ, ◌==◌, String, str_eq, if◌then◌else◌}
use spec_star_go.Domain.Errors.{validation_error}
use spec_star_go.Domain.Effect.{Result, ok, err}

pub record ProcessedCommand : Type 0 where
  pub command_id : ℕ
  pub command_type : String
  pub order_id : String
  pub client_id : ℕ
  pub response_snapshot : String
  pub created_at : ℕ

-- `uuid.Nil`
abbrev pub nil_uuid : ℕ
nil_uuid = 0

unfoldable pub new_processed_command :
    (id now : ℕ) (command_type order_id : String) (client_id : ℕ) (response_snapshot : String)
    → Result ProcessedCommand
new_processed_command id now command_type order_id client_id response_snapshot =
    if str_eq command_type ""
    then err (validation_error "command_type is required")
    else if str_eq order_id ""
    then err (validation_error "order_id is required")
    else if client_id == nil_uuid
    then err (validation_error "client_id is required")
    else if str_eq response_snapshot ""
    then err (validation_error "response_snapshot is required")
    else ok (record {
      command_id = id;
      command_type = command_type;
      order_id = order_id;
      client_id = client_id;
      response_snapshot = response_snapshot;
      created_at = now;
    })

abbrev pub reconstruct_processed_command :
    (id : ℕ) (command_type order_id : String) (client_id : ℕ) (response_snapshot : String)
    (created_at : ℕ)
    → ProcessedCommand
reconstruct_processed_command id command_type order_id client_id response_snapshot created_at =
    record {
      command_id = id;
      command_type = command_type;
      order_id = order_id;
      client_id = client_id;
      response_snapshot = response_snapshot;
      created_at = created_at;
    }
