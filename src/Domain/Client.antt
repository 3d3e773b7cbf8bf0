-- ===== src/Domain/Client.antt =====
-- internal/domain/client.go. The new identifier and the time come as arguments.
use spec_star_go.Prelude.{ℕ, String, str_eq, if◌then◌else◌}
use spec_star_go.Domain.Errors.{validation_error}
use spec_star_go.Domain.Effect.{Result, ok, err}

pub record Client : Type 0 where
  pub client_id : ℕ
  pub external_id : String
  pub created_at : ℕ

unfoldable pub reconstruct_client : ℕ → String → ℕ → Client
reconstruct_client client_id external_id created_at = record {
  client_id = client_id;
  external_id = external_id;
  created_at = created_at;
}

unfoldable pub new_client : (id now : ℕ) → String → Result Client
new_client id now external_id =
    if str_eq external_id ""
    then err (validation_error "external_id is required")
    else ok (record { client_id = id; external_id = external_id; created_at = now })
