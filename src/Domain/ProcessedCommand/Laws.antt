-- ===== src/Domain/ProcessedCommand/Laws.antt =====
-- When `NewProcessedCommand` makes a command, and which.
use spec_star_go.Prelude.{ℕ, String, ◌≡◌, ◌≢◌, ◌↔◌, ==_iff, eq_iff, arith}
use spec_star_go.Domain.Effect.{ok}
use spec_star_go.Domain.ProcessedCommand.{ProcessedCommand, nil_uuid, new_processed_command}

module _ (id now : ℕ) (command_type order_id : String) (client : ℕ) (snapshot : String) where
  -- the command of these fields
  abbrev pub command_of : ProcessedCommand
  command_of = record {
    command_id = id;
    command_type = command_type;
    order_id = order_id;
    client_id = client;
    response_snapshot = snapshot;
    created_at = now;
  }

  -- `NewProcessedCommand` returns a command exactly when the type, the order and the snapshot are
  -- not empty and the client is not the zero UUID, and the command has the fields that were given.
  pub new_processed_command_iff :
      (c : ProcessedCommand)
      → (new_processed_command id now command_type order_id client snapshot ≡ ok c) ↔ (
          (command_type ≢ "")
          × (order_id ≢ "")
          × (client ≢ nil_uuid)
          × (snapshot ≢ "")
          × (c ≡ command_of))
  unfolding new_processed_command
  new_processed_command_iff c =
      let a = eq_iff command_type "" in
      let b = eq_iff order_id "" in
      let e = eq_iff snapshot "" in
      let n = ==_iff client nil_uuid in
      (
        λ h. (
          λ q. ground arith,
          λ q. ground arith,
          λ q. ground arith,
          λ q. ground arith,
          ground arith,
        ),
        λ (p, q, r, s, t). ground arith,
      )
