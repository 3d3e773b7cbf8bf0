-- ===== src/EndToEnd/Deposit/Persist.antt =====
-- What the function of a deposit's transaction has written.
use spec_star_go.Prelude.{ℕ, String, ◌≡◌, refl, [], ◌∷◌, ◌++◌, some}
use spec_star_go.Decimal.{Decimal}
use spec_star_go.Domain.Effect.{ok, bind-eq-ok}
use spec_star_go.Domain.Position.{Position}
use spec_star_go.Postgres.Writes.{assign_position}
use spec_star_go.Postgres.PositionRepository.{arguments}
use spec_star_go.Domain.ProcessedCommand.{ProcessedCommand}
use spec_star_go.Ports.{Codec, Json}
use spec_star_go.Application.Flow.{wrap_call, make_command}
use spec_star_go.Application.Deposit.{DepositResponse, command_type_deposit, persist}
use spec_star_go.Postgres.World.{World, Tables, Sql, done}
use spec_star_go.Postgres.Statements.{find, has_key}
use spec_star_go.Postgres.Transaction.{environment}
use spec_star_go.Postgres.Creates.{create_position-eq_ok}
use spec_star_go.EndToEnd.Stored.{wrap_call-eq_ok, create_command-Stored}

module _ {D : Type 0} ⦃d : Decimal D⦄ (sql : Sql D) (codec : Codec)
    (json : Json DepositResponse) where
  -- what the function of the transaction has written when it succeeds
  pub record Persisted (order_id : String) (p : Position D) (text : String) (w w' : World D)
      : Type 0 where
    pub row : Position D
    pub assigned : assign_position sql (arguments sql codec p) ≡ done row
    pub command : ProcessedCommand
    pub snapshot : sql.jsonb text ≡ done command.response_snapshot
    pub found :
        find (has_key command_type_deposit order_id) w'.tables.processed_commands ≡ some command
    pub written : w'.tables ≡ record w.tables {
      positions = w.tables.positions ++ row ∷ [];
      processed_commands = w.tables.processed_commands ++ command ∷ [];
    }

  abbrev pub appended :
      {order_id : String} {p : Position D} {text : String} {w w' : World D}
      → Persisted order_id p text w w'
      → Tables D
      → Tables D
  appended p tables = record tables {
    positions = tables.positions ++ p.row ∷ [];
    processed_commands = tables.processed_commands ++ p.command ∷ [];
  }

  pub persist-Persisted :
      (order_id : String) (p : Position D) (client : ℕ) (text : String) (w w' : World D)
      → persist (environment sql codec) codec json p order_id client text w ≡ (ok tt, w')
      → Persisted order_id p text w w'
  unfolding persist
  persist-Persisted order_id p client text w w' h =
      let (_, w1, created, rest) =
        bind-eq-ok (wrap_call "create position" ((environment sql codec).positions.create p)) _ w
          h in
      let (row, assigned, t1) = create_position-eq_ok sql codec w w1 p (
        wrap_call-eq_ok "create position" ((environment sql codec).positions.create p) w created) in
      let (cmd, w2, made, last) =
        bind-eq-ok
          (make_command (environment sql codec).system command_type_deposit order_id client text) _
          w1 rest in
      let s =
        create_command-Stored sql codec command_type_deposit order_id client text w1 w2 w' cmd made
          last in
      record {
        row = row;
        assigned = assigned;
        command = s.command;
        snapshot = s.snapshot;
        found = s.found;
        written = rw (s.written, t1) refl;
      }
