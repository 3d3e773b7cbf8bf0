-- ===== src/EndToEnd/Stored.antt =====
-- What the calls that both services make in their transaction have done when they succeed.
use spec_star_go.Prelude.{String, ℕ, ◌≡◌, ap, [], ◌∷◌, ◌++◌, some, arith, sym}
use spec_star_go.Decimal.{Decimal}
use spec_star_go.Domain.Errors.{Error}
use spec_star_go.Domain.Effect.{Result, ok, err, Action, wrapped}
use spec_star_go.Domain.ProcessedCommand.{ProcessedCommand}
use spec_star_go.Domain.ProcessedCommand.Laws.{command_of, new_processed_command_iff}
use spec_star_go.Ports.{Codec}
use spec_star_go.Application.Flow.{wrap_call, make_command}
use spec_star_go.Postgres.World.{World, Sql, done, system}
use spec_star_go.Postgres.Statements.{find, has_key}
use spec_star_go.Postgres.Writes.Laws.{stored_command}
use spec_star_go.Postgres.Creates.{create_command-eq_ok}
use spec_star_go.Postgres.Repositories.{create_command}

pub wrapped-eq_ok :
    {A : Type 0} (f : Error → Error) (r : Result A) {a : A} → wrapped f r ≡ ok a → r ≡ ok a
wrapped-eq_ok f (ok b) h = h
wrapped-eq_ok f (err e) h = ground arith

-- what a call that succeeded has returned
pub returned_eq :
    {W A : Type 0} {a b : A} {w w' : W}
    → (r s : Result A × W) → r ≡ (ok a, w)
    → s ≡ (ok b, w')
    → r ≡ s
    → (a ≡ b) × (w ≡ w')
returned_eq r s h k e = ground arith

pub wrap_call-eq_ok :
    {W A : Type 0} (prefix : String) (m : Action W A) (w : W) {w' : W} {a : A}
    → wrap_call prefix m w ≡ (ok a, w')
    → m w ≡ (ok a, w')
wrap_call-eq_ok prefix m w h =
    let inner = wrapped-eq_ok _ (m w).0 (ap (λ s. s.0) h) in ground (arith, inner)

module _ {D : Type 0} ⦃d : Decimal D⦄ (sql : Sql D) (codec : Codec) (command_type order_id : String)
    (client : ℕ) (text : String) where
  -- The command of the request is stored last: its snapshot is as the database stores the text, and
  -- it is found under its order.
  pub record Stored (w w' : World D) : Type 0 where
    pub command : ProcessedCommand
    pub snapshot : sql.jsonb text ≡ done command.response_snapshot
    pub found : find (has_key command_type order_id) w'.tables.processed_commands ≡ some command
    pub written :
        w'.tables
        ≡ record w.tables { processed_commands = w.tables.processed_commands ++ command ∷ [] }

  made :
      (w w1 : World D) (c : ProcessedCommand)
      → make_command system command_type order_id client text w ≡ (ok c, w1)
      → (c ≡ command_of (w.uuids 0) (w.times 0) command_type order_id client text)
        × (w1.tables ≡ w.tables)
  made w w1 c h =
      let cmd = wrapped-eq_ok _ _ (ap (λ s. s.0) h) in
      let (_, _, _, _, fields) =
        (new_processed_command_iff (w.uuids 0) (w.times 0) command_type order_id client text c).0
          cmd in
      (fields, ap (λ s. s.1.tables) (sym h))

  pub create_command-Stored :
      (w w1 w' : World D) (c : ProcessedCommand)
      → make_command system command_type order_id client text w ≡ (ok c, w1)
      → wrap_call "create processed command" (create_command sql codec c) w1 ≡ (ok tt, w')
      → Stored w w'
  create_command-Stored w w1 w' c h create =
      let (fields, kept) = made w w1 c h in
      let (snapshot, stored, found, t) =
        create_command-eq_ok sql codec w1 w' c
          (wrap_call-eq_ok "create processed command" (create_command sql codec c) w1 create) in
      record { command = stored_command sql c snapshot; snapshot = cc; found = cc; written = cc }
