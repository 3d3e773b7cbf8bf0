-- ===== src/Postgres/Creates.antt =====
-- What the `Create` methods that succeed have written.
use spec_star_go.Prelude.{String, ◌≡◌, refl, inl, inr, arith, true, [], ◌∷◌, ◌++◌, some, eq_iff}
use spec_star_go.Decimal.{Decimal}
use spec_star_go.Domain.Errors.{Error}
use spec_star_go.Domain.Effect.{ok}
use spec_star_go.Domain.Position.{Position}
use spec_star_go.Domain.ProcessedCommand.{ProcessedCommand}
use spec_star_go.Ports.{Codec}
use spec_star_go.Postgres.World.{World, Tables, Sql, DbResult, DbError, done, statement}
use spec_star_go.Postgres.World.Laws.{statement-cases}
use spec_star_go.Postgres.Statements.{find, has_key}
use spec_star_go.Postgres.Writes.{insert_position, insert_command, assign_position}
use spec_star_go.Postgres.Writes.Laws.{
  find-append, stored_command, insert_command_lem, insert_position_lem,
}
use spec_star_go.Postgres.Repositories.{returning, create_command}
use spec_star_go.Postgres.PositionRepository.{create_position, arguments}

-- a statement that succeeded was not lost and not refused
pub returning_ok :
    {D : Type 0} (f : Tables D → DbResult (Unit {0} × Tables D)) (g : DbError → Error)
    (w w' : World D)
    → returning (λ u. u) g (statement f) w ≡ (ok tt, w')
    → f w.tables ≡ done (tt, w'.tables)
returning_ok f g w w' h = elim (statement-cases f w) [
  | inl (text, e) ↦ ground arith
  | inr (inl (b, t, run, e)) ↦ ground arith
  | inr (inr (why, refused, e)) ↦ ground arith
]

has_key_refl : (c : ProcessedCommand) → has_key c.command_type c.order_id c ≡ true
has_key_refl c =
    let kind = (eq_iff c.command_type c.command_type).1 refl in
    let order = (eq_iff c.order_id c.order_id).1 refl in rw (kind, order) refl

module _ {D : Type 0} ⦃d : Decimal D⦄ (sql : Sql D) (codec : Codec) (w w' : World D) where
  pub create_position-eq_ok :
      (p : Position D)
      → create_position sql codec p w ≡ (ok tt, w')
      → (row : Position D) × (assign_position sql (arguments sql codec p) ≡ done row)
        × (w'.tables ≡ record w.tables { positions = w.tables.positions ++ row ∷ [] })
  unfolding create_position
  create_position-eq_ok p h =
      let run = returning_ok (insert_position sql (arguments sql codec p)) _ w w' h in
      let (row, e, _, _, _, _, t) = insert_position_lem sql _ _ (arguments sql codec p) run in
      (row, e, t)

  pub create_command-eq_ok :
      (c : ProcessedCommand)
      → create_command sql codec c w ≡ (ok tt, w')
      → (snapshot : String) × (sql.jsonb c.response_snapshot ≡ done snapshot)
        × (find (has_key c.command_type c.order_id) w'.tables.processed_commands
            ≡ some (stored_command sql c snapshot))
        × (w'.tables ≡ record w.tables {
          processed_commands = w.tables.processed_commands ++ stored_command sql c snapshot ∷ [];
        })
  unfolding create_command
  create_command-eq_ok c h =
      let run = returning_ok (insert_command sql c) _ w w' h in
      let (snapshot, e, fresh, t) = insert_command_lem sql _ _ c run in
      (
        snapshot,
        e,
        rw t (find-append (has_key c.command_type c.order_id) _ _ fresh (has_key_refl c)),
        t,
      )
