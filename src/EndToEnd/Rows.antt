-- ===== src/EndToEnd/Rows.antt =====
-- The rows of the database after a withdrawal that went through.
use spec_star_go.Prelude.{
  ℕ, ◌==◌, ◌≡◌, refl, sym, ap, ◌∙◌, inl, inr, List, [], ◌∷◌, ◌++◌, map, some, Bool-cases,
}
use spec_star_go.Decimal.{Decimal}
use spec_star_go.Domain.Effect.{ok, bind-eq-ok}
use spec_star_go.Domain.Position.{Position}
use spec_star_go.Domain.ProcessedCommand.{ProcessedCommand}
use spec_star_go.Ports.{Codec, Json}
use spec_star_go.Application.Flow.{Reply, wrap_call}
use spec_star_go.Application.Withdraw.{
  WithdrawResponse, command_type_withdraw, update_all, to_withdraw_response,
}
use spec_star_go.Application.Withdraw.Request.{WithdrawRequest}
use spec_star_go.Postgres.World.{World, Tables, Sql, done}
use spec_star_go.Postgres.Statements.{find, has_key}
use spec_star_go.Postgres.Writes.{assign_position}
use spec_star_go.Postgres.Writes.Invariant.{IsWellFormed, Apart}
use spec_star_go.Postgres.PositionRepository.{update_one, arguments, previous_version}
use spec_star_go.Postgres.PositionRepository.Locking.{update_one-eq_ok}
use spec_star_go.Postgres.PositionRepository.Affected.{
  update_position-cases, replace, update_rows-replace,
}
use spec_star_go.Postgres.Transaction.{environment}
use spec_star_go.EndToEnd.Stored.{wrap_call-eq_ok}
use spec_star_go.EndToEnd.Invariant.Calls.{find_lots-tables}
use spec_star_go.EndToEnd.Withdraw.{Withdrawn}

module _ {D : Type 0} where
  abbrev pub ids : List (Position D) → List ℕ
  ids rows = map (λ p. p.position_id) rows

  -- the rows after replacing, one after the other, those with the identifiers of the new ones
  abbrev pub replace_all : List (Position D) → List (Position D) → List (Position D)
  replace_all [] rows = rows
  replace_all (new ∷ rest) rows = replace_all rest (map (replace new) rows)

module _ {D : Type 0} ⦃d : Decimal D⦄ (sql : Sql D) (codec : Codec) where
  -- the new rows are what the database makes of the lots
  abbrev pub AreAssigned : List (Position D) → List (Position D) → Type 0
  AreAssigned [] [] = Unit
  AreAssigned (lot ∷ lots) (row ∷ rows) =
      (assign_position sql (arguments sql codec lot) ≡ done row) × AreAssigned lots rows
  AreAssigned _ _ = ⊥

  abbrev with_positions : List (Position D) → Tables D → Tables D
  with_positions rows t = record t { positions = rows }

  update_one_row :
      (lot : Position D) (w w' : World D)
      → Apart (λ j i. i == j) (ids w.tables.positions)
      → update_one sql codec lot w ≡ (ok tt, w')
      → (row : Position D) × (assign_position sql (arguments sql codec lot) ≡ done row)
        × (w'.tables ≡ with_positions (map (replace row) w.tables.positions) w.tables)
  update_one_row lot w w' apart h =
      let version = previous_version sql codec lot.row_version in
      let (n, some_row, run) = update_one-eq_ok sql codec lot w w' h in
      elim (update_position-cases sql _ version n w.tables w'.tables run) [
        | inl (no_row, _) ↦ absurd (some_row no_row)
        | inr x ↦ (
          x.row,
          x.assigned,
          x.written
              ∙ ap (λ rows. with_positions rows w.tables)
                  (update_rows-replace x.row version w.tables.positions apart x.there),
        )
      ]

  pub replace-ids :
      (row : Position D) (rows : List (Position D)) → ids (map (replace row) rows) ≡ ids rows
  replace-ids row [] = refl
  replace-ids row (p ∷ rest) = elim (Bool-cases (p.position_id == row.position_id)) [
    | inl h ↦ rw h (ap (λ xs. p.position_id ∷ xs) (replace-ids row rest))
    | inr h ↦ rw h (ap (λ xs. p.position_id ∷ xs) (replace-ids row rest))
  ]

  module _ (json : Json WithdrawResponse) where
    update_all_rows :
        (lots : List (Position D)) (w w' : World D)
        → Apart (λ j i. i == j) (ids w.tables.positions)
        → update_all (environment sql codec) codec json lots w ≡ (ok tt, w')
        → (rows : List (Position D)) × AreAssigned lots rows
          × (w'.tables ≡ with_positions (replace_all rows w.tables.positions) w.tables)
    unfolding update_all
    update_all_rows [] w w' apart h = ([], tt, ap (λ x. x.1.tables) (sym h))
    update_all_rows (lot ∷ rest) w w' apart h =
        let update = (environment sql codec).positions.update in
        let (_, w1, first, others) = bind-eq-ok (wrap_call "update position" (update lot)) _ w h in
        let (row, assigned, written) =
          update_one_row lot w w1 apart (wrap_call-eq_ok "update position" (update lot) w first) in
        let still_apart : Apart (λ j i. i == j) (ids w1.tables.positions) =
          rw (written, replace-ids row w.tables.positions) apart in
        let (rows, all, end) = update_all_rows rest w1 w' still_apart others in
        (row ∷ rows, (assigned, all), end ∙ rw written refl)

    -- the tables after a withdrawal, by the affected lots of its reply
    pub record Rewritten (req : WithdrawRequest) (t : Tables D) (r : Reply WithdrawResponse)
        (w : World D) : Type 0 where
      pub affected : List (Position D)
      pub replied :
          r.response ≡ some (to_withdraw_response (environment sql codec) codec json affected)
      pub rows : List (Position D)
      pub assigned : AreAssigned affected rows
      pub command : ProcessedCommand
      pub found :
          find (has_key command_type_withdraw req.order_id) w.tables.processed_commands
          ≡ some command
      pub tables : w.tables ≡ record t {
        positions = replace_all rows t.positions;
        processed_commands = t.processed_commands ++ command ∷ [];
      }

    -- A withdrawal that went through on well-formed tables has replaced, in `positions`, the rows
    -- with the identifiers of the affected lots of its reply, each by what the columns make of its
    -- lot, has appended its command to `processed_commands`, where it is found under the order, and
    -- has changed nothing else.
    pub withdraw_rows :
        (req : WithdrawRequest) (t : Tables D) (r : Reply WithdrawResponse) (w : World D)
        → IsWellFormed t
        → Withdrawn sql codec json req t r w
        → Rewritten req t r w
    withdraw_rows req t r w well x =
        let s = x.sold in
        let found : s.after_find.tables ≡ t =
          ap (λ y. y.1.tables) (sym s.read)
          ∙ find_lots-tables sql codec x.cmd.client req.instrument_id x.begun
          ∙ x.started in
        let (rows, all, end) =
          update_all_rows s.affected _ s.after_update (rw found well.positions_apart) s.updated in
        record {
          affected = s.affected;
          replied = x.replied ∙ ap some s.response;
          rows = rows;
          assigned = all;
          command = s.command;
          found =
              ap (λ t. find (has_key command_type_withdraw req.order_id) t.processed_commands)
                x.kept
              ∙ s.found;
          tables = x.kept ∙ s.written ∙ rw (end, found) refl;
        }
