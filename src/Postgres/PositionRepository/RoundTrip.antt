-- ===== src/Postgres/PositionRepository/RoundTrip.antt =====
-- A position that was created is read back as it is stored.
use spec_star_go.Prelude.{ℕ, String, ◌≡◌, refl, sym, none, some, arith, ==_iff}
use spec_star_go.Decimal.{Decimal}
use spec_star_go.Decimal.Laws.{DecimalLaws}
use spec_star_go.Domain.Effect.{ok, ok-then}
use spec_star_go.Domain.Position.{Position}
use spec_star_go.Domain.Position.Laws.{IsValid, reconstruct_position_iff}
use spec_star_go.Ports.{Codec}
use spec_star_go.Postgres.World.{World, Sql, done}
use spec_star_go.Postgres.World.Laws.{used, statement_done}
use spec_star_go.Postgres.Statements.{find, has_position_id, select_position}
use spec_star_go.Postgres.Writes.{insert_position, assign_position, check_position}
use spec_star_go.Postgres.Writes.Laws.{find-append, insert_position_lem}
use spec_star_go.Postgres.Creates.{returning_ok}
use spec_star_go.Postgres.PositionRepository.Locking.{assign_position-ids}
use spec_star_go.Postgres.PositionRepository.{
  arguments, parsing, create_position, scan_position, find_position,
}

module _ {D : Type 0} ⦃d : Decimal D⦄ (laws : DecimalLaws D) (sql : Sql D) (codec : Codec) where
  open laws use {equal_iff}

  -- the text of a number in a column is that number
  abbrev pub ReadsNumbers : Type 0
  ReadsNumbers = (scale : ℕ) (a : D) → d.new_from_string (sql.numeric_text scale a) ≡ some a

  -- what the CHECK constraints give
  check_position-IsValid : (p : Position D) → check_position p ≡ done tt → IsValid p
  unfolding check_position
  check_position-IsValid p h = record {
    amount_nonneg = ground arith;
    unit_price_nonneg = ground arith;
    collateral_nonneg = ground arith;
    judiciary_nonneg = ground arith;
    total_derived = (equal_iff p.total_value (d.mul p.amount p.unit_price)).0 (ground arith);
  }

  parsing_reads :
      ReadsNumbers
      → (label : String) (scale : ℕ) (a : D)
      → parsing sql codec label (sql.numeric_text scale a) ≡ ok a
  parsing_reads reads label scale a = let read = reads scale a in rw (read, parsing) refl

  scan_position_valid :
      ReadsNumbers → (p : Position D) → IsValid p → scan_position sql codec p ≡ ok p
  unfolding scan_position
  scan_position_valid reads p v = ok-then _ _ (parsing_reads reads "amount" 6 p.amount) (
      ok-then _ _ (parsing_reads reads "unit_price" 8 p.unit_price) (
        ok-then _ _ (parsing_reads reads "total_value" 8 p.total_value) (
          ok-then _ _ (parsing_reads reads "collateral_value" 8 p.collateral_value) (
            ok-then _ _
              (parsing_reads reads "judiciary_collateral_value" 8 p.judiciary_collateral_value)
              ((reconstruct_position_iff laws p p).1 (refl, v))))))

  -- A position that was created is found under its identifier, while the connection holds, with the
  -- values that its columns took, and the invariant of positions holds of it, because the schema
  -- checks it too. It is assumed that a number is read from the text of its column.
  pub create_find_position :
      ReadsNumbers
      → (p : Position D) (w w' : World D) → create_position sql codec p w ≡ (ok tt, w')
      → w'.faults 0 ≡ none
      → (row : Position D) × (assign_position sql (arguments sql codec p) ≡ done row)
        × IsValid row
        × (find_position sql codec p.position_id w' ≡ (ok row, used w'))
  unfolding create_position find_position select_position arguments
  create_find_position reads p w w' h holds =
      let inserted = returning_ok (insert_position sql (arguments sql codec p)) _ w w' h in
      let (row, assigned, checked, fresh, _, _, t) =
        insert_position_lem sql w.tables w'.tables (arguments sql codec p) inserted in
      let (same, _) = assign_position-ids sql (arguments sql codec p) row assigned in
      let valid = check_position-IsValid row checked in
      let found : find (has_position_id p.position_id) w'.tables.positions ≡ some row =
        rw (t, sym same)
          (find-append (has_position_id row.position_id) w.tables.positions row fresh
            ((==_iff row.position_id row.position_id).1 refl)) in
      let run =
        statement_done (select_position p.position_id) w' row w'.tables holds (rw found refl) in
      let scanned = scan_position_valid reads row valid in
      (row, assigned, valid, rw (run, scanned) refl)
