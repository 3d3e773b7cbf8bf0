-- ===== src/Postgres/PositionRepository/Locking.antt =====
-- Optimistic locking: what an update of a position that succeeds has done, and when one conflicts.
use Prim.Native.String.{◌++◌}
use spec_star_go.Prelude.{
  ℕ, ◌==◌, ==_iff, ◌≡◌, ◌≢◌, refl, inl, inr, false, List, [], ◌∷◌, none, arith, Bool, Bool-cases,
}
use spec_star_go.Decimal.{Decimal}
use spec_star_go.Domain.Errors.{wrap, sentinel, concurrency_conflict}
use spec_star_go.Domain.Effect.{ok, err}
use spec_star_go.Domain.Position.{Position}
use spec_star_go.Ports.{Codec}
use spec_star_go.Postgres.World.{World, Tables, Sql, done}
use spec_star_go.Postgres.World.Laws.{statement-cases, statement_done, used}
use spec_star_go.Postgres.Statements.{exists}
use spec_star_go.Postgres.Writes.{
  PositionArguments, assign_position, update_position, update_rows, is_at_version,
}
use spec_star_go.Postgres.PositionRepository.{
  update_one, arguments, previous_version, conflict_if_none,
}

module _ {D : Type 0} (new : Position D) (version : ℕ) where
  -- the rows that an update with `new` affects
  abbrev is_target : Position D → Bool
  is_target = is_at_version new.position_id version

  pub update_rows_none :
      (rows : List (Position D))
      → exists is_target rows ≡ false
      → update_rows new version rows ≡ (rows, 0)
  unfolding update_rows
  update_rows_none [] h = refl
  update_rows_none (p ∷ rest) h = ground (arith, update_rows_none rest)

module _ {D : Type 0} ⦃d : Decimal D⦄ (sql : Sql D) where
  -- an UPDATE of a version that no row has affects none
  pub update_position_none :
      (a : PositionArguments) (version : ℕ) (t : Tables D) (p : Position D)
      → assign_position sql a ≡ done p
      → exists (is_at_version p.position_id version) t.positions ≡ false
      → update_position sql a version t ≡ done (0, t)
  unfolding update_position
  update_position_none a version t p assigned gone =
      let none_left = update_rows_none p version t.positions gone in
      rw (assigned, none_left, update_position) refl

  pub assign_position-ids :
      (a : PositionArguments) (p : Position D)
      → assign_position sql a ≡ done p
      → (p.position_id ≡ a.position_id) × (p.row_version ≡ a.row_version)
  unfolding assign_position
  assign_position-ids a p h = ground arith

module _ {D : Type 0} ⦃d : Decimal D⦄ (sql : Sql D) (codec : Codec) where
  pub update_one-eq_ok :
      (p : Position D) (w w' : World D)
      → update_one sql codec p w ≡ (ok tt, w')
      → (n : ℕ) × (n ≢ 0)
        × (update_position sql
              (arguments sql codec p)
              (previous_version sql codec p.row_version)
              w.tables
            ≡ done (n, w'.tables))
  unfolding update_one conflict_if_none
  update_one-eq_ok p w w' h =
      let f =
        update_position sql (arguments sql codec p) (previous_version sql codec p.row_version) in
      elim (statement-cases f w) [
        | inl (text, e) ↦ ground arith
        | inr (inl (n, t, run, e)) ↦ elim (Bool-cases (n == 0)) [
          | inl z ↦ ground arith
          | inr z ↦ (n, λ q. ground (arith, ==_iff n 0), ground arith)
        ]
        | inr (inr (why, refused, e)) ↦ ground arith
      ]

  -- An update whose version is no longer that of the row fails with a concurrency conflict, and
  -- changes nothing, when the connection holds and the columns take the new values.
  pub update_conflict :
      (p row : Position D) (w : World D)
      → w.faults 0 ≡ none
      → assign_position sql (arguments sql codec p) ≡ done row
      → exists
          (is_at_version p.position_id (previous_version sql codec p.row_version))
          w.tables.positions
        ≡ false
      → update_one sql codec p w ≡ (
        err (wrap ("position " ++ codec.uuid_string p.position_id) (sentinel concurrency_conflict)),
        used w,
      )
  unfolding update_one conflict_if_none arguments
  update_conflict p row w holds assigned gone =
      let v = previous_version sql codec p.row_version in
      let f = update_position sql (arguments sql codec p) v in
      let (id_eq, _) = assign_position-ids sql (arguments sql codec p) row assigned in
      let none_left =
        update_position_none sql (arguments sql codec p) v w.tables row assigned (rw id_eq gone) in
      let run = statement_done f w 0 w.tables holds none_left in rw (run, conflict_if_none) refl
