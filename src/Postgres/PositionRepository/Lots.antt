-- ===== src/Postgres/PositionRepository/Lots.antt =====
-- What `FindByClientAndInstrument` gives the withdrawal.
use mathlib.Core.List.{Perm}
use spec_star_go.Prelude.{
  ℕ, String, ◌≤◌, ◌≡◌, ◌∙◌, sym, ap, subst, inl, inr, List, [], ◌∷◌, All, arith,
}
use spec_star_go.Decimal.{Decimal}
use spec_star_go.Decimal.Laws.{DecimalLaws}
use spec_star_go.Domain.Effect.{ok, Result-cases, then-eq-ok}
use spec_star_go.Domain.Position.{Position}
use spec_star_go.Domain.Position.Laws.{IsValid, reconstruct_position_iff}
use spec_star_go.Ports.{Codec}
use spec_star_go.Postgres.World.{World, Sql, done}
use spec_star_go.Postgres.World.Laws.{statement-cases}
use spec_star_go.Postgres.Statements.{
  select_all, order_by_purchased_at, is_of_instrument, select_by_instrument,
}
use spec_star_go.Postgres.Statements.Ordering.{IsOldestFirst, order-Perm, order-IsOldestFirst}
use spec_star_go.Postgres.Repositories.{returning}
use spec_star_go.Postgres.PositionRepository.{
  parsing, scan_position, scan_all, collect_positions, find_by_client_and_instrument,
}

-- what scanning keeps of a row
module _ {D : Type 0} where
  pub record SameRow (p row : Position D) : Type 0 where
    pub position_id : p.position_id ≡ row.position_id
    pub client_id : p.client_id ≡ row.client_id
    pub asset_id : p.asset_id ≡ row.asset_id
    pub purchased_at : p.purchased_at ≡ row.purchased_at
    pub row_version : p.row_version ≡ row.row_version

  -- the positions are the rows, one by one
  abbrev pub AreRows : List (Position D) → List (Position D) → Type 0
  AreRows [] [] = Unit
  AreRows (p ∷ ps) (r ∷ rs) = SameRow p r × AreRows ps rs
  AreRows _ _ = ⊥

module _ {D : Type 0} ⦃d : Decimal D⦄ (laws : DecimalLaws D) (sql : Sql D) (codec : Codec) where
  scan_position_lem :
      (row p : Position D) → scan_position sql codec row ≡ ok p → IsValid p × SameRow p row
  unfolding scan_position
  scan_position_lem row p h =
      let (a, _, h) = then-eq-ok (parsing sql codec "amount" (sql.numeric_text 6 row.amount)) _ h in
      let (b, _, h) =
        then-eq-ok (parsing sql codec "unit_price" (sql.numeric_text 8 row.unit_price)) _ h in
      let (c, _, h) =
        then-eq-ok (parsing sql codec "total_value" (sql.numeric_text 8 row.total_value)) _ h in
      let (x, _, h) =
        then-eq-ok (parsing sql codec "collateral_value" (sql.numeric_text 8 row.collateral_value))
          _ h in
      let (y, _, h) =
        then-eq-ok
          (parsing sql codec "judiciary_collateral_value"
            (sql.numeric_text 8 row.judiciary_collateral_value))
          _ h in
      let (same, valid) = (reconstruct_position_iff laws _ p).0 h in
      (
        subst IsValid same valid,
        record {
          position_id = ap (λ q. q.position_id) (sym same);
          client_id = ap (λ q. q.client_id) (sym same);
          asset_id = ap (λ q. q.asset_id) (sym same);
          purchased_at = ap (λ q. q.purchased_at) (sym same);
          row_version = ap (λ q. q.row_version) (sym same);
        },
      )

  scan_all_lem :
      (rows ps : List (Position D))
      → scan_all sql codec rows ≡ ok ps
      → All IsValid ps × AreRows ps rows
  unfolding scan_all
  scan_all_lem [] [] h = (tt, tt)
  scan_all_lem [] (p ∷ ps) h = ground arith
  scan_all_lem (r ∷ rest) [] h = elim (Result-cases (scan_position sql codec r)) [
    | inl (p, e) ↦ elim (Result-cases (scan_all sql codec rest)) [
      | inl (qs, e') ↦ ground arith
      | inr (why, e') ↦ ground arith
    ]
    | inr (why, e) ↦ ground arith
  ]
  scan_all_lem (r ∷ rest) (p ∷ ps) h = elim (Result-cases (scan_position sql codec r)) [
    | inl (q, e) ↦ elim (Result-cases (scan_all sql codec rest)) [
      | inl (qs, e') ↦
          let (valid, same) = scan_position_lem r p (ground arith) in
          let (valids, sames) = scan_all_lem rest ps (ground arith) in
          ((valid, valids), (same, sames))
      | inr (why, e') ↦ ground arith
    ]
    | inr (why, e) ↦ ground arith
  ]

module _ {D : Type 0} where
  All-AreRows :
      (t : ℕ) (ps rows : List (Position D))
      → AreRows ps rows
      → All (λ q. t ≤ q.purchased_at) rows
      → All (λ q. t ≤ q.purchased_at) ps
  All-AreRows t [] [] _ _ = tt
  All-AreRows t [] (r ∷ rs) none_of _ = absurd none_of
  All-AreRows t (p ∷ ps) [] none_of _ = absurd none_of
  All-AreRows t (p ∷ ps) (r ∷ rs) (same, rest) (le, les) =
      (rw (same.purchased_at) le, All-AreRows t ps rs rest les)

  IsOldestFirst-AreRows :
      (ps rows : List (Position D)) → AreRows ps rows → IsOldestFirst rows → IsOldestFirst ps
  IsOldestFirst-AreRows [] [] _ _ = tt
  IsOldestFirst-AreRows [] (r ∷ rs) none_of _ = absurd none_of
  IsOldestFirst-AreRows (p ∷ ps) [] none_of _ = absurd none_of
  IsOldestFirst-AreRows (p ∷ ps) (r ∷ rs) (same, rest) (before, sorted) = (
    rw (same.purchased_at) (All-AreRows r.purchased_at ps rs rest before),
    IsOldestFirst-AreRows ps rs rest sorted,
  )

module _ {D : Type 0} ⦃d : Decimal D⦄ (laws : DecimalLaws D) (sql : Sql D) (codec : Codec) where
  collect_positions-eq_ok :
      (rows ps : List (Position D)) (w w' : World D)
      → collect_positions sql codec rows w ≡ (ok ps, w')
      → (scan_all sql codec rows ≡ ok ps) × (w'.tables ≡ w.tables)
  unfolding collect_positions
  collect_positions-eq_ok rows ps w w' h = elim (Result-cases (scan_all sql codec rows)) [
    | inl (qs, e) ↦ elim (statement-cases (λ t. done (tt, t)) w) [
      | inl (text, s) ↦ ground arith
      | inr (inl (u, t, run, s)) ↦ ground arith
      | inr (inr (why, refused, s)) ↦ ground arith
    ]
    | inr (why, e) ↦ ground arith
  ]

  -- The lots of an instrument are all of the client's positions in assets of that instrument, each
  -- once and oldest purchase first; each has the identity, the version and the time of purchase of
  -- its row and satisfies the invariant of positions; and reading them changes nothing.
  pub find_by_client_and_instrument_lots :
      (client : ℕ) (instrument : String) (ps : List (Position D)) (w w' : World D)
      → find_by_client_and_instrument sql codec client instrument w ≡ (ok ps, w')
      → (rows : List (Position D)) × Perm rows
          (select_all (is_of_instrument w.tables.assets client instrument) w.tables.positions)
        × AreRows ps rows
        × All IsValid ps
        × IsOldestFirst ps
        × (w'.tables ≡ w.tables)
  unfolding find_by_client_and_instrument select_by_instrument
  find_by_client_and_instrument_lots client instrument ps w w' h =
      let chosen =
        select_all (is_of_instrument w.tables.assets client instrument) w.tables.positions in
      elim (statement-cases (select_by_instrument client instrument) w) [
        | inl (text, e) ↦ ground arith
        | inr (inl (rows, t, run, e)) ↦
            let (scanned, kept) = collect_positions-eq_ok rows ps _ w' (rw (e, returning) at h) in
            let these : rows ≡ order_by_purchased_at chosen = ground arith in
            let (valid, same) = scan_all_lem laws sql codec rows ps scanned in
            (
              rows,
              rw these (order-Perm chosen),
              same,
              valid,
              IsOldestFirst-AreRows ps rows same (rw these (order-IsOldestFirst chosen)),
              kept ∙ ground arith,
            )
        | inr (inr (why, refused, e)) ↦ ground arith
      ]
