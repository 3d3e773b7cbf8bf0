-- ===== src/Postgres/Writes/Checked.antt =====
-- The CHECK constraints of `positions`, as facts about a row.
use Prim.Native.Nat.{◌^◌}
use spec_star_go.Prelude.{◌<◌, ◌≡◌, true, arith}
use spec_star_go.Decimal.{Decimal, ◌≼◌}
use spec_star_go.Domain.Position.{Position}
use spec_star_go.Postgres.World.{done}
use spec_star_go.Postgres.Writes.{check_position, updated}

module _ {D : Type 0} ⦃d : Decimal D⦄ where
  -- What the CHECK constraints of the schema say of a row of `positions`; a version is an INTEGER.
  pub record IsChecked (p : Position D) : Type 0 where
    pub amount_nonneg : d.zero ≼ p.amount
    pub unit_price_nonneg : d.zero ≼ p.unit_price
    pub total_nonneg : d.zero ≼ p.total_value
    pub collateral_nonneg : d.zero ≼ p.collateral_value
    pub judiciary_nonneg : d.zero ≼ p.judiciary_collateral_value
    pub version_positive : 0 < p.row_version
    pub version_bounded : p.row_version < 2 ^ 31
    pub total_derived : d.equal p.total_value (d.mul p.amount p.unit_price) ≡ true

  pub check_position-IsChecked : (p : Position D) → check_position p ≡ done tt → IsChecked p
  unfolding check_position
  check_position-IsChecked p h = record {
    amount_nonneg = ground arith;
    unit_price_nonneg = ground arith;
    total_nonneg = ground arith;
    collateral_nonneg = ground arith;
    judiciary_nonneg = ground arith;
    version_positive = ground arith;
    version_bounded = ground arith;
    total_derived = ground arith;
  }

  -- an UPDATE sets all the columns that the constraints speak of
  pub updated-IsChecked : (new old : Position D) → IsChecked new → IsChecked (updated new old)
  updated-IsChecked new old c = record {
    amount_nonneg = c.amount_nonneg;
    unit_price_nonneg = c.unit_price_nonneg;
    total_nonneg = c.total_nonneg;
    collateral_nonneg = c.collateral_nonneg;
    judiciary_nonneg = c.judiciary_nonneg;
    version_positive = c.version_positive;
    version_bounded = c.version_bounded;
    total_derived = c.total_derived;
  }
