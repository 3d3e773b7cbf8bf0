-- ===== src/Domain/Position.antt =====
-- internal/domain/position.go. The new identifier and the readings of the clock come as arguments.
-- `rowVersion` is an `int`: a bit pattern of 64 bits, whose increment wraps.
pub mod Laws
pub mod Lifecycle
use Prim.Native.Nat.{◌%◌, ◌^◌}
use spec_star_go.Prelude.{ℕ, ◌+◌, ◌≡◌, Bool, true, false, String, not, if◌then◌else◌}
use spec_star_go.Decimal.{Decimal, ◌≼◌}
use spec_star_go.Domain.Errors.{validation_error}
use spec_star_go.Domain.Effect.{Result, ok, err, ◌>>=◌, ◌>>◌}

pub record Position (D : Type 0) : Type 0 where
  pub position_id : ℕ
  pub client_id : ℕ
  pub asset_id : ℕ
  pub amount : D
  pub unit_price : D
  pub total_value : D
  pub collateral_value : D
  pub judiciary_collateral_value : D
  pub created_at : ℕ
  pub updated_at : ℕ
  pub purchased_at : ℕ
  pub row_version : ℕ

abbrev pub refuse_if : Bool → String → Result (Unit {0})
refuse_if test m = if test then err (validation_error m) else ok tt

-- `p.rowVersion++`
abbrev pub next_version : ℕ → ℕ
next_version v = (v + 1) % 2 ^ 64

module _ {D : Type 0} ⦃d : Decimal D⦄ where
  abbrev pub validate_position_amounts : D → D → Result (Unit {0})
  validate_position_amounts amount unit_price = do
    refuse_if (d.is_negative amount) "amount must be non-negative"
    refuse_if (d.is_negative unit_price) "unit_price must be non-negative"

  unfoldable pub new_position :
      (id now client_id asset_id : ℕ) (amount unit_price : D) (purchased_at : ℕ)
      → Result (Position D)
  new_position id now client_id asset_id amount unit_price purchased_at = do
    validate_position_amounts amount unit_price
    ok (record {
      position_id = id;
      client_id = client_id;
      asset_id = asset_id;
      amount = amount;
      unit_price = unit_price;
      total_value = d.mul amount unit_price;
      collateral_value = d.zero;
      judiciary_collateral_value = d.zero;
      created_at = now;
      updated_at = now;
      purchased_at = purchased_at;
      row_version = 1;
    })

  -- `ReconstructPosition` on the persisted fields
  unfoldable pub reconstruct_position : Position D → Result (Position D)
  reconstruct_position p = do
    validate_position_amounts p.amount p.unit_price
    refuse_if (d.is_negative p.collateral_value) "collateral_value must be non-negative"
    refuse_if (d.is_negative p.judiciary_collateral_value)
        "judiciary_collateral_value must be non-negative"
    refuse_if (not (d.equal p.total_value (d.mul p.amount p.unit_price)))
        "total_value must equal amount × unit_price"
    ok p

  unfoldable pub available_value : Position D → D
  available_value p = d.sub (d.sub p.total_value p.collateral_value) p.judiciary_collateral_value

  unfoldable pub update_amount : (now : ℕ) → D → Position D → Result (Position D)
  update_amount now new_amount p = do
    refuse_if (d.is_negative new_amount) "amount must be non-negative"
    ok (record p {
      amount = new_amount;
      total_value = d.mul new_amount p.unit_price;
      row_version = next_version p.row_version;
      updated_at = now;
    })

  unfoldable pub update_collateral : (now : ℕ) → D → Position D → Result (Position D)
  update_collateral now collateral p = do
    refuse_if (d.is_negative collateral) "collateral_value must be non-negative"
    ok (record p {
      collateral_value = collateral;
      row_version = next_version p.row_version;
      updated_at = now;
    })

  unfoldable pub update_judiciary_collateral : (now : ℕ) → D → Position D → Result (Position D)
  update_judiciary_collateral now judiciary_collateral p = do
    refuse_if (d.is_negative judiciary_collateral) "judiciary_collateral_value must be non-negative"
    ok (record p {
      judiciary_collateral_value = judiciary_collateral;
      row_version = next_version p.row_version;
      updated_at = now;
    })
