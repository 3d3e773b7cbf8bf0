-- ===== src/Postgres/Writes.antt =====
-- The INSERT and UPDATE statements: the values are assigned to the columns, then the constraints of
-- migrations/001_initial_schema.sql are checked.
pub mod Laws
pub mod Checked
pub mod Invariant
use Prim.Native.Nat.{◌%◌, ◌^◌}
use spec_star_go.Prelude.{
  ℕ, ◌+◌, ◌-◌, ◌==◌, ltb, String, str_eq, Bool, true, false, not, ◌&&◌, ◌||◌, List, [], ◌∷◌, ◌++◌,
  Option, none, some, if◌then◌else◌,
}
use spec_star_go.Decimal.{Decimal}
use spec_star_go.Domain.Client.{Client}
use spec_star_go.Domain.Position.{Position}
use spec_star_go.Domain.ProductType.{contains, valid_product_types}
use spec_star_go.Domain.ProcessedCommand.{ProcessedCommand}
use spec_star_go.Postgres.World.{
  AssetRow, Tables, Sql, DbResult, done, fail, no_rows, pg_error, ◌>>=◌, ◌>>◌,
}
use spec_star_go.Postgres.Statements.{
  unique_violation, foreign_key_violation, check_violation, require, exists, has_client_id,
  has_asset_id, has_position_id, has_key,
}

-- The parameters $1, $2, … of the statements on `positions`: the decimals are texts.
pub record PositionArguments : Type 0 where
  pub position_id : ℕ
  pub client_id : ℕ
  pub asset_id : ℕ
  pub amount : String
  pub unit_price : String
  pub total_value : String
  pub collateral_value : String
  pub judiciary_collateral_value : String
  pub created_at : ℕ
  pub updated_at : ℕ
  pub purchased_at : ℕ
  pub row_version : ℕ

-- `row_version INTEGER` of an `int`: the driver refuses what 32 bits do not hold.
abbrev pub is_version : ℕ → Bool
is_version v = ltb 0 v && ltb v (2 ^ 31)

module _ {D : Type 0} where
  -- the columns that the UPDATE sets, on a row
  abbrev pub updated : Position D → Position D → Position D
  updated new old = record old {
    amount = new.amount;
    unit_price = new.unit_price;
    total_value = new.total_value;
    collateral_value = new.collateral_value;
    judiciary_collateral_value = new.judiciary_collateral_value;
    updated_at = new.updated_at;
    row_version = new.row_version;
  }

  -- WHERE position_id = $8 AND row_version = $9
  abbrev pub is_at_version : ℕ → ℕ → Position D → Bool
  is_at_version id version p = p.position_id == id && p.row_version == version

  -- the rows after the update, and how many it affected
  unfoldable pub update_rows : Position D → ℕ → List (Position D) → List (Position D) × ℕ
  update_rows new version [] = ([], 0)
  update_rows new version (p ∷ rest) =
      let (rows, n) = update_rows new version rest in
      if is_at_version new.position_id version p
      then (updated new p ∷ rows, n + 1)
      else (p ∷ rows, n)

module _ {D : Type 0} ⦃d : Decimal D⦄ where
  -- the CHECK constraints of `positions`
  unfoldable pub check_position : Position D → DbResult (Unit {0})
  check_position p = do
    require (not (d.less_than p.amount d.zero)) check_violation "amount >= 0"
    require (not (d.less_than p.unit_price d.zero)) check_violation "unit_price >= 0"
    require (not (d.less_than p.total_value d.zero)) check_violation "total_value >= 0"
    require (not (d.less_than p.collateral_value d.zero)) check_violation "collateral_value >= 0"
    require (not (d.less_than p.judiciary_collateral_value d.zero)) check_violation
        "judiciary_collateral_value >= 0"
    require (is_version p.row_version) check_violation "row_version > 0"
    require (d.equal p.total_value (d.mul p.amount p.unit_price)) check_violation
        "total_value = amount * unit_price"

module _ {D : Type 0} ⦃d : Decimal D⦄ (sql : Sql D) where
  -- INSERT INTO clients
  unfoldable pub insert_client : Client → Tables D → DbResult (Unit {0} × Tables D)
  insert_client c t = do
    require (not (exists (has_client_id c.client_id) t.clients)) unique_violation "clients_pkey"
    done (
      tt,
      record t {
        clients = t.clients ++ record c { created_at = sql.timestamptz c.created_at } ∷ [];
      },
    )

  -- INSERT INTO assets
  unfoldable pub insert_asset : AssetRow → Tables D → DbResult (Unit {0} × Tables D)
  insert_asset a t = do
    require (contains a.product_type valid_product_types) check_violation
        "assets_product_type_check"
    require (not (exists (has_asset_id a.asset_id) t.assets)) unique_violation "assets_pkey"
    done (
      tt,
      record t {
        assets =
            t.assets
            ++ record a {
              issuance_date = sql.date a.issuance_date;
              maturity_date = sql.date a.maturity_date;
              created_at = sql.timestamptz a.created_at;
            }
              ∷ [];
      },
    )

  -- the arguments, assigned to the columns
  unfoldable pub assign_position : PositionArguments → DbResult (Position D)
  assign_position a = do
    amount ← sql.numeric 18 6 a.amount
    unit_price ← sql.numeric 20 8 a.unit_price
    total_value ← sql.numeric 20 8 a.total_value
    collateral_value ← sql.numeric 20 8 a.collateral_value
    judiciary_collateral_value ← sql.numeric 20 8 a.judiciary_collateral_value
    done (record {
      position_id = a.position_id;
      client_id = a.client_id;
      asset_id = a.asset_id;
      amount = amount;
      unit_price = unit_price;
      total_value = total_value;
      collateral_value = collateral_value;
      judiciary_collateral_value = judiciary_collateral_value;
      created_at = sql.timestamptz a.created_at;
      updated_at = sql.timestamptz a.updated_at;
      purchased_at = sql.timestamptz a.purchased_at;
      row_version = a.row_version;
    })

  -- INSERT INTO positions
  unfoldable pub insert_position : PositionArguments → Tables D → DbResult (Unit {0} × Tables D)
  insert_position a t = do
    p ← assign_position a
    check_position p
    require (not (exists (has_position_id p.position_id) t.positions)) unique_violation
        "positions_pkey"
    require (exists (has_client_id p.client_id) t.clients) foreign_key_violation
        "positions_client_id_fkey"
    require (exists (has_asset_id p.asset_id) t.assets) foreign_key_violation
        "positions_asset_id_fkey"
    done (tt, record t { positions = t.positions ++ p ∷ [] })

  -- UPDATE positions SET …: the number of rows that it affected. A row that would break a
  -- constraint fails the statement.
  unfoldable pub update_position :
      PositionArguments → (version : ℕ) → Tables D → DbResult (ℕ × Tables D)
  update_position a version t = do
    p ← assign_position a
    let (rows, n) = update_rows p version t.positions
    if n == 0 then done (0, t) else (check_position p >> done (n, record t { positions = rows }))

  -- INSERT INTO processed_commands
  unfoldable pub insert_command : ProcessedCommand → Tables D → DbResult (Unit {0} × Tables D)
  insert_command c t = do
    snapshot ← sql.jsonb c.response_snapshot
    require (not (exists (λ r. r.command_id == c.command_id) t.processed_commands)) unique_violation
        "processed_commands_pkey"
    require (not (exists (has_key c.command_type c.order_id) t.processed_commands)) unique_violation
        "idx_processed_commands_type_order"
    done (
      tt,
      record t {
        processed_commands =
            t.processed_commands
            ++ record c { response_snapshot = snapshot; created_at = sql.timestamptz c.created_at }
              ∷ [];
      },
    )
