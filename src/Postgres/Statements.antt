-- ===== src/Postgres/Statements.antt =====
-- What the SQL statements of the repositories do to the tables, with the constraints of
-- migrations/001_initial_schema.sql.
pub mod Ordering
use spec_star_go.Prelude.{
  ℕ, zero, suc, ◌+◌, ◌==◌, ltb, leb, String, str_eq, Bool, true, false, not, ◌&&◌, ◌||◌, List, [],
  ◌∷◌, ◌++◌, Option, none, some, if◌then◌else◌,
}
use spec_star_go.Decimal.{Decimal}
use spec_star_go.Domain.Client.{Client}
use spec_star_go.Domain.Position.{Position}
use spec_star_go.Domain.ProductType.{contains, valid_product_types}
use spec_star_go.Domain.ProcessedCommand.{ProcessedCommand}
use spec_star_go.Postgres.World.{
  AssetRow, Tables, Sql, DbResult, done, fail, no_rows, pg_error, ◌>>=◌, ◌>>◌,
}

abbrev pub unique_violation : String
unique_violation = "23505"

abbrev pub foreign_key_violation : String
foreign_key_violation = "23503"

abbrev pub check_violation : String
check_violation = "23514"

abbrev pub require : Bool → (code text : String) → DbResult (Unit {0})
require test code text = if test then done tt else fail (pg_error code text)

-- the first row that the condition selects
abbrev pub find {ℓ} : {A : Type ℓ} → (A → Bool) → List A → Option A
find p [] = none
find p (x ∷ xs) = if p x then some x else find p xs

abbrev pub select_all {ℓ} : {A : Type ℓ} → (A → Bool) → List A → List A
select_all p [] = []
select_all p (x ∷ xs) = let rest = select_all p xs in if p x then x ∷ rest else rest

abbrev pub exists {ℓ} : {A : Type ℓ} → (A → Bool) → List A → Bool
exists p [] = false
exists p (x ∷ xs) = p x || exists p xs

-- `QueryRow` of a condition that selects at most one row
abbrev pub query_row : {A T : Type 0} → Option A → T → DbResult (A × T)
query_row none t = fail no_rows
query_row (some a) t = done (a, t)

abbrev pub has_client_id : ℕ → Client → Bool
has_client_id id c = c.client_id == id

abbrev pub has_asset_id : ℕ → AssetRow → Bool
has_asset_id id a = a.asset_id == id

abbrev pub has_key : (command_type order_id : String) → ProcessedCommand → Bool
has_key command_type order_id c = str_eq c.command_type command_type && str_eq c.order_id order_id

module _ {D : Type 0} where
  abbrev pub has_position_id : ℕ → Position D → Bool
  has_position_id id p = p.position_id == id

  -- SELECT … FROM clients WHERE client_id = $1
  unfoldable pub select_client : ℕ → Tables D → DbResult (Client × Tables D)
  select_client id t = query_row (find (has_client_id id) t.clients) t

  -- SELECT … FROM assets WHERE asset_id = $1, and WHERE instrument_id = $1
  unfoldable pub select_asset : ℕ → Tables D → DbResult (AssetRow × Tables D)
  select_asset id t = query_row (find (has_asset_id id) t.assets) t

  unfoldable pub select_asset_by_instrument : String → Tables D → DbResult (AssetRow × Tables D)
  select_asset_by_instrument instrument t =
      query_row (find (λ a. str_eq a.instrument_id instrument) t.assets) t

  -- SELECT … FROM processed_commands WHERE command_type = $1 AND order_id = $2
  unfoldable pub select_command :
      (command_type order_id : String) → Tables D → DbResult (ProcessedCommand × Tables D)
  select_command command_type order_id t =
      query_row (find (has_key command_type order_id) t.processed_commands) t

  -- SELECT … FROM positions WHERE position_id = $1
  unfoldable pub select_position : ℕ → Tables D → DbResult (Position D × Tables D)
  select_position id t = query_row (find (has_position_id id) t.positions) t

  -- SELECT … FROM positions WHERE client_id = $1 AND asset_id = $2
  unfoldable pub select_by_asset :
      (client asset : ℕ) → Tables D → DbResult (List (Position D) × Tables D)
  select_by_asset client asset t =
      done (select_all (λ p. p.client_id == client && p.asset_id == asset) t.positions, t)

  -- ORDER BY purchased_at ASC
  unfoldable pub insert_ordered : Position D → List (Position D) → List (Position D)
  insert_ordered p [] = p ∷ []
  insert_ordered p (q ∷ rest) =
      if ltb q.purchased_at p.purchased_at then q ∷ insert_ordered p rest else p ∷ q ∷ rest

  unfoldable pub order_by_purchased_at : List (Position D) → List (Position D)
  order_by_purchased_at [] = []
  order_by_purchased_at (p ∷ rest) = insert_ordered p (order_by_purchased_at rest)

  -- the condition of the join: the asset of the position has that instrument
  unfoldable pub is_of_instrument : List AssetRow → ℕ → String → Position D → Bool
  is_of_instrument assets client instrument p =
      p.client_id == client
      && exists (λ a. a.asset_id == p.asset_id && str_eq a.instrument_id instrument) assets

  -- SELECT … FROM positions p JOIN assets a ON p.asset_id = a.asset_id
  -- WHERE p.client_id = $1 AND a.instrument_id = $2 ORDER BY p.purchased_at ASC
  unfoldable pub select_by_instrument :
      ℕ → String → Tables D → DbResult (List (Position D) × Tables D)
  select_by_instrument client instrument t = done (
    order_by_purchased_at (select_all (is_of_instrument t.assets client instrument) t.positions),
    t,
  )
