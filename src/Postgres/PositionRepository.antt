-- ===== src/Postgres/PositionRepository.antt =====
-- position_repository.go of internal/adapters/outbound/postgres.
pub mod Locking
pub mod Affected
pub mod Interleaving
pub mod Lots
pub mod RoundTrip
use Prim.Native.Nat.{◌%◌, ◌^◌}
use Prim.Native.String.{◌++◌}
use spec_star_go.Prelude.{
  ℕ, ◌+◌, ◌-◌, ◌==◌, String, List, [], ◌∷◌, Option, none, some, if◌then◌else◌,
}
use spec_star_go.Decimal.{Decimal}
use spec_star_go.Domain.Errors.{Error, wrap, message, sentinel, not_found, concurrency_conflict}
use spec_star_go.Domain.Effect.{Result, ok, err, Action, ◌>>=◌}
use spec_star_go.Domain.Position.{Position, reconstruct_position}
use spec_star_go.Ports.{PositionRepository, Codec}
use spec_star_go.Postgres.World.{World, Sql, DbError, DbResult, done, fail, statement}
use spec_star_go.Postgres.Statements.{select_position, select_by_asset, select_by_instrument}
use spec_star_go.Postgres.Writes.{PositionArguments, insert_position, update_position}
use spec_star_go.Postgres.Repositories.{driver_error, is_no_rows, returning}

module _ {D : Type 0} ⦃d : Decimal D⦄ (sql : Sql D) (codec : Codec) where
  -- `decimal.NewFromString` on the text of a column
  abbrev pub parsing : (label text : String) → Result D
  parsing label text = elim (d.new_from_string text) [
    | some a ↦ ok a
    | none ↦ err (wrap ("parsing " ++ label ++ " " ++ text) (message "can't convert to decimal"))
  ]

  -- `scanPosition` and `parsePosition`: the columns as texts, parsed, and checked by
  -- `ReconstructPosition`
  unfoldable pub scan_position : Position D → Result (Position D)
  scan_position r = do
    amount ← parsing "amount" (sql.numeric_text 6 r.amount)
    unit_price ← parsing "unit_price" (sql.numeric_text 8 r.unit_price)
    total_value ← parsing "total_value" (sql.numeric_text 8 r.total_value)
    collateral_value ← parsing "collateral_value" (sql.numeric_text 8 r.collateral_value)
    judiciary_collateral_value ←
        parsing "judiciary_collateral_value" (sql.numeric_text 8 r.judiciary_collateral_value)
    reconstruct_position (record r {
      amount = amount;
      unit_price = unit_price;
      total_value = total_value;
      collateral_value = collateral_value;
      judiciary_collateral_value = judiciary_collateral_value;
    })

  -- the loop of `collectPositions`
  unfoldable pub scan_all : List (Position D) → Result (List (Position D))
  scan_all [] = ok []
  scan_all (r ∷ rest) = elim (scan_position r) [
    | err e ↦ err (wrap "scanning position row" e)
    | ok p ↦ scan_all rest >>= λ ps. ok (p ∷ ps)
  ]

  -- `collectPositions`; `rows.Err()` is one more use of the connection
  unfoldable pub collect_positions : List (Position D) → Action (World D) (List (Position D))
  unfolding scan_all
  collect_positions rows w = elim (scan_all rows) [
    | err e ↦ (err e, w)
    | ok ps ↦
        returning (λ _. ps) (λ e. wrap "iterating position rows" (driver_error e))
          (statement (λ t. done (tt, t))) w
  ]

  abbrev pub collecting : Result (List (Position D)) → Action (World D) (List (Position D))
  collecting (err e) w = (err e, w)
  collecting (ok rows) w = collect_positions rows w

  unfoldable pub find_position : ℕ → Action (World D) (Position D)
  find_position id w =
      let (r, w') = statement (select_position id) w in
      (
        elim r [
          | done row ↦ elim (scan_position row) [
            | ok p ↦ ok p
            | err e ↦ err (wrap ("querying position " ++ codec.uuid_string id) e)
          ]
          | fail e ↦
              if is_no_rows e
              then err (wrap ("position " ++ codec.uuid_string id) (sentinel not_found))
              else err (wrap ("querying position " ++ codec.uuid_string id) (driver_error e))
        ],
        w',
      )

  unfoldable pub find_by_client_and_asset :
      (client asset : ℕ) → Action (World D) (List (Position D))
  unfolding collect_positions
  find_by_client_and_asset client asset w =
      let (r, w') =
        returning (λ rows. rows)
          (λ e.
            wrap
              ("querying positions for client "
                ++ codec.uuid_string client
                ++ " asset "
                ++ codec.uuid_string asset)
              (driver_error e))
          (statement (select_by_asset client asset)) w in
      collecting r w'

  unfoldable pub find_by_client_and_instrument : ℕ → String → Action (World D) (List (Position D))
  unfolding collect_positions
  find_by_client_and_instrument client instrument w =
      let (r, w') =
        returning (λ rows. rows)
          (λ e.
            wrap
              ("querying positions for client "
                ++ codec.uuid_string client
                ++ " instrument "
                ++ instrument)
              (driver_error e))
          (statement (select_by_instrument client instrument)) w in
      collecting r w'

  -- the arguments of both statements: the decimals are sent as their `String()`
  unfoldable pub arguments : Position D → PositionArguments
  arguments p = record {
    position_id = p.position_id;
    client_id = p.client_id;
    asset_id = p.asset_id;
    amount = d.to_string p.amount;
    unit_price = d.to_string p.unit_price;
    total_value = d.to_string p.total_value;
    collateral_value = d.to_string p.collateral_value;
    judiciary_collateral_value = d.to_string p.judiciary_collateral_value;
    created_at = p.created_at;
    updated_at = p.updated_at;
    purchased_at = p.purchased_at;
    row_version = p.row_version;
  }

  unfoldable pub create_position : Position D → Action (World D) (Unit {0})
  unfolding arguments
  create_position p =
      returning (λ u. u)
        (λ e. wrap ("inserting position " ++ codec.uuid_string p.position_id) (driver_error e))
        (statement (insert_position sql (arguments p)))

  -- `position.RowVersion()-1` of an `int`
  abbrev pub previous_version : ℕ → ℕ
  previous_version v = (v + (2 ^ 64 - 1)) % 2 ^ 64

  unfoldable pub conflict_if_none : Position D → Result ℕ → Result (Unit {0})
  conflict_if_none p (err e) = err e
  conflict_if_none p (ok n) =
      if n == 0
      then err
          (wrap ("position " ++ codec.uuid_string p.position_id) (sentinel concurrency_conflict))
      else ok tt

  unfoldable pub update_one : Position D → Action (World D) (Unit {0})
  unfolding arguments conflict_if_none
  update_one p w =
      let (r, w') =
        returning (λ n. n)
          (λ e. wrap ("updating position " ++ codec.uuid_string p.position_id) (driver_error e))
          (statement (update_position sql (arguments p) (previous_version p.row_version))) w in
      (conflict_if_none p r, w')

  abbrev pub position_repository : PositionRepository (World D) D
  position_repository = record {
    find_by_id = find_position;
    find_by_client_and_asset = find_by_client_and_asset;
    find_by_client_and_instrument = find_by_client_and_instrument;
    create = create_position;
    update = update_one;
  }
