-- ===== src/Postgres/Repositories.antt =====
-- client_repository.go, asset_repository.go, processed_command_repository.go and helpers.go of
-- internal/adapters/outbound/postgres.
pub mod RoundTrips
use Prim.Native.String.{◌++◌}
use spec_star_go.Prelude.{
  ℕ, String, str_eq, Bool, true, false, ◌&&◌, Option, none, some, if◌then◌else◌,
}
use spec_star_go.Decimal.{Decimal}
use spec_star_go.Domain.Errors.{Error, wrap, message, sentinel, not_found, duplicate}
use spec_star_go.Domain.Effect.{Result, ok, err, Action}
use spec_star_go.Domain.Client.{Client, reconstruct_client}
use spec_star_go.Domain.Asset.{Asset, reconstruct_asset}
use spec_star_go.Domain.ProcessedCommand.{ProcessedCommand, reconstruct_processed_command}
use spec_star_go.Ports.{ClientRepository, AssetRepository, ProcessedCommandRepository, Codec}
use spec_star_go.Postgres.World.{
  AssetRow, World, Sql, Db, DbError, no_rows, pg_error, lost, DbResult, done, fail, statement,
}
use spec_star_go.Postgres.Statements.{
  unique_violation, select_client, select_asset, select_asset_by_instrument, select_command,
}
use spec_star_go.Postgres.Writes.{insert_client, insert_asset, insert_command}

-- the driver's error as a Go error
abbrev pub driver_error : DbError → Error
driver_error no_rows = message "no rows in result set"
driver_error (pg_error code text) = message (text ++ " (SQLSTATE " ++ code ++ ")")
driver_error (lost text) = message text

-- `errors.Is(err, pgx.ErrNoRows)`
abbrev pub is_no_rows : DbError → Bool
is_no_rows no_rows = true
is_no_rows _ = false

-- `errors.As(err, &pgErr) && pgErr.Code == pgUniqueViolation`
abbrev pub is_unique_violation : DbError → Bool
is_unique_violation (pg_error code text) = str_eq code unique_violation
is_unique_violation _ = false

-- the result of a use of the connection, with its errors put into Go's
abbrev pub returning : {D A B : Type 0} → (A → B) → (DbError → Error) → Db D A → Action (World D) B
returning f g m w = let (r, w') = m w in (elim r [ done a ↦ ok (f a) | fail e ↦ err (g e) ], w')

unfoldable pub nullable_string : String → Option String
nullable_string s = if str_eq s "" then none else some s

unfoldable pub string_from_nullable : Option String → String
string_from_nullable none = ""
string_from_nullable (some s) = s

-- what `Scan` and `ReconstructAsset` make of a row
unfoldable pub scan_asset : AssetRow → Asset
unfolding string_from_nullable
scan_asset r =
    reconstruct_asset r.asset_id r.instrument_id r.product_type (string_from_nullable r.offer_id)
      r.emission_entity_id (string_from_nullable r.issuer_document_id)
      (string_from_nullable r.market_code) r.asset_name r.issuance_date r.maturity_date r.created_at

-- what `Scan` and `ReconstructProcessedCommand` make of a row
abbrev pub scan_command : ProcessedCommand → ProcessedCommand
scan_command c =
    reconstruct_processed_command c.command_id c.command_type c.order_id c.client_id
      c.response_snapshot c.created_at

-- the arguments of the INSERT for an asset
unfoldable pub asset_row : Asset → AssetRow
unfolding nullable_string
asset_row a = record {
  asset_id = a.asset_id;
  instrument_id = a.instrument_id;
  product_type = a.product_type;
  offer_id = nullable_string a.offer_id;
  emission_entity_id = a.emission_entity_id;
  issuer_document_id = nullable_string a.issuer_document_id;
  market_code = nullable_string a.market_code;
  asset_name = a.asset_name;
  issuance_date = a.issuance_date;
  maturity_date = a.maturity_date;
  created_at = a.created_at;
}

-- `%s: %w` of a missing row, `querying %s: %w` of any other error
abbrev pub lookup_error : String → DbError → Error
lookup_error label e =
    if is_no_rows e
    then wrap label (sentinel not_found)
    else wrap ("querying " ++ label) (driver_error e)

module _ {D : Type 0} ⦃d : Decimal D⦄ (sql : Sql D) (codec : Codec) where
  unfoldable pub find_client : ℕ → Action (World D) Client
  find_client id =
      returning (λ c. reconstruct_client c.client_id c.external_id c.created_at)
        (lookup_error ("client " ++ codec.uuid_string id)) (statement (select_client id))

  unfoldable pub create_client : Client → Action (World D) (Unit {0})
  create_client c =
      returning (λ u. u)
        (λ e. wrap ("inserting client " ++ codec.uuid_string c.client_id) (driver_error e))
        (statement (insert_client sql c))

  unfoldable pub find_asset : ℕ → Action (World D) Asset
  find_asset id =
      returning scan_asset (lookup_error ("asset " ++ codec.uuid_string id))
        (statement (select_asset id))

  unfoldable pub find_asset_by_instrument : String → Action (World D) Asset
  find_asset_by_instrument instrument =
      returning scan_asset (lookup_error ("asset with instrument_id " ++ instrument))
        (statement (select_asset_by_instrument instrument))

  unfoldable pub create_asset : Asset → Action (World D) (Unit {0})
  create_asset a =
      returning (λ u. u)
        (λ e. wrap ("inserting asset " ++ codec.uuid_string a.asset_id) (driver_error e))
        (statement (insert_asset sql (asset_row a)))

  abbrev pub command_label : (command_type order_id : String) → String
  command_label command_type order_id =
      "processed command (" ++ command_type ++ ", " ++ order_id ++ ")"

  unfoldable pub find_command : (command_type order_id : String) → Action (World D) ProcessedCommand
  find_command command_type order_id =
      returning scan_command (lookup_error (command_label command_type order_id))
        (statement (select_command command_type order_id))

  abbrev pub create_command_error : ProcessedCommand → DbError → Error
  create_command_error c e =
      if is_unique_violation e
      then wrap (command_label c.command_type c.order_id) (sentinel duplicate)
      else wrap ("inserting processed command " ++ codec.uuid_string c.command_id) (driver_error e)

  unfoldable pub create_command : ProcessedCommand → Action (World D) (Unit {0})
  create_command c = returning (λ u. u) (create_command_error c) (statement (insert_command sql c))

  abbrev pub client_repository : ClientRepository (World D)
  client_repository = record { find_by_id = find_client; create = create_client }

  abbrev pub asset_repository : AssetRepository (World D)
  asset_repository = record {
    find_by_id = find_asset;
    find_by_instrument_id = find_asset_by_instrument;
    create = create_asset;
  }

  abbrev pub command_repository : ProcessedCommandRepository (World D)
  command_repository = record { find_by_type_and_order_id = find_command; create = create_command }
