-- ===== src/Examples/Fixtures.antt =====
-- The data of the examples: a client with two lots of one asset, and the services' surroundings.
use spec_star_go.Prelude.{arith, ℕ, ◌==◌, str_eq, refl, none, some, [], ◌∷◌, if◌then◌else◌}
use spec_star_go.Prelude.Int.{ℤ, pos, ◌*ℤ◌}
use spec_star_go.Decimal.Whole.{whole}
use spec_star_go.Decimal.Whole.Text.{read_whole, print_whole}
use spec_star_go.Domain.Client.{Client}
use spec_star_go.Domain.Asset.{Asset}
use spec_star_go.Domain.Position.{Position}
use spec_star_go.Domain.ProcessedCommand.{ProcessedCommand}
use spec_star_go.Ports.{Codec}
use spec_star_go.Postgres.Writes.Invariant.{IsWellFormed}
use spec_star_go.Postgres.World.{AssetRow, Tables, World, Sql, done, fail, pg_error}

-- identifiers are written as "u1", "u2" and so on
abbrev pub codec : Codec
codec = record {
  parse_uuid = λ s. if str_eq s "u1" then some 1 else if str_eq s "u2" then some 2 else none;
  uuid_string = λ n. if n == 1 then "u1" else if n == 2 then "u2" else "u3";
  format_rfc3339 = λ n. "2024-05-01T00:00:00Z";
}

-- every whole number fits its column, and documents are stored as they are
abbrev pub sql : Sql ℤ
sql = record {
  numeric = λ precision scale s. elim (read_whole s) [
    | some a ↦ done a
    | none ↦ fail (pg_error "22P02" "invalid input syntax")
  ];
  numeric_text = λ scale a. print_whole a;
  timestamptz = λ t. t;
  date = λ t. t;
  jsonb = λ s. done s;
}

-- a lot of units at the price 10, bought at some time
abbrev pub lot : (id units value bought : ℕ) → Position ℤ
lot id units value bought = record {
  position_id = id;
  client_id = 1;
  asset_id = 2;
  amount = pos units;
  unit_price = pos 10;
  total_value = pos value;
  collateral_value = pos 0;
  judiciary_collateral_value = pos 0;
  created_at = bought;
  updated_at = bought;
  purchased_at = bought;
  row_version = 1;
}

abbrev pub first_lot : Position ℤ
first_lot = lot 5 2 20 100

abbrev pub second_lot : Position ℤ
second_lot = lot 6 3 30 200

abbrev pub client : Client
client = record { client_id = 1; external_id = "external"; created_at = 50 }

abbrev pub asset : Asset
asset = record {
  asset_id = 2;
  instrument_id = "CDB-1";
  product_type = "CDB";
  offer_id = "";
  emission_entity_id = "entity";
  issuer_document_id = "";
  market_code = "";
  asset_name = "A deposit certificate";
  issuance_date = 10;
  maturity_date = 900;
  created_at = 60;
}

abbrev pub asset_row : AssetRow
asset_row = record {
  asset_id = 2;
  instrument_id = "CDB-1";
  product_type = "CDB";
  offer_id = none;
  emission_entity_id = "entity";
  issuer_document_id = none;
  market_code = none;
  asset_name = "A deposit certificate";
  issuance_date = 10;
  maturity_date = 900;
  created_at = 60;
}

-- the second lot stands in front of the first
abbrev pub tables : Tables ℤ
tables = record {
  clients = client ∷ [];
  assets = asset_row ∷ [];
  positions = second_lot ∷ first_lot ∷ [];
  processed_commands = [];
}

-- no use of the connection fails
abbrev pub world : World ℤ
world = record { tables = tables; faults = λ i. none; uuids = λ i. 3; times = λ i. 300 }

abbrev pub command : ProcessedCommand
command = record {
  command_id = 9;
  command_type = "DEPOSIT";
  order_id = "order";
  client_id = 1;
  response_snapshot = "{}";
  created_at = 300;
}

-- the tables satisfy the constraints of the schema
pub well_formed : IsWellFormed tables
unfolding ◌*ℤ◌
well_formed = record {
  positions_stored = (
    record {
      checked = record {
        amount_nonneg = refl;
        unit_price_nonneg = refl;
        total_nonneg = refl;
        collateral_nonneg = refl;
        judiciary_nonneg = refl;
        version_positive = omega arith;
        version_bounded = omega arith;
        total_derived = refl;
      };
      client = refl;
      asset = refl;
    },
    (
      record {
        checked = record {
          amount_nonneg = refl;
          unit_price_nonneg = refl;
          total_nonneg = refl;
          collateral_nonneg = refl;
          judiciary_nonneg = refl;
          version_positive = omega arith;
          version_bounded = omega arith;
          total_derived = refl;
        };
        client = refl;
        asset = refl;
      },
      tt,
    ),
  );
  positions_apart = ((refl, tt), (tt, tt));
  commands_apart = tt;
}
