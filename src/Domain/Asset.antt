-- ===== src/Domain/Asset.antt =====
-- internal/domain/asset.go. A time is a number of nanoseconds since the zero time of Go.
pub mod Laws
use spec_star_go.Prelude.{ℕ, ◌≡◌, Bool, ◌||◌, ◌==◌, String, str_eq, if◌then◌else◌}
use spec_star_go.Domain.Errors.{Error, validation_error}
use spec_star_go.Domain.Effect.{Result, ok, err, ◌>>=◌, ◌>>◌}
use spec_star_go.Domain.ProductType.{validate_product_type}

pub record Asset : Type 0 where
  pub asset_id : ℕ
  pub instrument_id : String
  pub product_type : String
  pub offer_id : String
  pub emission_entity_id : String
  pub issuer_document_id : String
  pub market_code : String
  pub asset_name : String
  pub issuance_date : ℕ
  pub maturity_date : ℕ
  pub created_at : ℕ

abbrev required : Bool → String → Result (Unit {0})
required missing m = if missing then err (validation_error m) else ok tt

unfoldable pub validate_asset_fields :
    (instrument_id product_type emission_entity_id asset_name : String) (issuance maturity : ℕ)
    → Result (Unit {0})
validate_asset_fields instrument_id product_type emission_entity_id asset_name issuance maturity =
    do
      required (str_eq instrument_id "") "instrument_id is required"
      validate_product_type product_type
      required (str_eq emission_entity_id "") "emission_entity_id is required"
      required (str_eq asset_name "") "asset_name is required"
      required (issuance == 0) "issuance_date is required"
      required (maturity == 0) "maturity_date is required"

unfoldable pub new_asset :
    (id now : ℕ)
    (instrument_id product_type offer_id emission_entity_id issuer_document_id market_code : String)
    (asset_name : String) (issuance_date maturity_date : ℕ)
    → Result Asset
new_asset id now instrument_id product_type offer_id emission_entity_id issuer_document_id
      market_code asset_name issuance_date maturity_date =
    do
      validate_asset_fields instrument_id product_type emission_entity_id asset_name issuance_date
          maturity_date
      ok (record {
        asset_id = id;
        instrument_id = instrument_id;
        product_type = product_type;
        offer_id = offer_id;
        emission_entity_id = emission_entity_id;
        issuer_document_id = issuer_document_id;
        market_code = market_code;
        asset_name = asset_name;
        issuance_date = issuance_date;
        maturity_date = maturity_date;
        created_at = now;
      })

abbrev pub reconstruct_asset :
    (id : ℕ)
    (instrument_id product_type offer_id emission_entity_id issuer_document_id market_code : String)
    (asset_name : String) (issuance_date maturity_date created_at : ℕ)
    → Asset
reconstruct_asset id instrument_id product_type offer_id emission_entity_id issuer_document_id
      market_code asset_name issuance_date maturity_date created_at =
    record {
      asset_id = id;
      instrument_id = instrument_id;
      product_type = product_type;
      offer_id = offer_id;
      emission_entity_id = emission_entity_id;
      issuer_document_id = issuer_document_id;
      market_code = market_code;
      asset_name = asset_name;
      issuance_date = issuance_date;
      maturity_date = maturity_date;
      created_at = created_at;
    }
