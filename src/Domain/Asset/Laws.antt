-- ===== src/Domain/Asset/Laws.antt =====
-- When `NewAsset` makes an asset, and which.
use spec_star_go.Prelude.{◌≡◌, ◌≢◌, ◌↔◌, ==_iff, eq_iff, arith}
use spec_star_go.Domain.Effect.{ok}
use spec_star_go.Domain.ProductType.{valid_product_types}
use spec_star_go.Domain.ProductType.Laws.{IsOneOf, validate_product_type_iff}
use spec_star_go.Domain.Asset.{Asset, new_asset, validate_asset_fields}

-- what the fields of an asset must be
pub record IsValid (a : Asset) : Type 0 where
  pub instrument : a.instrument_id ≢ ""
  pub product : IsOneOf a.product_type valid_product_types
  pub emission_entity : a.emission_entity_id ≢ ""
  pub name : a.asset_name ≢ ""
  pub issuance : a.issuance_date ≢ 0
  pub maturity : a.maturity_date ≢ 0

-- `NewAsset` on the fields of an asset gives back that asset exactly when its required texts are not
-- empty, its product type is one of the seven, and its two dates are not the zero time.
pub new_asset_iff :
    (a b : Asset)
    → (new_asset a.asset_id a.created_at a.instrument_id a.product_type a.offer_id
          a.emission_entity_id a.issuer_document_id a.market_code a.asset_name a.issuance_date
          a.maturity_date
        ≡ ok b)
      ↔ ((a ≡ b) × IsValid a)
unfolding new_asset validate_asset_fields
new_asset_iff a b =
    let i = eq_iff a.instrument_id "" in
    let e = eq_iff a.emission_entity_id "" in
    let n = eq_iff a.asset_name "" in
    let s = ==_iff a.issuance_date 0 in
    let m = ==_iff a.maturity_date 0 in
    let p = validate_product_type_iff a.product_type in
    (
      λ h. (
        ground arith,
        record {
          instrument = λ q. ground arith;
          product = ground arith;
          emission_entity = λ q. ground arith;
          name = λ q. ground arith;
          issuance = λ q. ground arith;
          maturity = λ q. ground arith;
        },
      ),
      λ (same, v).
          let a1 = v.instrument in
          let a2 = p.1 v.product in
          let a3 = v.emission_entity in
          let a4 = v.name in let a5 = v.issuance in let a6 = v.maturity in ground arith,
    )
