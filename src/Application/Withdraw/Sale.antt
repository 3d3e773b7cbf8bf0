-- ===== src/Application/Withdraw/Sale.antt =====
-- One sale: the lot keeps its identity, the books balance exactly, and rounding the units moves the
-- value by at most half a unit of the sixth digit, and of the sixteenth, at the price of the lot.
use spec_star_go.Prelude.{ℕ, ◌≡◌, true, false, refl, ◌∙◌, arith, subst}
use spec_star_go.Decimal.{Decimal, ◌≼◌}
use spec_star_go.Decimal.Laws.{DecimalLaws}
use spec_star_go.Decimal.Order.{
  le_trans, lt_asymm, mul-sub, sub-add-sub, double-add, sub_nonneg, min-le_right, sub_right_comm,
  sub-le_self, double-mul, mul-zero, sub-sub_self,
}
use spec_star_go.Domain.Effect.{ok}
use spec_star_go.Domain.Position.{Position, available_value, update_amount, next_version}
use spec_star_go.Domain.Position.Laws.{IsValid}
use spec_star_go.Application.Withdraw.Lots.{units_sold, sell}

module _ {D : Type 0} ⦃d : Decimal D⦄ where
  -- What a sale of `units` makes of a lot.
  pub record Sold (now : ℕ) (units : D) (lot lot' : Position D) : Type 0 where
    pub guard : d.is_negative (d.sub lot.amount units) ≡ false
    pub amount : lot'.amount ≡ d.sub lot.amount units
    pub total : lot'.total_value ≡ d.mul (d.sub lot.amount units) lot.unit_price
    pub version : lot'.row_version ≡ next_version lot.row_version
    pub updated : lot'.updated_at ≡ now
    pub position_id : lot'.position_id ≡ lot.position_id
    pub client_id : lot'.client_id ≡ lot.client_id
    pub asset_id : lot'.asset_id ≡ lot.asset_id
    pub unit_price : lot'.unit_price ≡ lot.unit_price
    pub collateral : lot'.collateral_value ≡ lot.collateral_value
    pub judiciary : lot'.judiciary_collateral_value ≡ lot.judiciary_collateral_value
    pub created_at : lot'.created_at ≡ lot.created_at
    pub purchased_at : lot'.purchased_at ≡ lot.purchased_at

  pub sell-Sold :
      (now : ℕ) (remaining : D) (lot lot' : Position D) (left : D)
      → sell now remaining lot ≡ ok (lot', left)
      → Sold now (units_sold remaining lot) lot lot'
        × (left ≡ d.sub remaining (d.mul (units_sold remaining lot) lot.unit_price))
  unfolding sell update_amount
  sell-Sold now remaining lot lot' left h = ground arith

  module _ (laws : DecimalLaws D) where
    open laws use {
      add_comm, add_assoc, mul-add, is_negative_lem, ulp, round_above, round_below, div_above,
      div_below, round_mono, round_finer, round-zero, min_lem, div-le, le-div, le_antisymm,
      zero-mul, lt_irrefl,
    }

    -- the most by which twice the sold value can miss the wanted value
    unfoldable pub slack : D → D
    slack price = d.mul (d.add (ulp 6) (ulp 16)) price

    available-le-total : (lot : Position D) → IsValid lot → available_value lot ≼ lot.total_value
    unfolding available_value
    available-le-total lot v =
        le_trans laws _ _ _ (sub-le_self laws _ lot.judiciary_collateral_value v.judiciary_nonneg)
          (sub-le_self laws _ lot.collateral_value v.collateral_nonneg)

    -- A valid lot with a positive available value has a positive unit price, so that the division by
    -- the price in a sale never meets a zero.
    pub price_pos :
        (lot : Position D)
        → IsValid lot
        → d.less_than d.zero (available_value lot) ≡ true
        → d.less_than d.zero lot.unit_price ≡ true
    price_pos lot v h = ground (
      arith,
      le_antisymm lot.unit_price d.zero,
      v.unit_price_nonneg,
      v.total_derived,
      mul-zero laws lot.amount,
      available-le-total lot v,
    )

    pub rounding_above :
        (value price : D)
        → d.less_than d.zero price ≡ true
        → let e = d.sub (d.mul (d.round 6 (d.div value price)) price) value in
          d.add e e ≼ slack price
    unfolding slack
    rounding_above value price h =
        let q = d.div value price in
        let u = d.round 6 q in
        rw (← sub-add-sub laws (d.mul u price) (d.mul q price) value, mul-add)
          (double-add laws _ _ _ _
            (rw (← mul-sub laws)
              (double-mul laws (d.sub u q) (ulp 6) price (lt_asymm laws _ _ h) (round_above 6 q)))
            (div_above value price h))

    pub rounding_below :
        (value price : D)
        → d.less_than d.zero price ≡ true
        → let e = d.sub value (d.mul (d.round 6 (d.div value price)) price) in
          d.add e e ≼ slack price
    unfolding slack
    rounding_below value price h =
        let q = d.div value price in
        let u = d.round 6 q in
        rw
          (
            ← sub-add-sub laws value (d.mul q price) (d.mul u price),
            mul-add,
            add_comm (d.mul (ulp 6) price),
          )
          (double-add laws _ _ _ _ (div_below value price h) (
            rw (← mul-sub laws)
              (double-mul laws (d.sub q u) (ulp 6) price (lt_asymm laws _ _ h) (round_below 6 q))))

    -- the units that are sold are not more than the lot holds
    pub units-le-amount :
        (remaining : D) (lot : Position D)
        → IsValid lot
        → d.round 6 lot.amount ≡ lot.amount
        → d.less_than d.zero lot.unit_price ≡ true
        → units_sold remaining lot ≼ lot.amount
    unfolding units_sold
    units-le-amount remaining lot v digits h =
        let value = d.min remaining (available_value lot) in
        let within : value ≼ d.mul lot.amount lot.unit_price =
          le_trans laws _ _ _ (min-le_right laws remaining _)
            (subst (λ t. available_value lot ≼ t) v.total_derived (available-le-total lot v)) in
        let exact = round_finer 6 16 lot.amount (omega arith) digits in
        rw digits at (round_mono 6 _ _ (div-le value lot.unit_price lot.amount h exact within))

    pub units_nonneg :
        (remaining : D) (lot : Position D)
        → d.less_than d.zero lot.unit_price ≡ true
        → d.zero ≼ remaining
        → d.zero ≼ available_value lot
        → d.zero ≼ units_sold remaining lot
    unfolding units_sold
    units_nonneg remaining lot h p q =
        let value = d.min remaining (available_value lot) in
        let above : d.mul d.zero lot.unit_price ≼ value = rw (zero-mul, min_lem) (ground arith) in
        rw (round-zero 6) at
          (round_mono 6 _ _ (le-div value lot.unit_price d.zero h (round-zero 16) above))

    -- A lot at most six digits fine can be sold: the new amount is not negative.
    pub sell_succeeds :
        (now : ℕ) (remaining : D) (lot : Position D)
        → IsValid lot
        → d.round 6 lot.amount ≡ lot.amount
        → d.less_than d.zero lot.unit_price ≡ true
        → (lot' : Position D) × (sell now remaining lot
            ≡ ok (lot', d.sub remaining (d.mul (units_sold remaining lot) lot.unit_price)))
    unfolding sell update_amount
    sell_succeeds now remaining lot v digits price =
        let units = units_sold remaining lot in
        let kept =
          sub_nonneg laws lot.amount units (units-le-amount remaining lot v digits price) in
        let test = is_negative_lem (d.sub lot.amount units) ∙ kept in
        (
          record lot {
            amount = d.sub lot.amount units;
            total_value = d.mul (d.sub lot.amount units) lot.unit_price;
            row_version = next_version lot.row_version;
            updated_at = now;
          },
          rw test refl,
        )

    pub Sold-IsValid :
        {now : ℕ} {units : D} {lot lot' : Position D}
        → IsValid lot
        → Sold now units lot lot'
        → IsValid lot'
    Sold-IsValid {units} {lot} v sold = record {
      amount_nonneg = cc (is_negative_lem (d.sub lot.amount units), sold.guard, sold.amount);
      unit_price_nonneg = cc (v.unit_price_nonneg, sold.unit_price);
      collateral_nonneg = cc (v.collateral_nonneg, sold.collateral);
      judiciary_nonneg = cc (v.judiciary_nonneg, sold.judiciary);
      total_derived = cc (sold.total, sold.amount, sold.unit_price);
    }

    -- The value that leaves the lot is the value that is taken off `remaining`.
    pub Sold-balance :
        {now : ℕ} {units : D} {lot lot' : Position D}
        → IsValid lot
        → Sold now units lot lot'
        → d.sub lot.total_value lot'.total_value ≡ d.mul units lot.unit_price
    Sold-balance {units} {lot} v sold = cc (
      v.total_derived,
      sold.total,
      mul-sub laws lot.amount units lot.unit_price,
      sub-sub_self laws (d.mul lot.amount lot.unit_price) (d.mul units lot.unit_price),
    )

    -- The available value falls by the value of the units that are sold.
    pub available-Sold :
        {now : ℕ} {units : D} {lot lot' : Position D}
        → IsValid lot
        → Sold now units lot lot'
        → available_value lot' ≡ d.sub (available_value lot) (d.mul units lot.unit_price)
    unfolding available_value
    available-Sold {units} {lot} v sold =
        let cost = d.mul units lot.unit_price in
        let free = d.sub lot.total_value lot.collateral_value in
        cc (
          v.total_derived,
          sold.total,
          sold.collateral,
          sold.judiciary,
          mul-sub laws lot.amount units lot.unit_price,
          sub_right_comm laws lot.total_value cost lot.collateral_value,
          sub_right_comm laws free cost lot.judiciary_collateral_value,
        )
