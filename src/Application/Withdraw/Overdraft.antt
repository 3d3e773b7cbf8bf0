-- ===== src/Application/Withdraw/Overdraft.antt =====
-- How far a sale can eat into the collateral of a lot.
use spec_star_go.Prelude.{ℕ, ◌≡◌, ◌↔◌, true, sym, ◌∙◌, subst}
use spec_star_go.Decimal.{Decimal, ◌≼◌}
use spec_star_go.Decimal.Laws.{DecimalLaws}
use spec_star_go.Decimal.Order.{
  le_trans, add-le-add, min-le_right, lt-sub_iff, zero-add, sub_unique, sub-opposite, sub-le,
}
use spec_star_go.Domain.Effect.{ok}
use spec_star_go.Domain.Position.{Position, available_value}
use spec_star_go.Domain.Position.Laws.{IsValid}
use spec_star_go.Application.Withdraw.Lots.{units_sold, sell}
use spec_star_go.Application.Withdraw.Sale.{
  sell-Sold, available-Sold, price_pos, rounding_above, slack,
}

module _ {D : Type 0} ⦃d : Decimal D⦄ (laws : DecimalLaws D) where
  open laws use {is_negative_lem, lt_irrefl, sub-add, ulp}

  -- what is taken too much from a lot
  le_overdraft :
      (free value cost : D) → value ≼ free → d.sub d.zero (d.sub free cost) ≼ d.sub cost value
  le_overdraft free value cost h =
      let opposite =
        sub_unique laws (d.sub cost free) (d.sub free cost) d.zero (sub-opposite laws cost free) in
      let room : cost ≼ d.add (d.sub cost value) free =
        subst (λ t. t ≼ d.add (d.sub cost value) free) (sub-add cost value)
          (add-le-add laws _ _ _ _ (lt_irrefl (d.sub cost value)) h) in
      subst (λ t. t ≼ d.sub cost value) opposite (sub-le laws cost (d.sub cost value) free room)

  -- A sale can eat into the collateral of a valid lot with a positive available value, and by no
  -- more than the rounding of the units. The units that are sold are the smaller of what remains
  -- and what is available, divided by the price and rounded to six digits. The available value
  -- that is left is negative exactly when they cost more than what was available; and twice what
  -- it lacks of zero is at most one unit of the sixth and one of the sixteenth digit at the price
  -- of the lot.
  pub sale_overdraws :
      (now : ℕ) (remaining left : D) (lot lot' : Position D)
      → IsValid lot
      → d.less_than d.zero (available_value lot) ≡ true
      → sell now remaining lot ≡ ok (lot', left)
      → let free = available_value lot in
        let price = lot.unit_price in
        let cost = d.mul (d.round 6 (d.div (d.min remaining free) price)) price in
        let lack = d.sub d.zero (available_value lot') in
        ((d.is_negative (available_value lot') ≡ true) ↔ (d.less_than free cost ≡ true))
        × (d.add lack lack ≼ d.mul (d.add (ulp 6) (ulp 16)) price)
  unfolding units_sold slack
  sale_overdraws now remaining left lot lot' v positive h =
      let (sold, paid) = sell-Sold now remaining lot lot' left h in
      let free = available_value lot in
      let value = d.min remaining free in
      let cost = d.mul (units_sold remaining lot) lot.unit_price in
      let fallen = available-Sold laws v sold in
      let same : d.is_negative (available_value lot') ≡ d.less_than free cost = cc (
        is_negative_lem (available_value lot'),
        fallen,
        lt-sub_iff laws d.zero free cost,
        zero-add laws cost,
      ) in
      let lacking = le_overdraft free value cost (min-le_right laws remaining free) in
      (
        (λ q. sym same ∙ q, λ q. same ∙ q),
        rw fallen (
            le_trans laws _ _ _ (add-le-add laws _ _ _ _ lacking lacking)
              (rounding_above laws value lot.unit_price (price_pos laws lot v positive))),
      )
