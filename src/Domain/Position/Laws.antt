-- ===== src/Domain/Position/Laws.antt =====
-- The invariant of positions, and what each constructor and update makes of it.
use spec_star_go.Prelude.{ℕ, ◌≡◌, ◌↔◌, arith}
use spec_star_go.Decimal.{Decimal, ◌≼◌}
use spec_star_go.Decimal.Laws.{DecimalLaws}
use spec_star_go.Domain.Effect.{ok}
use spec_star_go.Domain.Position.{Position, new_position, reconstruct_position, update_amount}

module _ {D : Type 0} ⦃d : Decimal D⦄ where
  pub record IsValid (p : Position D) : Type 0 where
    pub amount_nonneg : d.zero ≼ p.amount
    pub unit_price_nonneg : d.zero ≼ p.unit_price
    pub collateral_nonneg : d.zero ≼ p.collateral_value
    pub judiciary_nonneg : d.zero ≼ p.judiciary_collateral_value
    pub total_derived : p.total_value ≡ d.mul p.amount p.unit_price

  module _ (laws : DecimalLaws D) where
    open laws use {equal_iff, is_negative_lem, lt_irrefl}

    -- `ReconstructPosition` accepts exactly the rows whose fields satisfy the invariant, and then
    -- gives back those fields.
    pub reconstruct_position_iff :
        (p q : Position D) → (reconstruct_position p ≡ ok q) ↔ ((p ≡ q) × IsValid p)
    unfolding reconstruct_position
    reconstruct_position_iff p q = (
      λ h. (
        ground arith,
        record {
          amount_nonneg = ground (arith, is_negative_lem p.amount);
          unit_price_nonneg = ground (arith, is_negative_lem p.unit_price);
          collateral_nonneg = ground (arith, is_negative_lem p.collateral_value);
          judiciary_nonneg = ground (arith, is_negative_lem p.judiciary_collateral_value);
          total_derived = (equal_iff p.total_value (d.mul p.amount p.unit_price)).0 (ground arith);
        },
      ),
      λ (same, v).
          let eq = (equal_iff p.total_value (d.mul p.amount p.unit_price)).1 v.total_derived in
          ground (
            arith,
            v.amount_nonneg,
            v.unit_price_nonneg,
            v.collateral_nonneg,
            v.judiciary_nonneg,
            eq,
            is_negative_lem p.amount,
            is_negative_lem p.unit_price,
            is_negative_lem p.collateral_value,
            is_negative_lem p.judiciary_collateral_value,
          ),
    )

    pub new_position-IsValid :
        (id now client asset : ℕ) (amount price : D) (at : ℕ) {p : Position D}
        → new_position id now client asset amount price at ≡ ok p
        → IsValid p
    unfolding new_position
    new_position-IsValid id now client asset amount price at h =
        ground (arith, is_negative_lem amount, is_negative_lem price, lt_irrefl d.zero)

    pub update_amount-IsValid :
        (now : ℕ) (amount : D) (p : Position D) {q : Position D}
        → IsValid p
        → update_amount now amount p ≡ ok q
        → IsValid q
    unfolding update_amount
    update_amount-IsValid now amount p v h = ground (arith, is_negative_lem amount)
