-- ===== src/Domain/Position/Lifecycle.antt =====
-- What every sequence of updates keeps of a position.
use Prim.Native.Nat.{◌%◌, ◌^◌}
use spec_star_go.Prelude.{ℕ, suc, ◌+◌, ◌≡◌, refl, ◌∙◌, arith}
use spec_star_go.Decimal.{Decimal}
use spec_star_go.Decimal.Laws.{DecimalLaws}
use spec_star_go.Domain.Effect.{ok}
use spec_star_go.Domain.Position.{
  Position, new_position, update_amount, update_collateral, update_judiciary_collateral,
  next_version,
}
use spec_star_go.Domain.Position.Laws.{IsValid, new_position-IsValid, update_amount-IsValid}

module _ {D : Type 0} ⦃d : Decimal D⦄ where
  -- one update that succeeded
  pub data Step (p q : Position D) : Type 0 where
    amount : (now : ℕ) (a : D) → update_amount now a p ≡ ok q → Step p q
    collateral : (now : ℕ) (c : D) → update_collateral now c p ≡ ok q → Step p q
    judiciary : (now : ℕ) (j : D) → update_judiciary_collateral now j p ≡ ok q → Step p q

  -- so many updates, one after the other
  pub data Updates : ℕ → Position D → Position D → Type 0 where
    none : {p : Position D} → Updates 0 p p
    more : {n : ℕ} {p q r : Position D} → Updates n p q → Step q r → Updates (suc n) p r

  -- what no update changes
  pub record SameIdentity (p q : Position D) : Type 0 where
    pub position_id : q.position_id ≡ p.position_id
    pub client_id : q.client_id ≡ p.client_id
    pub asset_id : q.asset_id ≡ p.asset_id
    pub unit_price : q.unit_price ≡ p.unit_price
    pub created_at : q.created_at ≡ p.created_at
    pub purchased_at : q.purchased_at ≡ p.purchased_at

  module _ (laws : DecimalLaws D) where
    open laws use {is_negative_lem}

    Step-IsValid : {p q : Position D} → IsValid p → Step p q → IsValid q
    unfolding update_collateral update_judiciary_collateral
    Step-IsValid {p} v (amount now a h) = update_amount-IsValid laws now a p v h
    Step-IsValid v (collateral now c h) = ground (arith, is_negative_lem c)
    Step-IsValid v (judiciary now j h) = ground (arith, is_negative_lem j)

    Step-identity :
        {p q : Position D}
        → Step p q
        → SameIdentity p q × (q.row_version ≡ next_version p.row_version)
    unfolding update_amount update_collateral update_judiciary_collateral
    Step-identity (amount now a h) = ground arith
    Step-identity (collateral now c h) = ground arith
    Step-identity (judiciary now j h) = ground arith

    -- A new position satisfies the invariant after any number of successful updates: its amounts are
    -- not negative and its total value is the amount times the unit price. Its identity, its unit
    -- price and its dates of creation and purchase stay, and its version has counted the updates, up
    -- to the wrap-around of 64 bits.
    pub Updates-invariant :
        (id now client asset : ℕ) (a price : D) (at : ℕ) {p q : Position D} {n : ℕ}
        → new_position id now client asset a price at ≡ ok p
        → Updates n p q
        → IsValid q × SameIdentity p q × (q.row_version ≡ (1 + n) % 2 ^ 64)
    unfolding new_position
    Updates-invariant id now client asset a price at h none = (
      new_position-IsValid laws id now client asset a price at h,
      record {
        position_id = refl;
        client_id = refl;
        asset_id = refl;
        unit_price = refl;
        created_at = refl;
        purchased_at = refl;
      },
      ground arith,
    )
    Updates-invariant id now client asset a price at h (more us s) =
        let (v, same, version) = Updates-invariant id now client asset a price at h us in
        let (kept, counted) = Step-identity s in
        (
          Step-IsValid v s,
          record {
            position_id = kept.position_id ∙ same.position_id;
            client_id = kept.client_id ∙ same.client_id;
            asset_id = kept.asset_id ∙ same.asset_id;
            unit_price = kept.unit_price ∙ same.unit_price;
            created_at = kept.created_at ∙ same.created_at;
            purchased_at = kept.purchased_at ∙ same.purchased_at;
          },
          omega arith,
        )
