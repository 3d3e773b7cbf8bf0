-- ===== src/Application/Withdraw/Division.antt =====
-- No sale divides by zero.
use spec_star_go.Prelude.{
  ℕ, suc, ◌≡◌, true, false, refl, inl, inr, List, [], ◌∷◌, ◌++◌, All, Bool-cases, if◌then◌else◌,
}
use spec_star_go.Decimal.{Decimal}
use spec_star_go.Decimal.Laws.{DecimalLaws}
use spec_star_go.Domain.Effect.{Result-cases}
use spec_star_go.Domain.Position.{Position, available_value, update_amount}
use spec_star_go.Domain.Position.Laws.{IsValid}
use spec_star_go.Application.Withdraw.Lots.{units_sold, sell, select, consume, allocate}
use spec_star_go.Application.Withdraw.Sales.{IsEligible, price-pos}
use spec_star_go.Application.Withdraw.Allocate.{eligible_lots, eligible_lots-IsEligible, select_lem}

module _ {D : Type 0} ⦃d : Decimal D⦄ (by_zero : D) where
  -- the same decimals, but a division by zero gives `by_zero`
  abbrev pub other : Decimal D
  other = record d { div = λ a b. if d.equal b d.zero then by_zero else d.div a b }

  select-other :
      (positions eligible : List (Position D)) (total : D)
      → select ⦃d = other⦄ positions eligible total ≡ select positions eligible total
  unfolding select available_value
  select-other [] eligible total = refl
  select-other (p ∷ rest) eligible total = elim (Bool-cases (d.is_positive (available_value p))) [
    | inl h ↦ rw (h, select) (select-other rest (eligible ++ p ∷ []) _)
    | inr h ↦ rw (h, select) (select-other rest eligible total)
  ]

  module _ (laws : DecimalLaws D) where
    open laws use {equal_iff, lt_irrefl}

    -- a positive price is not zero
    price_apart : (price : D) → d.less_than d.zero price ≡ true → d.equal price d.zero ≡ false
    price_apart price h = elim (Bool-cases (d.equal price d.zero)) [
      | inr apart ↦ apart
      | inl zero_price ↦
          absurd (let same = (equal_iff price d.zero).0 zero_price in cc (lt_irrefl d.zero))
    ]

    sell-other :
        (now : ℕ) (remaining : D) (lot : Position D)
        → d.less_than d.zero lot.unit_price ≡ true
        → sell ⦃d = other⦄ now remaining lot ≡ sell now remaining lot
    unfolding sell units_sold available_value update_amount
    sell-other now remaining lot h = rw (price_apart lot.unit_price h) refl

    consume-other :
        (clock : ℕ → ℕ) (remaining : D) (before lots : List (Position D))
        → All IsEligible lots
        → consume ⦃d = other⦄ clock remaining before lots ≡ consume clock remaining before lots
    unfolding consume
    consume-other clock remaining before [] e = refl
    consume-other clock remaining before (lot ∷ rest) e =
        let same = sell-other (clock 0) remaining lot (price-pos laws lot e.0) in
        elim (Bool-cases (d.is_positive remaining)) [
          | inr h ↦ rw (h, consume) refl
          | inl h ↦ elim (Result-cases (sell (clock 0) remaining lot)) [
            | inr (why, s) ↦ rw (h, same, s, consume) refl
            | inl ((lot', left), s) ↦
                rw (h, same, s, consume)
                  (consume-other (λ i. clock (suc i)) left (before ++ lot' ∷ []) rest e.1)
          ]
        ]

    -- No withdrawal from valid positions divides by a price of zero: whatever value a division by
    -- zero gave, `allocate` would return the same, with the same lots or the same error.
    pub allocate_never_divides_by_zero :
        (clock : ℕ → ℕ) (desired : D) (positions : List (Position D))
        → All IsValid positions
        → allocate ⦃d = other⦄ clock desired positions ≡ allocate clock desired positions
    unfolding allocate
    allocate_never_divides_by_zero clock desired [] v = refl
    allocate_never_divides_by_zero clock desired (p ∷ rest) v =
        let lots = eligible_lots (p ∷ rest) in
        let same =
          consume-other clock desired [] lots (eligible_lots-IsEligible laws (p ∷ rest) v) in
        rw (select-other (p ∷ rest) [] d.zero, select_lem laws (p ∷ rest), same) refl
