-- ===== src/Application/Withdraw/Consume.antt =====
-- The loop that sells lots until nothing remains, against a relation that lists the sales.
use mathlib.Core.List.{append_assoc, append-nil}
use spec_star_go.Prelude.{
  ℕ, suc, ◌≡◌, true, false, refl, sym, ◌∙◌, arith, ◌⊎◌, inl, inr, List, [], ◌∷◌, ◌++◌, Bool-cases,
  subst,
}
use spec_star_go.Decimal.{Decimal}
use spec_star_go.Domain.Effect.{ok, err, Result-cases}
use spec_star_go.Domain.Errors.{Error}
use spec_star_go.Domain.Position.{Position}
use spec_star_go.Application.Withdraw.Lots.{units_sold, sell, consume}
use spec_star_go.Application.Withdraw.Sale.{Sold, sell-Sold}

module _ {D : Type 0} ⦃d : Decimal D⦄ where
  -- Lots are sold in order while a positive value remains, each for the units that the rest asks of
  -- it; then the sales stop.
  pub data Sales : (ℕ → ℕ) → D → List (Position D) → List (Position D) → D → Type 0 where
    stop :
        {clock : ℕ → ℕ} {remaining : D} {lots : List (Position D)}
        → (lots ≡ []) ⊎ (d.is_positive remaining ≡ false)
        → Sales clock remaining lots [] remaining
    sale :
        {clock : ℕ → ℕ} {remaining left : D} {lot lot' : Position D}
        {rest affected : List (Position D)}
        → d.is_positive remaining ≡ true
        → Sold (clock 0) (units_sold remaining lot) lot lot'
        → Sales
            (λ i. clock (suc i))
            (d.sub remaining (d.mul (units_sold remaining lot) lot.unit_price))
            rest
            affected
            left
        → Sales clock remaining (lot ∷ rest) (lot' ∷ affected) left

  module _ (clock : ℕ → ℕ) (remaining : D) (before : List (Position D)) (lot : Position D)
      (rest : List (Position D)) where
    pub consume_stop :
        d.is_positive remaining ≡ false
        → consume clock remaining before (lot ∷ rest) ≡ ok (before, remaining)
    unfolding consume
    consume_stop e = rw (e, consume)

    pub consume_sale :
        (lot' : Position D) (left : D)
        → d.is_positive remaining ≡ true
        → sell (clock 0) remaining lot ≡ ok (lot', left)
        → consume clock remaining before (lot ∷ rest)
          ≡ consume (λ i. clock (suc i)) left (before ++ lot' ∷ []) rest
    unfolding consume
    consume_sale lot' left e s = rw (e, s, consume)

    consume_fail :
        (why : Error)
        → d.is_positive remaining ≡ true
        → sell (clock 0) remaining lot ≡ err why
        → consume clock remaining before (lot ∷ rest) ≡ err why
    unfolding consume
    consume_fail why e s = rw (e, s, consume)

  sale_first :
      {clock : ℕ → ℕ} {remaining left between : D} {lot lot' : Position D}
      {rest affected : List (Position D)} (before : List (Position D))
      → d.is_positive remaining ≡ true
      → sell (clock 0) remaining lot ≡ ok (lot', between)
      → (sold : List (Position D)) × (affected ≡ (before ++ lot' ∷ []) ++ sold)
        × Sales (λ i. clock (suc i)) between rest sold left
      → (sold : List (Position D)) × (affected ≡ before ++ sold)
        × Sales clock remaining (lot ∷ rest) sold left
  sale_first {clock} {remaining} {left} {between} {lot} {lot'} {rest} before more s
        (sold, e, sales) =
      let (moved, paid) = sell-Sold (clock 0) remaining lot lot' between s in
      (
        lot' ∷ sold,
        e ∙ append_assoc before (lot' ∷ []) sold,
        sale more moved (subst (λ t. Sales (λ i. clock (suc i)) t rest sold left) paid sales),
      )

  -- What the loop over the lots returns is what it was given, followed by the lots of a run of sales:
  -- lots are sold in order while a positive value remains, and the run ends at that value or at the
  -- end of the lots.
  pub consume-Sales :
      (clock : ℕ → ℕ) (remaining : D) (before lots : List (Position D))
      (affected : List (Position D)) (left : D)
      → consume clock remaining before lots ≡ ok (affected, left)
      → (sold : List (Position D)) × (affected ≡ before ++ sold)
        × Sales clock remaining lots sold left
  unfolding consume
  consume-Sales clock remaining before [] affected left h =
      let same : remaining ≡ left = ground arith in
      (
        [],
        ground (arith, append-nil before),
        subst (λ t. Sales clock remaining [] [] t) same (stop (inl refl)),
      )
  consume-Sales clock remaining before (lot ∷ rest) affected left h =
      elim (Bool-cases (d.is_positive remaining)) [
        | inl more ↦ elim (Result-cases (sell (clock 0) remaining lot)) [
          | inl ((lot', between), s) ↦ sale_first before more s (
              consume-Sales (λ i. clock (suc i)) between (before ++ lot' ∷ []) rest affected left
                (sym (consume_sale clock remaining before lot rest lot' between more s) ∙ h))
          | inr (why, s) ↦ cc (consume_fail clock remaining before lot rest why more s, h)
        ]
        | inr spent ↦
            let e = sym (consume_stop clock remaining before lot rest spent) ∙ h in
            let same : remaining ≡ left = ground (arith, e) in
            (
              [],
              ground (arith, e, append-nil before),
              subst (λ t. Sales clock remaining (lot ∷ rest) [] t) same (stop (inr spent)),
            )
      ]
