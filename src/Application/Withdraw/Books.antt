-- ===== src/Application/Withdraw/Books.antt =====
-- A withdrawal that goes through: the sales behind it, and how they add up.
use spec_star_go.Prelude.{ℕ, ◌≡◌, sym, ◌∙◌, subst, arith, inl, inr, List, [], ◌∷◌, All, Bool-cases}
use spec_star_go.Decimal.{Decimal, ◌≼◌}
use spec_star_go.Decimal.Laws.{DecimalLaws}
use spec_star_go.Decimal.Order.{add-le-add, add_nonneg}
use spec_star_go.Domain.Effect.{ok, Result-cases}
use spec_star_go.Domain.Position.{Position}
use spec_star_go.Domain.Position.Laws.{IsValid}
use spec_star_go.Application.Withdraw.Lots.{consume, allocate}
use spec_star_go.Application.Withdraw.Precision.{available_sum, Near}
use spec_star_go.Application.Withdraw.Consume.{Sales, consume-Sales}
use spec_star_go.Application.Withdraw.Sales.{
  IsEligible, IsWithin, taken, slack_from, Sales-IsValid, Sales-balance, Sales-IsWithin,
}
use spec_star_go.Application.Withdraw.Allocate.{
  eligible_lots, allocate_found, eligible_lots-IsEligible,
}

module _ {D : Type 0} ⦃d : Decimal D⦄ where
  IsValid-of_eligible : (lots : List (Position D)) → All IsEligible lots → All IsValid lots
  IsValid-of_eligible [] e = tt
  IsValid-of_eligible (lot ∷ rest) e = (e.0.valid, IsValid-of_eligible rest e.1)

  module _ (laws : DecimalLaws D) (clock : ℕ → ℕ) (desired : D) where
    open laws use {add-zero, lt_irrefl}

    allocate-consume :
        (positions affected : List (Position D))
        → allocate clock desired positions ≡ ok affected
        → (left : D) × (desired ≼ available_sum (eligible_lots positions))
          × (consume clock desired [] (eligible_lots positions) ≡ ok (affected, left))
    allocate-consume [] affected h = unfold allocate in ground arith
    allocate-consume (p ∷ rest) affected h =
        let lots = eligible_lots (p ∷ rest) in
        let found = sym (allocate_found laws clock desired p rest) ∙ h in
        elim (Bool-cases (d.less_than (available_sum lots) desired)) [
          | inl short ↦ cc (rw short at found)
          | inr enough ↦ elim (Result-cases (consume clock desired [] lots)) [
            | inl ((sold, left), done) ↦
                let e : ok sold ≡ ok affected = rw (enough, done) at found in
                (left, enough, ground arith)
            | inr (why, failed) ↦ cc (rw (enough, failed) at found)
          ]
        ]

    start :
        (lots : List (Position D))
        → d.zero ≼ desired
        → desired ≼ available_sum lots
        → Near laws desired lots d.zero
    start lots p enough = record {
      slack_nonneg = lt_irrefl d.zero;
      enough = rw add-zero (add-le-add laws _ _ _ _ enough enough);
      not_below = rw add-zero (add_nonneg laws desired desired p p);
    }

    -- If a withdrawal of a value that is not negative from valid positions goes through, the
    -- affected lots come from a run of sales over the eligible lots; they are valid; the value that
    -- left them and the rest `left` add up to the desired value exactly; and twice that rest is, on
    -- either side of zero, within the slack of the eligible lots: one unit of the sixth and one of
    -- the sixteenth digit at the price of each.
    pub allocate_books :
        (positions affected : List (Position D))
        → All IsValid positions
        → d.zero ≼ desired
        → allocate clock desired positions ≡ ok affected
        → let lots = eligible_lots positions in
          (left : D) × Sales clock desired lots affected left
          × All IsValid affected
          × (d.add left (taken affected lots) ≡ desired)
          × IsWithin left (slack_from laws d.zero lots)
    allocate_books positions affected v p h =
        let lots = eligible_lots positions in
        let eligible = eligible_lots-IsEligible laws positions v in
        let valid = IsValid-of_eligible lots eligible in
        let (left, enough, done) = allocate-consume positions affected h in
        let (sold, same, sales) = consume-Sales clock desired [] lots affected left done in
        let run = subst (λ l. Sales clock desired lots l left) (sym same) sales in
        (
          left,
          run,
          Sales-IsValid laws run valid,
          Sales-balance laws run valid,
          Sales-IsWithin laws d.zero run eligible (start lots p enough),
        )
