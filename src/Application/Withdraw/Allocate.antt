-- ===== src/Application/Withdraw/Allocate.antt =====
-- What `allocate` returns: which errors and when, and how the affected lots add up.
use mathlib.Core.List.{append_assoc, append-nil}
use spec_star_go.Prelude.{
  ℕ, suc, ◌≡◌, true, refl, sym, ◌∙◌, ◌⊎◌, inl, inr, List, [], ◌∷◌, ◌++◌, All, Bool-cases,
  if◌then◌else◌,
}
use spec_star_go.Decimal.{Decimal, ◌≼◌}
use spec_star_go.Decimal.Laws.{DecimalLaws}
use spec_star_go.Decimal.Order.{zero-add}
use spec_star_go.Domain.Errors.{wrap, sentinel, not_found}
use spec_star_go.Domain.Effect.{ok, err, ◌>>=◌}
use spec_star_go.Domain.Position.{Position, available_value}
use spec_star_go.Domain.Position.Laws.{IsValid}
use spec_star_go.Application.Withdraw.Lots.{units_sold, select, consume, insufficient, allocate}
use spec_star_go.Application.Withdraw.Sale.{sell_succeeds}
use spec_star_go.Application.Withdraw.Precision.{available_sum}
use spec_star_go.Application.Withdraw.Consume.{consume_sale, consume_stop}
use spec_star_go.Application.Withdraw.Sales.{IsEligible, price-pos}

module _ {D : Type 0} ⦃d : Decimal D⦄ where
  -- the lots with a positive available value, in the order in which they were found
  abbrev pub eligible_lots : List (Position D) → List (Position D)
  eligible_lots [] = []
  eligible_lots (p ∷ rest) =
      if d.is_positive (available_value p) then p ∷ eligible_lots rest else eligible_lots rest

  -- The amount of a lot has at most six fractional digits, as the column holds it.
  abbrev pub IsSixDigit : Position D → Type 0
  IsSixDigit p = d.round 6 p.amount ≡ p.amount

  module _ (laws : DecimalLaws D) where
    open laws use {add_comm, add_assoc, add-zero, is_positive_lem, lt_irrefl}

    select-eligible_lots :
        (positions eligible : List (Position D)) (total : D)
        → select positions eligible total ≡ (
          eligible ++ eligible_lots positions,
          d.add total (available_sum (eligible_lots positions)),
        )
    unfolding select
    select-eligible_lots [] eligible total = cc (append-nil eligible, add-zero total)
    select-eligible_lots (p ∷ rest) eligible total =
        let value = available_value p in
        let others = eligible_lots rest in
        elim (Bool-cases (d.is_positive value)) [
          | inl yields ↦
              rw (yields, select)
                (select-eligible_lots rest (eligible ++ p ∷ []) (d.add total value)
                  ∙ cc (
                    append_assoc eligible (p ∷ []) others,
                    add_assoc total value (available_sum others),
                  ))
          | inr spent ↦ rw (spent, select) (select-eligible_lots rest eligible total)
        ]

    pub select_lem :
        (positions : List (Position D))
        → select positions [] d.zero
          ≡ (eligible_lots positions, available_sum (eligible_lots positions))
    select_lem positions =
        select-eligible_lots positions [] d.zero
        ∙ cc (zero-add laws (available_sum (eligible_lots positions)))

    pub eligible_lots-IsEligible :
        (positions : List (Position D))
        → All IsValid positions
        → All IsEligible (eligible_lots positions)
    eligible_lots-IsEligible [] v = tt
    eligible_lots-IsEligible (p ∷ rest) v = elim (Bool-cases (d.is_positive (available_value p))) [
      | inl yields ↦ rw yields (
        record { valid = v.0; positive = sym (is_positive_lem _) ∙ yields },
        eligible_lots-IsEligible rest v.1,
      )
      | inr spent ↦ rw spent (eligible_lots-IsEligible rest v.1)
    ]

    -- Lots of at most six digits can all be sold, so the loop returns.
    consume_succeeds :
        (clock : ℕ → ℕ) (remaining : D) (before lots : List (Position D))
        → All IsEligible lots
        → All IsSixDigit lots
        → (affected : List (Position D)) × (left : D) × (consume clock remaining before lots
            ≡ ok (affected, left))
    unfolding consume
    consume_succeeds clock remaining before [] e six = (before, remaining, refl)
    consume_succeeds clock remaining before (lot ∷ rest) e six =
        elim (Bool-cases (d.is_positive remaining)) [
          | inl more ↦
              let between = d.sub remaining (d.mul (units_sold remaining lot) lot.unit_price) in
              let (lot', s) =
                sell_succeeds laws (clock 0) remaining lot e.0.valid six.0
                  (price-pos laws lot e.0) in
              let (affected, left, h) =
                consume_succeeds (λ i. clock (suc i)) between (before ++ lot' ∷ []) rest e.1
                  six.1 in
              (affected, left, consume_sale clock remaining before lot rest lot' between more s ∙ h)
          | inr spent ↦ (before, remaining, consume_stop clock remaining before lot rest spent)
        ]

    module _ (clock : ℕ → ℕ) (desired : D) where
      pub allocate_found :
          (p : Position D) (rest : List (Position D))
          → let lots = eligible_lots (p ∷ rest) in
            allocate clock desired (p ∷ rest) ≡ (
              if d.less_than (available_sum lots) desired
              then err (insufficient (available_sum lots) desired)
              else consume clock desired [] lots >>= λ r. ok r.0)
      unfolding allocate
      allocate_found p rest = rw (select_lem (p ∷ rest))

      -- Valid positions of six digits: no positions at all give `not found`; eligible lots that hold
      -- less than the desired value give `insufficient position`, with both figures in the text; any
      -- others can be sold.
      pub allocate_outcome :
          (positions : List (Position D))
          → All IsValid positions
          → All IsSixDigit (eligible_lots positions)
          → let lots = eligible_lots positions in
            let held = available_sum lots in
            ((positions ≡ [])
              × (allocate clock desired positions
                  ≡ err (wrap "no positions found" (sentinel not_found))))
            ⊎ ((d.less_than held desired ≡ true)
                × (allocate clock desired positions ≡ err (insufficient held desired)))
            ⊎ ((desired ≼ held)
                × ((affected : List (Position D)) × (allocate clock desired positions
                      ≡ ok affected)))
      unfolding allocate
      allocate_outcome [] v six = inl (refl, refl)
      allocate_outcome (p ∷ rest) v six =
          let lots = eligible_lots (p ∷ rest) in
          elim (Bool-cases (d.less_than (available_sum lots) desired)) [
            | inl short ↦ inr (inl (short, allocate_found p rest ∙ rw short refl))
            | inr enough ↦
                let (affected, left, h) =
                  consume_succeeds clock desired [] lots (eligible_lots-IsEligible (p ∷ rest) v)
                    six in
                inr (inr (enough, (affected, allocate_found p rest ∙ rw (enough, h) refl)))
          ]
