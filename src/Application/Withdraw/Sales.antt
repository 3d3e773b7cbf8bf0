-- ===== src/Application/Withdraw/Sales.antt =====
-- What a run of sales does to the books.
use spec_star_go.Prelude.{
  ℕ, ◌≡◌, true, false, sym, ap, ◌∙◌, subst, ◌⊎◌, inl, inr, List, [], ◌∷◌, All,
}
use spec_star_go.Decimal.{Decimal, ◌≼◌}
use spec_star_go.Decimal.Laws.{DecimalLaws}
use spec_star_go.Decimal.Order.{
  le_trans, add_nonneg, le-add_right, add-le-add, zero-add, lt_asymm, add-add_swap, double_nonpos,
}
use spec_star_go.Domain.Position.{Position, available_value}
use spec_star_go.Domain.Position.Laws.{IsValid}
use spec_star_go.Application.Withdraw.Lots.{units_sold}
use spec_star_go.Application.Withdraw.Sale.{Sold-balance, Sold-IsValid, price_pos, slack}
use spec_star_go.Application.Withdraw.Precision.{available_sum, Near, sell-Near, slack-nonneg}
use spec_star_go.Application.Withdraw.Consume.{Sales, stop, sale}

module _ {D : Type 0} ⦃d : Decimal D⦄ where
  -- the value that left the lots which were sold from
  abbrev pub taken : List (Position D) → List (Position D) → D
  taken [] lots = d.zero
  taken (lot' ∷ affected) [] = d.zero
  taken (lot' ∷ affected) (lot ∷ rest) =
      d.add (d.sub lot.total_value lot'.total_value) (taken affected rest)

  -- A lot that the first loop lets through.
  pub record IsEligible (lot : Position D) : Type 0 where
    pub valid : IsValid lot
    pub positive : d.less_than d.zero (available_value lot) ≡ true

  -- twice a value is within `s` of zero
  abbrev pub IsWithin : D → D → Type 0
  IsWithin left s = (d.add left left ≼ s) × (d.zero ≼ d.add (d.add left left) s)

  module _ (laws : DecimalLaws D) where
    open laws use {add_comm, add_assoc, add-zero, sub-add, is_positive_lem, lt_irrefl}

    pub Sales-IsValid :
        {clock : ℕ → ℕ} {remaining left : D} {lots affected : List (Position D)}
        → Sales clock remaining lots affected left
        → All IsValid lots
        → All IsValid affected
    Sales-IsValid (stop _) v = tt
    Sales-IsValid (sale more sold rest) v = (Sold-IsValid laws v.0 sold, Sales-IsValid rest v.1)

    pub Sales-balance :
        {clock : ℕ → ℕ} {remaining left : D} {lots affected : List (Position D)}
        → Sales clock remaining lots affected left
        → All IsValid lots
        → d.add left (taken affected lots) ≡ remaining
    Sales-balance {remaining} (stop _) v = add-zero remaining
    Sales-balance {remaining} {left} (sale {lot} {lot'} {rest} {affected} more sold sales) v =
        let cost = d.mul (units_sold remaining lot) lot.unit_price in
        cc (
          Sold-balance laws v.0 sold,
          Sales-balance sales v.1,
          add-add_swap laws left cost (taken affected rest),
          sub-add remaining cost,
        )

    -- the slack of all the lots, on top of `s`
    abbrev pub slack_from : D → List (Position D) → D
    slack_from s [] = s
    slack_from s (lot ∷ rest) = slack_from (d.add s (slack laws lot.unit_price)) rest

    available_sum-nonneg :
        (lots : List (Position D)) → All IsEligible lots → d.zero ≼ available_sum lots
    available_sum-nonneg [] e = lt_irrefl d.zero
    available_sum-nonneg (lot ∷ rest) e =
        add_nonneg laws _ _ (lt_asymm laws _ _ e.0.positive) (available_sum-nonneg rest e.1)

    pub price-pos : (lot : Position D) → IsEligible lot → d.less_than d.zero lot.unit_price ≡ true
    price-pos lot e = price_pos laws lot e.valid e.positive

    le-slack_from : (s : D) (lots : List (Position D)) → All IsEligible lots → s ≼ slack_from s lots
    le-slack_from s [] e = lt_irrefl s
    le-slack_from s (lot ∷ rest) e =
        le_trans laws _ _ _
          (le-add_right laws s _ (slack-nonneg laws lot.unit_price (price-pos lot e.0)))
          (le-slack_from (d.add s (slack laws lot.unit_price)) rest e.1)

    spent-le :
        (remaining s : D) (lots : List (Position D))
        → (lots ≡ []) ⊎ (d.is_positive remaining ≡ false)
        → Near laws remaining lots s
        → d.add remaining remaining ≼ s
    spent-le remaining s lots (inl none_left) near =
        let e : d.add (d.add d.zero d.zero) s ≡ s =
          ap (λ t. d.add t s) (add-zero d.zero) ∙ zero-add laws s in
        subst (λ t. d.add remaining remaining ≼ t) e
          (subst
            (λ ls.
              d.add remaining remaining ≼ d.add (d.add (available_sum ls) (available_sum ls)) s)
            none_left near.enough)
    spent-le remaining s lots (inr spent) near =
        le_trans laws _ _ _ (double_nonpos laws remaining (sym (is_positive_lem remaining) ∙ spent))
          near.slack_nonneg

    -- What is left over, doubled, lies within the slack of the lots on either side of zero.
    pub Sales-IsWithin :
        {clock : ℕ → ℕ} {remaining left : D} {lots affected : List (Position D)} (s : D)
        → Sales clock remaining lots affected left
        → All IsEligible lots
        → Near laws remaining lots s
        → IsWithin left (slack_from s lots)
    Sales-IsWithin {remaining} {lots} s (stop why) e near = (
      le_trans laws _ _ _ (spent-le remaining s lots why near) (le-slack_from s lots e),
      le_trans laws _ _ _ near.not_below (
          add-le-add laws _ _ _ _ (lt_irrefl (d.add remaining remaining)) (le-slack_from s lots e)),
    )
    Sales-IsWithin {remaining} s (sale {lot} {rest} more sold sales) e near =
        Sales-IsWithin (d.add s (slack laws lot.unit_price)) sales e.1 (
          sell-Near laws remaining s lot rest (price-pos lot e.0) (available_sum-nonneg rest e.1)
            near)
