-- ===== src/Application/Withdraw/Precision.antt =====
-- How far rounding takes one sale away from the value that is wanted.
use spec_star_go.Prelude.{◌≡◌, true, ap, ◌∙◌, subst, Bool-cases, inl, inr, List, [], ◌∷◌}
use spec_star_go.Decimal.{Decimal, ◌≼◌}
use spec_star_go.Decimal.Laws.{DecimalLaws}
use spec_star_go.Decimal.Order.{
  le_trans, add-le-add, sub-add-sub, double-add, min-le_left, add_nonneg, sub_self, mul_nonneg,
  lt_asymm, add_exchange, le_cancel, le-add_left, sub-le-sub, double-opposite,
}
use spec_star_go.Domain.Position.{Position, available_value}
use spec_star_go.Application.Withdraw.Lots.{units_sold}
use spec_star_go.Application.Withdraw.Sale.{slack, rounding_above, rounding_below}

module _ {D : Type 0} ⦃d : Decimal D⦄ where
  -- the available value of all the lots
  abbrev pub available_sum : List (Position D) → D
  available_sum [] = d.zero
  available_sum (lot ∷ rest) = d.add (available_value lot) (available_sum rest)

  module _ (laws : DecimalLaws D) where
    open laws use {add_comm, add_assoc, add-zero, min_lem, ulp, ulp_pos, lt_irrefl, sub-add}

    -- Twice what remains lies within `s` of what the lots can give, and of nothing below zero.
    pub record Near (remaining : D) (lots : List (Position D)) (s : D) : Type 0 where
      pub slack_nonneg : d.zero ≼ s
      pub enough :
          d.add remaining remaining ≼ d.add (d.add (available_sum lots) (available_sum lots)) s
      pub not_below : d.zero ≼ d.add (d.add remaining remaining) s

    pub slack-nonneg : (price : D) → d.less_than d.zero price ≡ true → d.zero ≼ slack laws price
    unfolding slack
    slack-nonneg price h =
        mul_nonneg laws _ price
          (add_nonneg laws (ulp 6) (ulp 16) (lt_asymm laws _ _ (ulp_pos 6))
            (lt_asymm laws _ _ (ulp_pos 16)))
          (lt_asymm laws _ _ h)

    regroup :
        (a rest s : D)
        → d.add (d.add (d.add a rest) (d.add a rest)) s
          ≡ d.add (d.add (d.add rest rest) s) (d.add a a)
    regroup a rest s =
        ap (λ t. d.add t s) (add_exchange laws a rest a rest)
        ∙ add_assoc (d.add a a) (d.add rest rest) s
        ∙ add_comm (d.add a a) (d.add (d.add rest rest) s)

    -- What is wanted beyond the value of a sale is wanted from the other lots.
    beyond :
        (remaining a rest s : D)
        → d.zero ≼ rest
        → d.zero ≼ s
        → d.add remaining remaining ≼ d.add (d.add (d.add a rest) (d.add a rest)) s
        → let e = d.sub remaining (d.min remaining a) in d.add e e ≼ d.add (d.add rest rest) s
    beyond remaining a rest s p q h = elim (Bool-cases (d.less_than a remaining)) [
      | inl more ↦
          rw (min_lem, more)
            (le_cancel laws _ _ (d.add a a) (
              rw (add_exchange laws (d.sub remaining a) (d.sub remaining a) a a, sub-add)
                (rw (← regroup a rest s) h)))
      | inr covered ↦
          rw (min_lem, covered, sub_self laws remaining, add-zero)
            (add_nonneg laws _ s (add_nonneg laws rest rest p p) q)
    ]

    -- A sale keeps what remains that near, with its own rounding added.
    pub sell-Near :
        (remaining s : D) (lot : Position D) (rest : List (Position D))
        → d.less_than d.zero lot.unit_price ≡ true
        → d.zero ≼ available_sum rest
        → Near remaining (lot ∷ rest) s
        → Near
            (d.sub remaining (d.mul (units_sold remaining lot) lot.unit_price))
            rest
            (d.add s (slack laws lot.unit_price))
    sell-Near remaining s lot rest price others near =
        let value = d.min remaining (available_value lot) in
        let cost = d.mul (units_sold remaining lot) lot.unit_price in
        let more = slack laws lot.unit_price in
        let more_nonneg = slack-nonneg lot.unit_price price in
        let wanted =
          beyond remaining (available_value lot) (available_sum rest) s others near.slack_nonneg
            near.enough in
        let low = sub-le-sub laws value remaining cost (min-le_left laws remaining _) in
        let err_above : d.add (d.sub cost value) (d.sub cost value) ≼ more =
          unfold units_sold in rounding_above laws value lot.unit_price price in
        let err_below : d.add (d.sub value cost) (d.sub value cost) ≼ more =
          unfold units_sold in rounding_below laws value lot.unit_price price in
        record {
          slack_nonneg = add_nonneg laws s more near.slack_nonneg more_nonneg;
          enough =
              rw (← add_assoc, ← sub-add-sub laws remaining value cost)
                (double-add laws _ _ _ _ wanted err_below);
          not_below =
              le_trans laws _ _ _
                (subst (λ t. t ≼ d.add (d.add (d.sub value cost) (d.sub value cost)) more)
                  (double-opposite laws value cost)
                  (add-le-add laws _ _ _ _ (lt_irrefl (d.add (d.sub value cost) (d.sub value cost)))
                    err_above))
                (add-le-add laws _ _ _ _ (add-le-add laws _ _ _ _ low low)
                  (le-add_left laws s more near.slack_nonneg));
        }
