-- ===== src/Application/Withdraw/Lots.antt =====
-- The two loops of `WithdrawService.Execute` over the lots: which are eligible, and how many units
-- of each are sold. `clock` lists the readings of `time.Now()` from here on.
use spec_star_go.Prelude.{ℕ, suc, true, false, List, [], ◌∷◌, ◌++◌, Bool, if◌then◌else◌}
use Prim.Native.String.{◌++◌ as ◌++ₛ◌}
use spec_star_go.Decimal.{Decimal}
use spec_star_go.Domain.Errors.{Error, wrap, sentinel, not_found, insufficient_position}
use spec_star_go.Domain.Effect.{Result, ok, err, ◌>>=◌, wrapped}
use spec_star_go.Domain.Position.{Position, available_value, update_amount}

abbrev is_empty {ℓ} : {A : Type ℓ} → List A → Bool
is_empty [] = true
is_empty (x ∷ xs) = false

module _ {D : Type 0} ⦃d : Decimal D⦄ where
  -- `eligible` and `totalAvailable`, with what the loop has gathered so far
  unfoldable pub select : List (Position D) → List (Position D) → D → List (Position D) × D
  select [] eligible total_available = (eligible, total_available)
  select (p ∷ rest) eligible total_available = elim (d.is_positive (available_value p)) [
    | true ↦ select rest (eligible ++ p ∷ []) (d.add total_available (available_value p))
    | false ↦ select rest eligible total_available
  ]

  -- the units of a lot that cover `remaining`, or all that is available
  unfoldable pub units_sold : D → Position D → D
  units_sold remaining lot =
      let value_from_lot = d.min remaining (available_value lot) in
      d.round 6 (d.div value_from_lot lot.unit_price)

  -- one round of the loop: the updated lot and what remains
  unfoldable pub sell : ℕ → D → Position D → Result (Position D × D)
  sell now remaining lot = do
    let units = units_sold remaining lot
    let actual_value_consumed = d.mul units lot.unit_price
    lot' ← wrapped (wrap "update amount") (update_amount now (d.sub lot.amount units) lot)
    ok (lot', d.sub remaining actual_value_consumed)

  -- the loop; the result is `affected` and the final `remaining`
  unfoldable pub consume :
      (ℕ → ℕ) → D → List (Position D) → List (Position D) → Result (List (Position D) × D)
  consume clock remaining affected [] = ok (affected, remaining)
  consume clock remaining affected (lot ∷ rest) = elim (d.is_positive remaining) [
    | true ↦ sell (clock 0) remaining lot >>= λ r.
        consume (λ i. clock (suc i)) r.1 (affected ++ r.0 ∷ []) rest
    | false ↦ ok (affected, remaining)
  ]

  -- `fmt.Errorf("total available %s less than desired %s: %w", …)`
  abbrev pub insufficient : D → D → Error
  insufficient total_available desired =
      wrap
        ("total available "
          ++ₛ d.to_string total_available
          ++ₛ " less than desired "
          ++ₛ d.to_string desired)
        (sentinel insufficient_position)

  -- From the positions that were found to the ones that change: the checks and both loops.
  unfoldable pub allocate : (ℕ → ℕ) → D → List (Position D) → Result (List (Position D))
  allocate clock desired positions =
      if is_empty positions
      then err (wrap "no positions found" (sentinel not_found))
      else let (eligible, total_available) = select positions [] d.zero in
        if d.less_than total_available desired
        then err (insufficient total_available desired)
        else consume clock desired [] eligible >>= λ r. ok r.0
