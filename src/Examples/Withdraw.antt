-- ===== src/Examples/Withdraw.antt =====
-- Concrete withdrawals from the two lots of the examples.
use spec_star_go.Prelude.{ℕ, ◌+◌, ◌≡◌, ◌↔◌, ◌⊎◌, refl, List, [], ◌∷◌, All, true}
use spec_star_go.Prelude.Int.{ℤ, pos, negsuc, ◌*ℤ◌, ◌+ℤ◌, ◌-ℤ◌}
use spec_star_go.Decimal.{◌≼◌}
use spec_star_go.Decimal.Whole.{whole, whole_laws}
use spec_star_go.Domain.Errors.{wrap, sentinel, not_found}
use spec_star_go.Domain.Effect.{ok, err}
use spec_star_go.Domain.Position.{Position, available_value, update_amount}
use spec_star_go.Domain.Position.Laws.{IsValid}
use spec_star_go.Application.Withdraw.Lots.{
  select, sell, units_sold, consume, insufficient, allocate,
}
use spec_star_go.Application.Withdraw.Overdraft.{sale_overdraws}
use spec_star_go.Application.Withdraw.Division.{other, allocate_never_divides_by_zero}
use spec_star_go.Application.Withdraw.Precision.{available_sum}
use spec_star_go.Application.Withdraw.Consume.{Sales}
use spec_star_go.Application.Withdraw.Sales.{taken, IsWithin, slack_from}
use spec_star_go.Application.Withdraw.Allocate.{eligible_lots, allocate_outcome}
use spec_star_go.Application.Withdraw.Books.{allocate_books}
use spec_star_go.Examples.Fixtures.{first_lot, second_lot}

abbrev lots : List (Position ℤ)
lots = first_lot ∷ second_lot ∷ []

abbrev clock : ℕ → ℕ
clock i = 300 + i

-- 25 takes the first lot and, rounded to a whole unit, one of the second
abbrev sold_first : Position ℤ
sold_first = record first_lot {
  amount = pos 0;
  total_value = pos 0;
  row_version = 2;
  updated_at = 300;
}

abbrev sold_second : Position ℤ
sold_second = record second_lot {
  amount = pos 2;
  total_value = pos 20;
  row_version = 2;
  updated_at = 301;
}

abbrev affected : List (Position ℤ)
affected = sold_first ∷ sold_second ∷ []

lots-IsValid : All IsValid lots
unfolding ◌*ℤ◌
lots-IsValid = (
  record {
    amount_nonneg = refl;
    unit_price_nonneg = refl;
    collateral_nonneg = refl;
    judiciary_nonneg = refl;
    total_derived = refl;
  },
  (
    record {
      amount_nonneg = refl;
      unit_price_nonneg = refl;
      collateral_nonneg = refl;
      judiciary_nonneg = refl;
      total_derived = refl;
    },
    tt,
  ),
)

allocated : allocate clock (pos 25) lots ≡ ok affected
unfolding allocate select available_value ◌-ℤ◌ ◌+ℤ◌ consume sell update_amount units_sold ◌*ℤ◌
allocated = refl

allocate_books_example :
    let eligible = eligible_lots lots in
    (left : ℤ) × Sales clock (pos 25) eligible affected left
    × All IsValid affected
    × (left +ℤ taken affected eligible ≡ pos 25)
    × IsWithin left (slack_from whole_laws (pos 0) eligible)
allocate_books_example =
    allocate_books whole_laws clock (pos 25) lots affected lots-IsValid refl allocated

allocate_outcome_example :
    let eligible = eligible_lots lots in
    let held = available_sum eligible in
    ((lots ≡ [])
      × (allocate clock (pos 25) lots ≡ err (wrap "no positions found" (sentinel not_found))))
    ⊎ ((whole.less_than held (pos 25) ≡ true)
        × (allocate clock (pos 25) lots ≡ err (insufficient held (pos 25))))
    ⊎ ((pos 25 ≼ held) × ((sold : List (Position ℤ)) × (allocate clock (pos 25) lots ≡ ok sold)))
unfolding available_value ◌-ℤ◌
allocate_outcome_example =
    allocate_outcome whole_laws clock (pos 25) lots lots-IsValid (refl, (refl, tt))

allocate_never_divides_by_zero_example :
    allocate ⦃d = other (pos 7)⦄ clock (pos 25) lots ≡ allocate clock (pos 25) lots
allocate_never_divides_by_zero_example =
    allocate_never_divides_by_zero (pos 7) whole_laws clock (pos 25) lots lots-IsValid

-- 5 of the 20 are pledged; the desired 15 rounds up to two units, which cost 20
abbrev pledged : Position ℤ
pledged = record first_lot { collateral_value = pos 5 }

abbrev overdrawn : Position ℤ
overdrawn = record pledged {
  amount = pos 0;
  total_value = pos 0;
  row_version = 2;
  updated_at = 300;
}

pledged-IsValid : IsValid pledged
unfolding ◌*ℤ◌
pledged-IsValid = record {
  amount_nonneg = refl;
  unit_price_nonneg = refl;
  collateral_nonneg = refl;
  judiciary_nonneg = refl;
  total_derived = refl;
}

oversold : sell 300 (pos 15) pledged ≡ ok (overdrawn, negsuc 4)
unfolding available_value ◌-ℤ◌ ◌+ℤ◌ sell update_amount units_sold ◌*ℤ◌
oversold = refl

sale_overdraws_example :
    let free = available_value pledged in
    let cost = whole.round 6 (whole.div (whole.min (pos 15) free) (pos 10)) *ℤ pos 10 in
    let lack = pos 0 -ℤ available_value overdrawn in
    ((whole.is_negative (available_value overdrawn) ≡ true) ↔ (whole.less_than free cost ≡ true))
    × (lack +ℤ lack ≼ (whole_laws.ulp 6 +ℤ whole_laws.ulp 16) *ℤ pos 10)
unfolding available_value ◌-ℤ◌
sale_overdraws_example =
    sale_overdraws whole_laws 300 (pos 15) (negsuc 4) pledged overdrawn pledged-IsValid refl
      oversold
