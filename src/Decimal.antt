-- ===== src/Decimal.antt =====
-- The decimals of github.com/shopspring/decimal, which the repository imports: a parameter of the
-- model. A value stands for the number that a `decimal.Decimal` denotes, so that two values which
-- `Equal` accepts are one value (`String` prints them alike).
pub mod Laws
pub mod Order
pub mod Whole
use spec_star_go.Prelude.{ℕ, String, ◌≡◌, Bool, false, Option}

pub record Decimal (D : Type 0) : Type 0 where
  pub zero : D
  pub add : D → D → D
  pub sub : D → D → D
  pub mul : D → D → D
  -- `d.Div(d2)`, with `DivisionPrecision` (16) digits
  pub div : D → D → D
  -- `d.Round(places)`
  pub round : ℕ → D → D
  pub min : D → D → D
  pub less_than : D → D → Bool
  pub equal : D → D → Bool
  pub is_positive : D → Bool
  pub is_negative : D → Bool
  -- `decimal.NewFromString` and `d.String()`
  pub new_from_string : String → Option D
  pub to_string : D → String

infix 50 ◌≼◌
abbrev pub ◌≼◌ : {D : Type 0} ⦃d : Decimal D⦄ → D → D → Type 0
◌≼◌ ⦃d⦄ a b = d.less_than b a ≡ false
