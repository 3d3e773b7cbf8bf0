-- ===== src/Decimal/Laws.antt =====
-- What the documentation of github.com/shopspring/decimal says of the operations: sums, differences
-- and products are exact, `Round` goes to the nearest value with that many digits, and `Div` rounds
-- the quotient to 16 digits.
use spec_star_go.Prelude.{ℕ, ◌≡◌, ◌≤◌, ◌↔◌, true, if◌then◌else◌, some}
use spec_star_go.Decimal.{Decimal, ◌≼◌}

pub record DecimalLaws (D : Type 0) ⦃d : Decimal D⦄ : Type 0 where
  pub add_comm : (a b : D) → d.add a b ≡ d.add b a
  pub add_assoc : (a b c : D) → d.add (d.add a b) c ≡ d.add a (d.add b c)
  pub add-zero : (a : D) → d.add a d.zero ≡ a
  pub sub-add : (a b : D) → d.add (d.sub a b) b ≡ a
  pub add-sub : (a b : D) → d.sub (d.add a b) b ≡ a
  pub mul_comm : (a b : D) → d.mul a b ≡ d.mul b a
  pub mul-add : (a b c : D) → d.mul (d.add a b) c ≡ d.add (d.mul a c) (d.mul b c)
  pub zero-mul : (a : D) → d.mul d.zero a ≡ d.zero
  pub equal_iff : (a b : D) → (d.equal a b ≡ true) ↔ (a ≡ b)
  pub is_positive_lem : (a : D) → d.is_positive a ≡ d.less_than d.zero a
  pub is_negative_lem : (a : D) → d.is_negative a ≡ d.less_than a d.zero
  pub min_lem : (a b : D) → d.min a b ≡ (if d.less_than b a then b else a)
  pub lt_irrefl : (a : D) → a ≼ a
  pub lt_trans :
      (a b c : D) → d.less_than a b ≡ true → d.less_than b c ≡ true → d.less_than a c ≡ true
  pub le_antisymm : (a b : D) → a ≼ b → b ≼ a → a ≡ b
  pub lt-add : (a b c : D) → d.less_than (d.add a c) (d.add b c) ≡ d.less_than a b
  pub mul_pos :
      (a b : D)
      → d.less_than d.zero a ≡ true
      → d.less_than d.zero b ≡ true
      → d.less_than d.zero (d.mul a b) ≡ true
  -- one unit of the last of so many fractional digits
  pub ulp : ℕ → D
  pub ulp_pos : (n : ℕ) → d.less_than d.zero (ulp n) ≡ true
  -- twice the rounding error is at most one unit
  pub round_above : (n : ℕ) (a : D) → let e = d.sub (d.round n a) a in d.add e e ≼ ulp n
  pub round_below : (n : ℕ) (a : D) → let e = d.sub a (d.round n a) in d.add e e ≼ ulp n
  pub round-zero : (n : ℕ) → d.round n d.zero ≡ d.zero
  pub round_mono : (n : ℕ) (a b : D) → a ≼ b → d.round n a ≼ d.round n b
  -- a value with `m` digits has `n` digits
  pub round_finer : (m n : ℕ) (a : D) → m ≤ n → d.round m a ≡ a → d.round n a ≡ a
  pub div_above :
      (a b : D)
      → d.less_than d.zero b ≡ true
      → let e = d.sub (d.mul (d.div a b) b) a in d.add e e ≼ d.mul (ulp 16) b
  pub div_below :
      (a b : D)
      → d.less_than d.zero b ≡ true
      → let e = d.sub a (d.mul (d.div a b) b) in d.add e e ≼ d.mul (ulp 16) b
  -- the rounded quotient does not pass a bound that has 16 digits
  pub div-le :
      (a b c : D) → d.less_than d.zero b ≡ true → d.round 16 c ≡ c → a ≼ d.mul c b → d.div a b ≼ c
  pub le-div :
      (a b c : D) → d.less_than d.zero b ≡ true → d.round 16 c ≡ c → d.mul c b ≼ a → c ≼ d.div a b
  pub new_from_string-to_string : (a : D) → d.new_from_string (d.to_string a) ≡ some a
