-- ===== src/Decimal/Whole.antt =====
-- The laws can be met: decimals with no fractional digits, over the integers. A quotient goes to the
-- nearest integer.
pub mod Text
use Prim.Native.Nat.{◌/◌}
use spec_star_go.Prelude.{
  ℕ, suc, ◌+◌, ◌*◌, ◌≤◌, ◌<◌, ◌≡◌, refl, ap, Bool, true, false, arith, if◌then◌else◌,
}
use spec_star_go.Prelude.Int.{
  ℤ, pos, negsuc, pos_part, neg_part, sub_ℕ, ◌+ℤ◌, ◌-ℤ◌, ◌*ℤ◌, ltb_ℤ, int_laws, +ℤ_parts,
  eq_of_parts,
}
use spec_star_go.Decimal.{Decimal}
use spec_star_go.Decimal.Laws.{DecimalLaws}
use Text.{read_whole, print_whole, read_whole-print_whole}

-- the integer nearest to n / b
abbrev nearest : ℕ → ℕ → ℕ
nearest n b = (2 * n + b) / (2 * b)

abbrev div_ℤ : ℤ → ℤ → ℤ
div_ℤ a (negsuc b) = pos 0
div_ℤ (pos n) (pos b) = pos (nearest n b)
div_ℤ (negsuc n) (pos b) = sub_ℕ 0 (nearest (suc n) b)

abbrev equal_ℤ : ℤ → ℤ → Bool
equal_ℤ a b = if ltb_ℤ a b then false else if ltb_ℤ b a then false else true

instance abbrev pub whole : Decimal ℤ
whole = record {
  zero = pos 0;
  add = ◌+ℤ◌;
  sub = ◌-ℤ◌;
  mul = ◌*ℤ◌;
  div = div_ℤ;
  round = λ n a. a;
  min = λ a b. if ltb_ℤ b a then b else a;
  less_than = ltb_ℤ;
  equal = equal_ℤ;
  is_positive = λ a. ltb_ℤ (pos 0) a;
  is_negative = λ a. ltb_ℤ a (pos 0);
  new_from_string = read_whole;
  to_string = print_whole;
}

*ℤ_parts :
    (a b : ℤ)
    → pos_part (a *ℤ b) + (pos_part a * neg_part b + neg_part a * pos_part b)
      ≡ neg_part (a *ℤ b) + (pos_part a * pos_part b + neg_part a * neg_part b)
unfolding ◌*ℤ◌
*ℤ_parts a b = ground arith

mul-add : (a b c : ℤ) → (a +ℤ b) *ℤ c ≡ a *ℤ c +ℤ b *ℤ c
mul-add a b c = eq_of_parts _ _ (
    omega (
      int_laws,
      *ℤ_parts (a +ℤ b) c,
      *ℤ_parts a c,
      *ℤ_parts b c,
      ap (λ (t : ℕ). t * pos_part c) (+ℤ_parts a b),
      ap (λ (t : ℕ). t * neg_part c) (+ℤ_parts a b),
    ))

mul_comm : (a b : ℤ) → a *ℤ b ≡ b *ℤ a
unfolding ◌*ℤ◌
mul_comm a b = ground arith

mul_pos :
    (a b : ℤ) → ltb_ℤ (pos 0) a ≡ true → ltb_ℤ (pos 0) b ≡ true → ltb_ℤ (pos 0) (a *ℤ b) ≡ true
unfolding ◌*ℤ◌
mul_pos (pos (suc a)) (pos (suc b)) p q = ground arith
mul_pos a b p q = ground arith

nearest_above : (n b : ℕ) → 0 < b → 2 * (nearest n b * b) ≤ 2 * n + b
nearest_above n b h = grind arith

nearest_below : (n b : ℕ) → 0 < b → 2 * n ≤ 2 * (nearest n b * b) + b
nearest_below n b h = grind arith

div_above :
    (a b : ℤ)
    → ltb_ℤ (pos 0) b ≡ true
    → let e = div_ℤ a b *ℤ b -ℤ a in ltb_ℤ (pos 1 *ℤ b) (e +ℤ e) ≡ false
unfolding ◌*ℤ◌ ◌+ℤ◌ ◌-ℤ◌
div_above (pos n) (pos b) h = ground (arith, nearest_above n b)
div_above (negsuc n) (pos b) h = ground (arith, nearest_below (suc n) b)
div_above a (negsuc b) h = ground arith

div_below :
    (a b : ℤ)
    → ltb_ℤ (pos 0) b ≡ true
    → let e = a -ℤ div_ℤ a b *ℤ b in ltb_ℤ (pos 1 *ℤ b) (e +ℤ e) ≡ false
unfolding ◌*ℤ◌ ◌+ℤ◌ ◌-ℤ◌
div_below (pos n) (pos b) h = ground (arith, nearest_below n b)
div_below (negsuc n) (pos b) h = ground (arith, nearest_above (suc n) b)
div_below a (negsuc b) h = ground arith

nearest-le : (n b c : ℕ) → 0 < b → n ≤ c * b → nearest n b ≤ c
nearest-le n b c p h = grind arith

le-nearest : (n b c : ℕ) → 0 < b → c * b ≤ n → c ≤ nearest n b
le-nearest n b c p h = grind arith

div-le :
    (a b c : ℤ) → ltb_ℤ (pos 0) b ≡ true → ltb_ℤ (c *ℤ b) a ≡ false → ltb_ℤ c (div_ℤ a b) ≡ false
unfolding ◌*ℤ◌
div-le (pos n) (pos b) (pos c) p h = ground (arith, nearest-le n b c)
div-le (pos n) (pos b) (negsuc c) p h = grind arith
div-le (negsuc n) (pos b) (pos c) p h = ground arith
div-le (negsuc n) (pos b) (negsuc c) p h = ground (arith, le-nearest (suc n) b (suc c))
div-le a (negsuc b) c p h = ground arith

le-div :
    (a b c : ℤ) → ltb_ℤ (pos 0) b ≡ true → ltb_ℤ a (c *ℤ b) ≡ false → ltb_ℤ (div_ℤ a b) c ≡ false
unfolding ◌*ℤ◌
le-div (pos n) (pos b) (pos c) p h = ground (arith, le-nearest n b c)
le-div (pos n) (pos b) (negsuc c) p h = ground arith
le-div (negsuc n) (pos b) (pos c) p h = grind arith
le-div (negsuc n) (pos b) (negsuc c) p h = ground (arith, nearest-le (suc n) b (suc c))
le-div a (negsuc b) c p h = ground arith

lt_trans : (a b c : ℤ) → ltb_ℤ a b ≡ true → ltb_ℤ b c ≡ true → ltb_ℤ a c ≡ true
lt_trans a b c p q = ground arith

pub whole_laws : DecimalLaws ℤ
whole_laws = record {
  add_comm = λ a b. omega int_laws;
  add_assoc = λ a b c. omega int_laws;
  add-zero = λ a. omega int_laws;
  sub-add = λ a b. omega int_laws;
  add-sub = λ a b. omega int_laws;
  mul_comm = mul_comm;
  mul-add = mul-add;
  zero-mul = λ a. unfold ◌*ℤ◌ in ground arith;
  equal_iff = λ a b. ground arith;
  is_positive_lem = λ a. refl;
  is_negative_lem = λ a. refl;
  min_lem = λ a b. refl;
  lt_irrefl = λ a. ground arith;
  lt_trans = lt_trans;
  le_antisymm = λ a b p q. ground arith;
  lt-add = λ a b c. ground (arith, +ℤ_parts a c, +ℤ_parts b c);
  mul_pos = mul_pos;
  ulp = λ n. pos 1;
  ulp_pos = λ n. refl;
  round_above = λ n a. unfold ◌+ℤ◌ ◌-ℤ◌ in ground arith;
  round_below = λ n a. unfold ◌+ℤ◌ ◌-ℤ◌ in ground arith;
  round-zero = λ n. refl;
  round_mono = λ n a b p. p;
  round_finer = λ m n a h p. refl;
  div_above = div_above;
  div_below = div_below;
  div-le = λ a b c p r h. div-le a b c p h;
  le-div = λ a b c p r h. le-div a b c p h;
  new_from_string-to_string = read_whole-print_whole;
}
