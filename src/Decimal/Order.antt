-- ===== src/Decimal/Order.antt =====
-- Consequences of the laws: the order and the sums of decimals.
use spec_star_go.Prelude.{◌≡◌, true, false, sym, ap, ◌∙◌, arith, Bool-cases, ◌⊎◌, subst}
use spec_star_go.Decimal.{Decimal, ◌≼◌}
use spec_star_go.Decimal.Laws.{DecimalLaws}

module _ {D : Type 0} ⦃d : Decimal D⦄ (laws : DecimalLaws D) where
  open laws use {
    add_comm, add_assoc, add-zero, sub-add, add-sub, mul_comm, mul-add, zero-mul, min_lem,
    lt_irrefl, lt_trans, le_antisymm, lt-add, mul_pos,
  }
  open d use {zero, add, sub, mul, less_than}

  pub lt_asymm : (a b : D) → less_than a b ≡ true → less_than b a ≡ false
  lt_asymm a b h = ground (arith, lt_trans a b a, lt_irrefl a)

  pub le_trans : (a b c : D) → a ≼ b → b ≼ c → a ≼ c
  le_trans a b c p q =
      ground (arith, lt_trans c a b, lt_trans a b c, le_antisymm a b, le_antisymm b c)

  pub lt_of_lt-le : (a b c : D) → less_than a b ≡ true → b ≼ c → less_than a c ≡ true
  lt_of_lt-le a b c p q = ground (arith, lt_trans c a b, le_antisymm a c)

  pub lt_of_le-lt : (a b c : D) → a ≼ b → less_than b c ≡ true → less_than a c ≡ true
  lt_of_le-lt a b c p q = ground (arith, lt_trans b c a, le_antisymm a c)

  pub add-le-add : (a b c e : D) → a ≼ b → c ≼ e → add a c ≼ add b e
  add-le-add a b c e p q =
      le_trans (add a c) (add b c) (add b e) (lt-add b a c ∙ p)
        (cc (add_comm b c, add_comm b e, lt-add e c b))

  -- a difference, moved to the other side
  pub sub-le : (a b c : D) → a ≼ add b c → sub a c ≼ b
  sub-le a b c p = cc (lt-add b (sub a c) c, sub-add a c)

  pub le-sub : (a b c : D) → add a c ≼ b → a ≼ sub b c
  le-sub a b c p = cc (lt-add (sub b c) a c, sub-add b c)

  pub sub-le_iff : (a b c : D) → less_than b (sub a c) ≡ less_than (add b c) a
  sub-le_iff a b c = cc (lt-add b (sub a c) c, sub-add a c)

  pub lt-sub_iff : (a b c : D) → less_than (sub b c) a ≡ less_than b (add a c)
  lt-sub_iff a b c = cc (lt-add (sub b c) a c, sub-add b c)

  pub zero-add : (a : D) → add zero a ≡ a
  zero-add a = add_comm zero a ∙ add-zero a

  pub sub_unique : (a b c : D) → add a b ≡ c → a ≡ sub c b
  sub_unique a b c h = sym (add-sub a b) ∙ ap (λ t. sub t b) h

  pub sub_self : (a : D) → sub a a ≡ zero
  sub_self a = sym (sub_unique zero a a (zero-add a))

  pub mul-sub : (a b c : D) → mul (sub a b) c ≡ sub (mul a c) (mul b c)
  mul-sub a b c =
      sub_unique (mul (sub a b) c) (mul b c) (mul a c)
        (sym (mul-add (sub a b) b c) ∙ ap (λ t. mul t c) (sub-add a b))

  pub mul-zero : (a : D) → mul a zero ≡ zero
  mul-zero a = mul_comm a zero ∙ zero-mul a

  pub mul_nonneg : (a b : D) → zero ≼ a → zero ≼ b → zero ≼ mul a b
  mul_nonneg a b p q = ground (
    arith,
    mul_pos a b,
    le_antisymm a zero,
    le_antisymm b zero,
    zero-mul b,
    mul-zero a,
    lt_irrefl zero,
    lt_asymm zero (mul a b),
  )

  pub sub_nonneg : (a b : D) → b ≼ a → zero ≼ sub a b
  sub_nonneg a b p = cc (lt-sub_iff zero a b, zero-add b)

  pub mul-le-mul : (a b c : D) → zero ≼ c → a ≼ b → mul a c ≼ mul b c
  mul-le-mul a b c p q = cc (
    mul_nonneg (sub b a) c (sub_nonneg b a q) p,
    mul-sub b a c,
    lt-sub_iff zero (mul b c) (mul a c),
    zero-add (mul a c),
  )

  pub min-le_left : (a b : D) → d.min a b ≼ a
  min-le_left a b = rw min_lem (ground (arith, lt_irrefl a, lt_asymm b a))

  pub min-le_right : (a b : D) → d.min a b ≼ b
  min-le_right a b = rw min_lem (ground (arith, lt_irrefl b))

  pub add_exchange : (a b c e : D) → add (add a b) (add c e) ≡ add (add a c) (add b e)
  add_exchange a b c e =
      add_assoc a b (add c e)
      ∙ ap (add a) (sym (add_assoc b c e) ∙ ap (λ t. add t e) (add_comm b c) ∙ add_assoc c b e)
      ∙ sym (add_assoc a c (add b e))

  pub sub-add-sub : (a b c : D) → add (sub a b) (sub b c) ≡ sub a c
  sub-add-sub a b c =
      sub_unique (add (sub a b) (sub b c)) c a
        (add_assoc (sub a b) (sub b c) c ∙ ap (add (sub a b)) (sub-add b c) ∙ sub-add a b)

  -- subtracting twice is subtracting the sum
  pub sub-sub : (a b c : D) → sub (sub a b) c ≡ sub a (add b c)
  sub-sub a b c = sub_unique (sub (sub a b) c) (add b c) a (
      ap (add (sub (sub a b) c)) (add_comm b c)
      ∙ sym (add_assoc (sub (sub a b) c) c b)
      ∙ ap (λ t. add t b) (sub-add (sub a b) c)
      ∙ sub-add a b)

  pub sub_right_comm : (a b c : D) → sub (sub a b) c ≡ sub (sub a c) b
  sub_right_comm a b c = sub-sub a b c ∙ ap (sub a) (add_comm b c) ∙ sym (sub-sub a c b)

  pub add_cancel-sub : (a b c : D) → add (sub a b) (add b c) ≡ add a c
  add_cancel-sub a b c = sym (add_assoc (sub a b) b c) ∙ ap (λ t. add t c) (sub-add a b)

  -- a difference that is doubled on both sides
  pub double-add : (x y a b : D) → add x x ≼ a → add y y ≼ b → let s = add x y in add s s ≼ add a b
  double-add x y a b p q = rw (add_exchange x y x y) (add-le-add (add x x) a (add y y) b p q)

  pub double-mul : (x a c : D) → zero ≼ c → add x x ≼ a → let y = mul x c in add y y ≼ mul a c
  double-mul x a c p q = rw (← mul-add) (mul-le-mul (add x x) a c p q)

  pub sub-le_self : (a b : D) → zero ≼ b → sub a b ≼ a
  sub-le_self a b p =
      sub-le a a b (subst (λ t. t ≼ add a b) (add-zero a) (add-le-add a a zero b (lt_irrefl a) p))

  pub lt_cases : (a b : D) → (less_than a b ≡ true) ⊎ (b ≼ a)
  lt_cases a b = Bool-cases (less_than a b)

  pub sub-sub_self : (a b : D) → sub a (sub a b) ≡ b
  sub-sub_self a b = sym (sub_unique b (sub a b) a (add_comm b (sub a b) ∙ sub-add a b))

  pub add_nonneg : (a b : D) → zero ≼ a → zero ≼ b → zero ≼ add a b
  add_nonneg a b p q = subst (λ t. t ≼ add a b) (add-zero zero) (add-le-add zero a zero b p q)

  pub le-add_right : (a b : D) → zero ≼ b → a ≼ add a b
  le-add_right a b p = subst (λ t. t ≼ add a b) (add-zero a) (add-le-add a a zero b (lt_irrefl a) p)

  pub le_cancel : (a b c : D) → add a c ≼ add b c → a ≼ b
  le_cancel a b c h = sym (lt-add b a c) ∙ h

  pub le-add_left : (a b : D) → zero ≼ a → b ≼ add a b
  le-add_left a b p = subst (λ t. b ≼ t) (add_comm b a) (le-add_right b a p)

  pub sub-le-sub : (a b c : D) → a ≼ b → sub a c ≼ sub b c
  sub-le-sub a b c h = le-sub (sub a c) b c (subst (λ t. t ≼ b) (sym (sub-add a c)) h)

  -- opposite differences cancel
  pub sub-opposite : (a b : D) → add (sub a b) (sub b a) ≡ zero
  sub-opposite a b = sub-add-sub a b a ∙ sub_self a

  pub double-opposite : (a b : D) → add (add (sub a b) (sub a b)) (add (sub b a) (sub b a)) ≡ zero
  double-opposite a b =
      add_exchange (sub a b) (sub a b) (sub b a) (sub b a)
      ∙ ap (λ t. add t t) (sub-opposite a b)
      ∙ add-zero zero

  pub add-add_swap : (a b c : D) → add a (add b c) ≡ add (add a c) b
  add-add_swap a b c = ap (add a) (add_comm b c) ∙ sym (add_assoc a c b)

  pub double_nonpos : (a : D) → a ≼ zero → add a a ≼ zero
  double_nonpos a h = subst (λ t. add a a ≼ t) (add-zero zero) (add-le-add a zero a zero h h)
