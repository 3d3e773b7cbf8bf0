-- ===== src/Decimal/Whole/Text.antt =====
-- Integers as decimal text, for the instance over the integers.
use Prim.Native.Nat.{◌/◌, ◌%◌}
use Prim.Native.Char.{Char, code}
use mathlib.Core.Option
use spec_star_go.Prelude.{
  ℕ, zero, suc, ◌+◌, ◌-◌, ◌*◌, ◌<◌, ◌≡◌, refl, Option, none, some, String, arith, ◌&&◌, leb, ◌==◌,
  if◌then◌else◌, Bool-cases, inl, inr, ◌∙◌, ap, true, false,
}
use spec_star_go.Prelude.Int.{ℤ, pos, negsuc, sub_ℕ}

digit : ℕ → Char
digit zero = "0"
digit (suc zero) = "1"
digit (suc (suc zero)) = "2"
digit (suc (suc (suc zero))) = "3"
digit (suc (suc (suc (suc zero)))) = "4"
digit (suc (suc (suc (suc (suc zero))))) = "5"
digit (suc (suc (suc (suc (suc (suc zero)))))) = "6"
digit (suc (suc (suc (suc (suc (suc (suc zero))))))) = "7"
digit (suc (suc (suc (suc (suc (suc (suc (suc zero)))))))) = "8"
digit _ = "9"

code-digit : (d : ℕ) → d < 10 → code (digit d) ≡ 48 + d
unfolding digit
code-digit zero h = refl
code-digit (suc zero) h = refl
code-digit (suc (suc zero)) h = refl
code-digit (suc (suc (suc zero))) h = refl
code-digit (suc (suc (suc (suc zero)))) h = refl
code-digit (suc (suc (suc (suc (suc zero))))) h = refl
code-digit (suc (suc (suc (suc (suc (suc zero)))))) h = refl
code-digit (suc (suc (suc (suc (suc (suc (suc zero))))))) h = refl
code-digit (suc (suc (suc (suc (suc (suc (suc (suc zero)))))))) h = refl
code-digit (suc (suc (suc (suc (suc (suc (suc (suc (suc zero))))))))) h = refl
code-digit (suc (suc (suc (suc (suc (suc (suc (suc (suc (suc n)))))))))) h = absurd (omega arith)

read : String → ℕ → Option ℕ
read String.[] n = some n
read (String.◌∷◌ c s) n =
    let rest = read s (n * 10 + (code c - 48)) in
    if leb 48 (code c) && leb (code c) 57 then rest else none

unfoldable pub read_number : String → Option ℕ
unfolding read
read_number String.[] = none
read_number (String.◌∷◌ c s) = read (String.◌∷◌ c s) 0

unfoldable pub read_whole : String → Option ℤ
read_whole String.[] = none
read_whole (String.◌∷◌ c s) =
    if code c == 45
    then Option.map (sub_ℕ 0) (read_number s)
    else Option.map pos (read_number (String.◌∷◌ c s))

unfoldable pub print_from : ℕ → ℕ → String → String
unfolding digit
print_from zero n acc = acc
print_from (suc f) n acc =
    let acc' = String.◌∷◌ (digit (n % 10)) acc in
    let rest = print_from f (n / 10) acc' in if n / 10 == 0 then acc' else rest

unfoldable pub print_whole : ℤ → String
print_whole (pos n) = print_from (suc n) n ""
print_whole (negsuc n) = String.◌∷◌ "-" (print_from (suc (suc n)) (suc n) "")

read-digit : (d m : ℕ) (s : String) → d < 10 → read (String.◌∷◌ (digit d) s) m ≡ read s (m * 10 + d)
unfolding read
read-digit d m s h =
    let t : (leb 48 (48 + d) && leb (48 + d) 57) ≡ true = ground arith in
    let e : m * 10 + (48 + d - 48) ≡ m * 10 + d = omega arith in rw (code-digit d h, t, e)

-- Reading back what was printed goes on with what follows it.
read-print_from : (f n : ℕ) (acc : String) → n < f → read (print_from f n acc) 0 ≡ read acc n
unfolding print_from
read-print_from zero n acc h = elim h [ ]
read-print_from (suc f) n acc h = elim (Bool-cases (n / 10 == 0)) [
  | inl last ↦ rw last (read-digit (n % 10) 0 acc (omega arith) ∙ ap (read acc) (ground arith))
  | inr more ↦ rw more (
      read-print_from f (n / 10) (String.◌∷◌ (digit (n % 10)) acc) (ground arith)
      ∙ read-digit (n % 10) (n / 10) acc (omega arith)
      ∙ ap (read acc) (omega arith))
]

-- What is printed begins with a digit.
print_from-digit :
    (f n : ℕ) (acc : String)
    → n < f
    → (d : ℕ) × (s : String) × (d < 10) × (print_from f n acc ≡ String.◌∷◌ (digit d) s)
unfolding print_from
print_from-digit zero n acc h = elim h [ ]
print_from-digit (suc f) n acc h = elim (Bool-cases (n / 10 == 0)) [
  | inl last ↦ (n % 10, acc, omega arith, rw last)
  | inr more ↦
      rw more (print_from-digit f (n / 10) (String.◌∷◌ (digit (n % 10)) acc) (ground arith))
]

read_whole-digit :
    (d : ℕ) (s t : String)
    → d < 10
    → s ≡ String.◌∷◌ (digit d) t
    → (read_number s ≡ read s 0) × (read_whole s ≡ Option.map pos (read_number s))
unfolding read_whole read_number
read_whole-digit d s t h e =
    let minus : (48 + d == 45) ≡ false = ground arith in
    rw e (refl, rw (code-digit d h) (rw minus refl))

print_laws :
    (f n : ℕ)
    → n < f
    → let s = print_from f n "" in (read_number s ≡ some n) × (read_whole s ≡ some (pos n))
print_laws f n h =
    let (d, t, small, e) = print_from-digit f n "" h in
    let (number, signed) = read_whole-digit d (print_from f n "") t small e in
    let back : read_number (print_from f n "") ≡ some n =
      number ∙ read-print_from f n "" h ∙ unfold read in refl in
    (back, signed ∙ ap (Option.map pos) back)

pub read_whole-print_whole : (a : ℤ) → read_whole (print_whole a) ≡ some a
unfolding print_whole
read_whole-print_whole (pos n) = (print_laws (suc n) n (omega arith)).1
read_whole-print_whole (negsuc n) =
    let back = (print_laws (suc (suc n)) (suc n) (omega arith)).0 in
    unfold read_whole in rw back (ground arith)
