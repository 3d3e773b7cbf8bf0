-- ===== src/Domain/Effect.antt =====
-- A Go call that returns a value or an error, on the state of the world outside the process. A
-- call gives back one of the two, and the world that it leaves behind in either case.
use spec_star_go.Prelude.{◌≡◌, refl, ◌⊎◌, inl, inr, arith}
use spec_star_go.Domain.Errors.{Error}

pub data Result {ℓ} (A : Type ℓ) : Type ℓ where
  ok : A → Result A
  err : Error → Result A

infixl 5 ◌>>=◌ ◌>>◌
abbrev pub ◌>>=◌ {ℓ κ} : {A : Type ℓ} {B : Type κ} → Result A → (A → Result B) → Result B
ok a >>= f = f a
err e >>= f = err e

abbrev pub ◌>>◌ {ℓ κ} : {A : Type ℓ} {B : Type κ} → Result A → Result B → Result B
m >> k = m >>= λ _. k

abbrev pub Action : Type 0 → Type 0 → Type 0
Action W A = W → Result A × W

-- what follows a call, by how it ended
abbrev pub continue : {W A B : Type 0} → Result A → (A → Action W B) → Action W B
continue (ok a) f w = f a w
continue (err e) f w = (err e, w)

abbrev pub bind : {W A B : Type 0} → Action W A → (A → Action W B) → Action W B
bind m f w = let (r, w') = m w in continue r f w'

-- `fmt.Errorf("prefix: %w", err)` on the error of a call
abbrev pub wrapped : {A : Type 0} → (Error → Error) → Result A → Result A
wrapped f (ok a) = ok a
wrapped f (err e) = err (f e)

-- To split on how a call ended and keep the equation.
pub Result-cases {ℓ} :
    {A : Type ℓ} (r : Result A) → ((a : A) × (r ≡ ok a)) ⊎ ((e : Error) × (r ≡ err e))
Result-cases (ok a) = inl (a, refl)
Result-cases (err e) = inr (e, refl)

continue-eq-ok :
    {W A B : Type 0} (r : Result A) (f : A → Action W B) {w w' : W} {b : B}
    → continue r f w ≡ (ok b, w')
    → (a : A) × (r ≡ ok a) × (f a w ≡ (ok b, w'))
continue-eq-ok (ok a) f h = (a, refl, h)
continue-eq-ok (err e) f h = ground arith

-- Both parts of a sequence that succeeded have succeeded.
pub bind-eq-ok :
    {W A B : Type 0} (m : Action W A) (f : A → Action W B) (w : W) {w' : W} {b : B}
    → bind m f w ≡ (ok b, w')
    → (a : A) × (w1 : W) × (m w ≡ (ok a, w1)) × (f a w1 ≡ (ok b, w'))
bind-eq-ok m f w h =
    let (a, e, rest) = continue-eq-ok (m w).0 f h in (a, (m w).1, ground arith, rest)

-- The same for a sequence without a world.
pub then-eq-ok {ℓ κ} :
    {A : Type ℓ} {B : Type κ} (r : Result A) (f : A → Result B) {b : B}
    → (r >>= f) ≡ ok b
    → (a : A) × (r ≡ ok a) × (f a ≡ ok b)
then-eq-ok (ok a) f h = (a, refl, h)
then-eq-ok (err e) f h = ground arith

pub ok-then {ℓ κ} :
    {A : Type ℓ} {B : Type κ} (r : Result A) (f : A → Result B) {a : A} {b : B}
    → r ≡ ok a
    → f a ≡ ok b
    → (r >>= f) ≡ ok b
ok-then r f h k = rw h k
