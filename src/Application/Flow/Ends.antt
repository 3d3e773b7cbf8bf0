-- ===== src/Application/Flow/Ends.antt =====
-- Postconditions of handlers that may return early: one rule for each kind of step.
use spec_star_go.Prelude.{◌≡◌, refl}
use spec_star_go.Domain.Errors.{Error}
use spec_star_go.Domain.Effect.{Result, ok, err, Action}
use spec_star_go.Application.Flow.{
  Reply, Flow, reply, next, finish, follow, handle, call, lift, get, attempt, ◌>>=◌,
}

module _ {W R : Type 0} where
  abbrev pub Post : {A : Type 0} → (Reply R → W → Type 0) → (A → W → Type 0) → Flow R A × W → Type 0
  Post P Q (reply r, w) = P r w
  Post P Q (next a, w) = Q a w

  -- From a world with `I` an early reply satisfies `P`, and a value to go on with satisfies `Q`.
  pub record Ends {A : Type 0} (I : W → Type 0) (P : Reply R → W → Type 0) (Q : A → W → Type 0)
      (m : W → Flow R A × W) : Type 0 where
    pub at : (w : W) → I w → Post P Q (m w)

  handled :
      {A : Type 0} (P : Reply R → W → Type 0) (Q : A → W → Type 0) (f : Error → Reply R)
      (r : Result A) (w : W)
      → ((a : A) → r ≡ ok a → Q a w)
      → ((e : Error) → r ≡ err e → P (f e) w)
      → Post P Q (handle f r, w)
  handled P Q f (ok a) w good bad = good a refl
  handled P Q f (err e) w good bad = bad e refl

  followed :
      {A B : Type 0} (P : Reply R → W → Type 0) (Q : A → W → Type 0) (T : B → W → Type 0)
      (s : Flow R A) (k : A → W → Flow R B × W) (w : W)
      → Post P Q (s, w)
      → ((a : A) → Q a w → Post P T (k a w))
      → Post P T (follow s k w)
  followed P Q T (reply r) k w p rest = p
  followed P Q T (next a) k w p rest = rest a p

  finished :
      (P : Reply R → W → Type 0) (s : Flow R (Reply R) × W)
      → Post P P s
      → let (r, w) = finish s in P r w
  finished P (reply r, w) p = p
  finished P (next r, w) p = p

  module _ {A : Type 0} {I : W → Type 0} {P : Reply R → W → Type 0} where
    pub Ends-attempt :
        {Q : Result A → W → Type 0} (m : Action W A)
        → ((w : W) → I w → let (r, w') = m w in Q r w')
        → Ends I P Q (attempt m)
    unfolding attempt
    Ends-attempt m h = record { at = h }

    pub Ends-lift_flow :
        {Q : A → W → Type 0} (m : Flow R A)
        → ((w : W) → I w → Post P Q (m, w))
        → Ends I P Q (lift m)
    unfolding lift
    Ends-lift_flow m h = record { at = h }

    pub Ends-get :
        {Q : A → W → Type 0} (m : W → A × W)
        → ((w : W) → I w → let (a, w') = m w in Q a w')
        → Ends I P Q (get m)
    unfolding get
    Ends-get m h = record { at = h }

    pub Ends-call :
        {Q : A → W → Type 0} (m : Action W A) (f : Error → Reply R)
        → ((w : W) (a : A) → I w → (m w).0 ≡ ok a → Q a (m w).1)
        → ((w : W) (e : Error) → I w → (m w).0 ≡ err e → P (f e) (m w).1)
        → Ends I P Q (call m f)
    unfolding call
    Ends-call {Q} m f good bad = record {
      at = λ w i. handled P Q f (m w).0 (m w).1 (λ a e. good w a i e) (λ e h. bad w e i h);
    }

  module _ {A B : Type 0} {I : W → Type 0} {P : Reply R → W → Type 0} {T : B → W → Type 0} where
    -- the rest may use that the check passed
    pub Ends-lift :
        (f : Error → Reply R) (r : Result A) (k : A → W → Flow R B × W)
        → ((e : Error) (w : W) → r ≡ err e → I w → P (f e) w)
        → ((a : A) → r ≡ ok a → Ends I P T (k a))
        → Ends I P T (lift (handle f r) >>= k)
    unfolding ◌>>=◌
    Ends-lift f (ok a) k bad good = record { at = (good a refl).at }
    Ends-lift f (err e) k bad good = record { at = λ w i. bad e w refl i }

    -- what holds after the first step is what the rest may use
    pub Ends-bind :
        {Q : A → W → Type 0} (m : W → Flow R A × W) (k : A → W → Flow R B × W)
        → Ends I P Q m
        → ((a : A) → Ends (Q a) P T (k a))
        → Ends I P T (m >>= k)
    unfolding ◌>>=◌
    Ends-bind {Q} m k first rest = record {
      at = λ w i.
          let (s, w') = m w in followed P Q T s k w' (first.at w i) (λ a q. (rest a).at w' q);
    }

  pub Ends-finish :
      {I : W → Type 0} {P : Reply R → W → Type 0} (m : W → Flow R (Reply R) × W)
      → Ends I P P m
      → (w : W) → I w
      → let (r, w') = finish (m w) in P r w'
  Ends-finish {P} m ends w i = finished P (m w) (ends.at w i)
