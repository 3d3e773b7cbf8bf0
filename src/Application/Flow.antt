-- ===== src/Application/Flow.antt =====
-- A handler that may return early: each step goes on with a value or ends with the reply.
pub mod Ends
pub mod Replies
use spec_star_go.Prelude.{ℕ, String, Option, none, some, if◌then◌else◌}
use spec_star_go.Domain.Errors.{Error, wrap, message, is, not_found}
use spec_star_go.Domain.Effect.{Result, ok, err, Action, wrapped}
use spec_star_go.Domain.ProcessedCommand.{ProcessedCommand, new_processed_command}
use spec_star_go.Ports.{System}

-- the results `(*Response, int, error)` of `Execute`
pub record Reply (R : Type 0) : Type 0 where
  pub response : Option R
  pub status : ℕ
  pub error : Option Error

pub data Flow (R A : Type 0) : Type 0 where
  reply : Reply R → Flow R A
  next : A → Flow R A

module _ {R : Type 0} where
  abbrev pub success : ℕ → R → Reply R
  success status r = record { response = some r; status = status; error = none }

  abbrev pub failure : ℕ → Error → Reply R
  failure status e = record { response = none; status = status; error = some e }

  abbrev pub finish : {W : Type 0} → Flow R (Reply R) × W → Reply R × W
  finish (reply r, w) = (r, w)
  finish (next r, w) = (r, w)

  module _ {A : Type 0} where
    -- go on with the value, or return what the error gives
    abbrev pub handle : (Error → Reply R) → Result A → Flow R A
    handle f (ok a) = next a
    handle f (err e) = reply (f e)

    unfoldable pub call : {W : Type 0} → Action W A → (Error → Reply R) → W → Flow R A × W
    call m f w = let (r, w') = m w in (handle f r, w')

    -- go on with how the call ended
    unfoldable pub attempt : {W : Type 0} → Action W A → W → Flow R (Result A) × W
    attempt m w = let (r, w') = m w in (next r, w')

    unfoldable pub lift : {W : Type 0} → Flow R A → W → Flow R A × W
    lift m w = (m, w)

    -- a call of the system, which cannot fail
    unfoldable pub get : {W : Type 0} → (W → A × W) → W → Flow R A × W
    get m w = let (a, w') = m w in (next a, w')

  module _ {W A B : Type 0} where
    abbrev pub follow : Flow R A → (A → W → Flow R B × W) → W → Flow R B × W
    follow (reply r) f w = (reply r, w)
    follow (next a) f w = f a w

    infixl 5 ◌>>=◌ ◌>>◌
    -- opening this opens the steps too
    unfoldable pub ◌>>=◌ : (W → Flow R A × W) → (A → W → Flow R B × W) → W → Flow R B × W
    unfolding call attempt lift get
    ◌>>=◌ m f w = let (a, w') = m w in follow a f w'

    abbrev pub ◌>>◌ : (W → Flow R A × W) → (W → Flow R B × W) → W → Flow R B × W
    m >> n = m >>= λ _. n

-- a call whose error is wrapped, `fmt.Errorf("prefix: %w", err)`
abbrev pub wrap_call : {W A : Type 0} → String → Action W A → Action W A
wrap_call prefix m w = let (r, w') = m w in (wrapped (wrap prefix) r, w')

-- `domain.NewProcessedCommand`, with a fresh identifier and the time
abbrev pub make_command :
    {W : Type 0}
    → System W
    → (command_type order_id : String) (client : ℕ) (snapshot : String) → Action W ProcessedCommand
make_command system command_type order_id client snapshot w =
    let (id, w1) = system.new_uuid w in
    let (now, w2) = system.now w1 in
    (
      wrapped (wrap "new processed command")
          (new_processed_command id now command_type order_id client snapshot),
      w2,
    )

-- a lookup that fails: an unknown key is the client's error, anything else the server's
abbrev pub lookup_failure : {R : Type 0} → (missing lookup : String) → Error → Reply R
lookup_failure missing lookup e =
    if is e not_found then failure 422 (message missing) else failure 500 (wrap lookup e)
