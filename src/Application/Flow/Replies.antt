-- ===== src/Application/Flow/Replies.antt =====
-- The two forms of a reply.
use spec_star_go.Prelude.{ℕ, ◌≡◌, ◌⊎◌, List, [], ◌∷◌}
use spec_star_go.Domain.Errors.{Error}
use spec_star_go.Application.Flow.{Reply, success, failure}

-- the status is one of these
abbrev pub IsStatus : List ℕ → ℕ → Type 0
IsStatus [] s = ⊥
IsStatus (t ∷ ts) s = (s ≡ t) ⊎ IsStatus ts s

-- A reply either has a response, no error and the status of a success, or an error, no response and
-- the status of a failure.
pub data IsReply {R : Type 0} (successes failures : List ℕ) : Reply R → Type 0 where
  succeeded :
      (s : ℕ) (resp : R) → IsStatus successes s → IsReply successes failures (success s resp)
  failed : (s : ℕ) (e : Error) → IsStatus failures s → IsReply successes failures (failure s e)
