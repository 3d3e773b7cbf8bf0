-- ===== src/Platform/Logger/Laws.antt =====
-- The lines that the loggers of requests write, and the cold start among them.
use spec_star_go.Prelude.{String, Bool, true, false, List, [], ◌∷◌, map, ◌≡◌, refl, ap}
use spec_star_go.Prelude.Int.{ℤ}
use spec_star_go.Platform.Logger.{
  Attr, text, flag, number, Logger, Line, Record, Context, LoggerFactory, handle, with_attrs,
  new_logger_factory, from_context,
}

-- what a call of `FromContext` is given, and the record that is logged with its logger
pub record Call : Type 0 where
  pub ctx : Context
  pub trigger : String
  pub operation : String
  pub entry : Record

-- the lines of calls that follow each other
abbrev pub lines : List Call → LoggerFactory → List Line
lines [] f = []
lines (c ∷ cs) f =
    let (logger, f') = from_context c.ctx c.trigger c.operation f in
    handle c.ctx.span c.entry logger ∷ lines cs f'

-- the value of `cold_start` among the attributes of a line
abbrev pub is_cold : List (List String × Attr) → Bool
is_cold [] = false
is_cold ((groups, flag key value) ∷ rest) = value
is_cold ((groups, text key value) ∷ rest) = is_cold rest
is_cold ((groups, number key value) ∷ rest) = is_cold rest

abbrev pub says_cold : Line → Bool
says_cold l = is_cold l.attrs

abbrev pub base : (service : String) (level : ℤ) → Logger
base service level = (new_logger_factory service level).0.base

warm :
    (service : String) (level : ℤ) (cs : List Call)
    → map says_cold (lines cs (record { base = base service level; cold_start = false }))
      ≡ map (λ c. false) cs
unfolding from_context new_logger_factory handle with_attrs
warm service level [] = refl
warm service level (c ∷ cs) = ap (λ xs. false ∷ xs) (warm service level cs)

-- Of the lines that are logged with the loggers of a new factory, one for each request, the first
-- says that it is a cold start and no later one does.
pub cold_start_once :
    (service : String) (level : ℤ) (c : Call) (cs : List Call)
    → map says_cold (lines (c ∷ cs) (new_logger_factory service level).0)
      ≡ true ∷ map (λ c. false) cs
unfolding from_context new_logger_factory handle with_attrs
cold_start_once service level c cs = ap (λ xs. true ∷ xs) (warm service level cs)
