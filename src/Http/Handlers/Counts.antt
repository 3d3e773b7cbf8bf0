-- ===== src/Http/Handlers/Counts.antt =====
-- The counter of commands, over the requests that a process serves.
use spec_star_go.Prelude.{
  ℕ, String, ◌≡◌, refl, sym, ◌∙◌, inl, inr, Option-cases, List, [], ◌∷◌, ◌++◌, map, Option, none,
  some,
}
use mathlib.Core.List.{append_assoc, append-nil}
use spec_star_go.Domain.Errors.{Error}
use spec_star_go.Application.Flow.{Reply}
use spec_star_go.Platform.Logger.{Line, Span, Logger}
use spec_star_go.Http.Observation.{
  Event, counted, logged, Process, failed, succeeded, log_terminal_error, record_command_metrics,
}
use spec_star_go.Http.Handlers.{deposit_success, show_deposit, show_withdraw}
use spec_star_go.Http.Handlers.Calls.{
  project, SkipsSpans, Command, deposit, withdraw, Call, Server, command_of, serve_call,
  serve_calls, shown, after, serve_call-Shows,
}

abbrev count_of : Event → Option (String × String)
count_of (counted command outcome) = some (command, outcome)
count_of _ = none

-- the commands that were counted, with their outcomes
abbrev pub counts : List Event → List (String × String)
counts = project count_of

count_of-SkipsSpans : SkipsSpans count_of
count_of-SkipsSpans = record {
  skips_started = λ name. refl;
  skips_attributes = λ attrs. refl;
  skips_ended = refl;
}

-- the outcome of a reply: "failed" for an error, and for a success that of the status
abbrev pub outcome : {R : Type 0} → (ℕ → String) → Reply R → String
outcome success r = elim r.error [ some e ↦ "failed" | none ↦ success r.status ]

counts-logged : (ls : List Line) (es : List Event) → counts (map logged ls ++ es) ≡ counts es
counts-logged [] es = refl
counts-logged (l ∷ ls) es = counts-logged ls es

counts-failed :
    (command : String) (span : Span) (logger : Logger) (elapsed status : ℕ) (e : Error)
    → counts (failed command span logger elapsed status e) ≡ (command, "failed") ∷ []
unfolding failed record_command_metrics
counts-failed command span logger elapsed status e =
    counts-logged (log_terminal_error span logger status e) _

counts-show_deposit :
    {R : Type 0} (span : Span) (logger : Logger) (elapsed : ℕ) (r : Reply R)
    → counts (show_deposit span logger elapsed r) ≡ ("deposit", outcome deposit_success r) ∷ []
unfolding show_deposit succeeded record_command_metrics
counts-show_deposit span logger elapsed r = elim (Option-cases r.error) [
  | inl h ↦ rw (h, show_deposit) refl
  | inr (e, h) ↦ rw (h, show_deposit) (counts-failed "deposit" span logger elapsed r.status e)
]

counts-show_withdraw :
    {R : Type 0} (span : Span) (logger : Logger) (elapsed : ℕ) (r : Reply R)
    → counts (show_withdraw span logger elapsed r)
      ≡ ("withdraw", outcome (λ status. "success") r) ∷ []
unfolding show_withdraw succeeded record_command_metrics
counts-show_withdraw span logger elapsed r = elim (Option-cases r.error) [
  | inl h ↦ rw (h, show_withdraw) refl
  | inr (e, h) ↦ rw (h, show_withdraw) (counts-failed "withdraw" span logger elapsed r.status e)
]

module _ {W Q R P S : Type 0} (server : Server W Q R P S) where
  open server use {execute_deposit, execute_withdraw}

  -- the outcome of a command, and the outside after it
  abbrev pub run : Option (Command Q P) → W → List (String × String) × W
  run none w = ([], w)
  run (some (deposit q)) w =
      let (r, w') = execute_deposit q w in (("deposit", outcome deposit_success r) ∷ [], w')
  run (some (withdraw q)) w =
      let (r, w') = execute_withdraw q w in (("withdraw", outcome (λ status. "success") r) ∷ [], w')

  abbrev pub run_all : List Call → W → List (String × String) × W
  run_all [] w = ([], w)
  run_all (c ∷ cs) w =
      let (first, w') = run (command_of server c.req) w in
      let (rest, w'') = run_all cs w' in (first ++ rest, w'')

  after-run : (o : Option (Command Q P)) (w : W) → after server o w ≡ (run o w).1
  after-run none w = refl
  after-run (some (deposit q)) w = refl
  after-run (some (withdraw q)) w = refl

  counts-shown :
      (c : Call) (o : Option (Command Q P)) (s : Process W)
      → counts (shown server c o s) ≡ (run o s.world).0
  counts-shown c none s = refl
  counts-shown c (some (deposit q)) s = counts-show_deposit _ _ _ (execute_deposit q s.world).0
  counts-shown c (some (withdraw q)) s = counts-show_withdraw _ _ _ (execute_withdraw q s.world).0

  -- A process that serves any sequence of requests counts each command once, with the outcome of
  -- its reply, in the order of the requests, and counts nothing for a request that carries no
  -- command, because of its path, its method or its body; the commands run one after the other on
  -- the outside, and nothing else touches it.
  pub counts-serve_calls :
      (cs : List Call) (s : Process W)
      → (counts (serve_calls server cs s).events ≡ counts s.events ++ (run_all cs s.world).0)
        × ((serve_calls server cs s).world ≡ (run_all cs s.world).1)
  counts-serve_calls [] s = (sym (append-nil _), refl)
  counts-serve_calls (c ∷ cs) s =
      let o = command_of server c.req in
      let (first, moved) = serve_call-Shows server count_of count_of-SkipsSpans c s in
      let world_first = moved ∙ after-run o s.world in
      let (rest, world_rest) = counts-serve_calls cs (serve_call server c s).1 in
      (
        rest ∙ rw (first, world_first, counts-shown c o s) (append_assoc (counts s.events) _ _),
        world_rest ∙ rw world_first refl,
      )
