-- ===== src/Http/Handlers/Calls.antt =====
-- The requests that a process serves, the commands that they carry, and what each shows.
use spec_star_go.Prelude.{
  ℕ, String, str_eq, ◌≡◌, refl, sym, ap, ◌∙◌, inl, inr, Bool-cases, List, [], ◌∷◌, ◌++◌, Option,
  none, some, if◌then◌else◌,
}
use mathlib.Core.List.{append-nil}
use spec_star_go.Domain.Effect.{Result, ok, err, Result-cases}
use spec_star_go.Application.Flow.{Reply}
use spec_star_go.Platform.Logger.{Attr, Context, Span, from_context}
use spec_star_go.Http.{Request, Response, HttpCodec, route}
use spec_star_go.Http.Observation.{
  Event, span_started, span_attributes, span_ended, Process, span_opened,
}
use spec_star_go.Http.Handlers.{show_deposit, show_withdraw, handle_deposit, handle_withdraw}

module _ {A : Type 0} (f : Event → Option A) where
  abbrev pub put : Option A → List A → List A
  put none xs = xs
  put (some a) xs = a ∷ xs

  -- what `f` takes from the events
  abbrev pub project : List Event → List A
  project [] = []
  project (e ∷ es) = put (f e) (project es)

  put-append : (o : Option A) (xs ys : List A) → put o xs ++ ys ≡ put o (xs ++ ys)
  put-append none xs ys = refl
  put-append (some a) xs ys = refl

  pub project-append : (es fs : List Event) → project (es ++ fs) ≡ project es ++ project fs
  project-append [] fs = refl
  project-append (e ∷ es) fs =
      ap (put (f e)) (project-append es fs) ∙ sym (put-append (f e) (project es) (project fs))

  -- it takes nothing from the events of a span
  pub record SkipsSpans : Type 0 where
    pub skips_started : (name : String) → f (span_started name) ≡ none
    pub skips_attributes : (attrs : List Attr) → f (span_attributes attrs) ≡ none
    pub skips_ended : f span_ended ≡ none

-- the command that a request carries: by POST, to one of the two paths, in a body that is decoded
pub data Command (Q P : Type 0) : Type 0 where
  deposit : Q → Command Q P
  withdraw : P → Command Q P

abbrev decoded : {Q A : Type 0} → (Q → A) → Result Q → Option A
decoded f (ok q) = some (f q)
decoded f (err e) = none

abbrev posted : {A : Type 0} → Request → Option A → Option A
posted req o = if str_eq req.method "POST" then o else none

-- a request, with its context and the time that it takes
pub record Call : Type 0 where
  pub ctx : Context
  pub req : Request
  pub elapsed : ℕ

-- what the handlers are given: the codecs of their requests, `tracer.Start`, and the services
pub record Server (W Q R P S : Type 0) : Type 0 where
  pub deposits : HttpCodec Q (Option R)
  pub withdrawals : HttpCodec P (Option S)
  pub tracer : String → Context → Span
  pub execute_deposit : Q → W → Reply R × W
  pub execute_withdraw : P → W → Reply S × W

module _ {W Q R P S : Type 0} (server : Server W Q R P S) where
  open server use {deposits, withdrawals, tracer, execute_deposit, execute_withdraw}

  abbrev pub command_of : Request → Option (Command Q P)
  command_of req =
      if str_eq req.path "/deposits"
      then posted req (decoded deposit (deposits.decode req.body))
      else if str_eq req.path "/withdrawals"
      then posted req (decoded withdraw (withdrawals.decode req.body))
      else none

  -- the function that `main` gives to `lambda.Start`
  abbrev pub serve_call : Call → Process W → Result Response × Process W
  serve_call c s =
      route (λ req t. handle_deposit deposits tracer execute_deposit c.ctx req c.elapsed t)
        (λ req t. handle_withdraw withdrawals tracer execute_withdraw c.ctx req c.elapsed t) c.req s

  abbrev pub serve_calls : List Call → Process W → Process W
  serve_calls [] s = s
  serve_calls (c ∷ cs) s = serve_calls cs (serve_call c s).1

  -- what a call shows of its command, and where that leaves the outside and the factory
  abbrev pub shown : Call → Option (Command Q P) → Process W → List Event
  shown c none s = []
  shown c (some (deposit q)) s =
      let span = tracer "POST /deposits" c.ctx in
      let logger = (from_context (record (c.ctx) { span = span }) "http" "deposit" s.loggers).0 in
      show_deposit span logger c.elapsed (execute_deposit q s.world).0
  shown c (some (withdraw q)) s =
      let span = tracer "POST /withdrawals" c.ctx in
      let logger = (from_context (record (c.ctx) { span = span }) "http" "withdraw" s.loggers).0 in
      show_withdraw span logger c.elapsed (execute_withdraw q s.world).0

  abbrev pub after : Option (Command Q P) → W → W
  after none w = w
  after (some (deposit q)) w = (execute_deposit q w).1
  after (some (withdraw q)) w = (execute_withdraw q w).1

  module _ {A : Type 0} (f : Event → Option A) (skips : SkipsSpans f) where
    abbrev Shows : Call → Option (Command Q P) → Process W → Process W → Type 0
    Shows c o s s' =
        (project f s'.events ≡ project f s.events ++ project f (shown c o s))
        × (s'.world ≡ after o s.world)

    project-span_opened :
        (name where_to command : String) → project f (span_opened name where_to command) ≡ []
    project-span_opened name where_to command = rw (skips.skips_started, skips.skips_attributes)

    project_served :
        (es mid : List Event) (name where_to command : String)
        → project f ((es ++ span_opened name where_to command) ++ (mid ++ span_ended ∷ []))
          ≡ project f es ++ project f mid
    project_served es mid name where_to command =
        simp (project-append, project-span_opened, skips.skips_ended, append-nil)

    project_unserved :
        (es : List Event) (name where_to command : String)
        → project f ((es ++ span_opened name where_to command) ++ span_ended ∷ [])
          ≡ project f es ++ []
    project_unserved es name where_to command = project_served es [] name where_to command

    handle_deposit-Shows :
        (c : Call) (s : Process W)
        → Shows c
            (posted c.req (decoded deposit (deposits.decode c.req.body)))
            s
            (handle_deposit deposits tracer execute_deposit c.ctx c.req c.elapsed s).1
    unfolding handle_deposit
    handle_deposit-Shows c s = elim (Bool-cases (str_eq c.req.method "POST")) [
      | inr m ↦ rw m (project_unserved s.events _ _ _, refl)
      | inl m ↦ elim (Result-cases (deposits.decode c.req.body)) [
        | inr (e, d) ↦ rw (m, d) (project_unserved s.events _ _ _, refl)
        | inl (q, d) ↦ rw (m, d) (project_served s.events _ _ _ _, refl)
      ]
    ]

    handle_withdraw-Shows :
        (c : Call) (s : Process W)
        → Shows c
            (posted c.req (decoded withdraw (withdrawals.decode c.req.body)))
            s
            (handle_withdraw withdrawals tracer execute_withdraw c.ctx c.req c.elapsed s).1
    unfolding handle_withdraw
    handle_withdraw-Shows c s = elim (Bool-cases (str_eq c.req.method "POST")) [
      | inr m ↦ rw m (project_unserved s.events _ _ _, refl)
      | inl m ↦ elim (Result-cases (withdrawals.decode c.req.body)) [
        | inr (e, d) ↦ rw (m, d) (project_unserved s.events _ _ _, refl)
        | inl (q, d) ↦ rw (m, d) (project_served s.events _ _ _ _, refl)
      ]
    ]

    pub serve_call-Shows :
        (c : Call) (s : Process W) → Shows c (command_of c.req) s (serve_call c s).1
    unfolding route
    serve_call-Shows c s = elim (Bool-cases (str_eq c.req.path "/deposits")) [
      | inl p ↦ rw p (handle_deposit-Shows c s)
      | inr p ↦ elim (Bool-cases (str_eq c.req.path "/withdrawals")) [
        | inl q ↦ rw (p, q) (handle_withdraw-Shows c s)
        | inr q ↦ rw (p, q) (sym (append-nil _), refl)
      ]
    ]
