-- ===== src/EndToEnd/Withdraw.antt =====
-- A withdrawal on the tables.
mod Record
use spec_star_go.Prelude.{ℕ, ◌≡◌, refl, ◌∙◌, ◌⊎◌, inl, inr, Bool-cases}
use spec_star_go.Decimal.{Decimal}
use spec_star_go.Domain.Errors.{Error, is, not_found, duplicate}
use spec_star_go.Domain.Effect.{Result, ok, err}
use spec_star_go.Domain.Client.{Client}
use spec_star_go.Domain.ProcessedCommand.{ProcessedCommand}
use spec_star_go.Ports.{Codec, Json, Environment}
use spec_star_go.Application.Flow.{Reply, lookup_failure, call}
use spec_star_go.Application.Flow.Ends.{
  Ends, Post, Ends-bind, Ends-finish, Ends-lift, Ends-lift_flow, Ends-call, Ends-attempt,
}
use spec_star_go.Application.Withdraw.{
  WithdrawResponse, command_type_withdraw, execute, steps, withdraw_from, settle, replay,
  replay_after_race,
}
use spec_star_go.Application.Withdraw.Request.{
  WithdrawRequest, ValidWithdraw, validate_withdraw_request,
}
use spec_star_go.Postgres.World.{World, Tables, Sql}
use spec_star_go.Postgres.World.Laws.{used}
use spec_star_go.Postgres.Repositories.{find_client}
use spec_star_go.Postgres.Transaction.{environment, transact}
use spec_star_go.Postgres.Transaction.Laws.{transact-cases}
use spec_star_go.Postgres.Reads.{find_command-tables, find_client-tables}
pub use Record.{Sold, Withdrawn, withdraw_from-Sold, allocating, marshalling}

module _ {D : Type 0} ⦃d : Decimal D⦄ (sql : Sql D) (codec : Codec)
    (json : Json WithdrawResponse) where
  abbrev env : Environment (World D) D
  env = environment sql codec

  module _ (req : WithdrawRequest) (t : Tables D) where
    abbrev Same : World D → Type 0
    Same w = w.tables ≡ t

    abbrev Ended : Reply WithdrawResponse → World D → Type 0
    Ended r w = Same w ⊎ Withdrawn sql codec json req t r w

    replayed :
        (r : Result ProcessedCommand) (w : World D)
        → Same w
        → Post Ended (λ a. Same) (replay env codec json r, w)
    unfolding replay
    replayed (ok c) w same = inl same
    replayed (err e) w same = elim (Bool-cases (is e not_found)) [
      | inl h ↦ rw (h, replay) same
      | inr h ↦ rw (h, replay) (inl same)
    ]

    raced :
        (w : World D)
        → Same w
        → let (r, w') = replay_after_race env codec json req.order_id w in Same w'
    unfolding replay_after_race
    raced w same = find_command-tables sql codec w command_type_withdraw req.order_id ∙ same

    settle_err :
        (e : Error) (w : World D)
        → Same w
        → Post Ended Ended (settle env codec json req.order_id (err e) w)
    unfolding settle
    settle_err e w same = elim (Bool-cases (is e duplicate)) [
      | inl h ↦ rw (h, settle) (inl (raced w same))
      | inr h ↦ rw (h, settle) (inl same)
    ]

    settled :
        (cmd : ValidWithdraw D)
        → validate_withdraw_request codec req ≡ ok cmd
        → (w : World D) → Same w
        → let (r, w') = transact (withdraw_from env codec json req cmd.client cmd.desired) w in
          Post Ended Ended (settle env codec json req.order_id r w')
    unfolding settle
    settled cmd valid w same =
        elim (transact-cases (withdraw_from env codec json req cmd.client cmd.desired) w) [
          | inl (e, why, refused, t) ↦ rw refused (settle_err e _ (t ∙ same))
          | inr (resp, w1, run, accepted, t) ↦
              rw (accepted, settle)
                (inr (record {
                  status = refl;
                  no_error = refl;
                  cmd = cmd;
                  valid = valid;
                  response = resp;
                  replied = refl;
                  begun = used w;
                  started = same;
                  ended = w1;
                  sold =
                      withdraw_from-Sold sql codec json req cmd.client cmd.desired resp (used w) w1
                        run;
                  kept = t;
                }))
        ]

    client-Ends :
        (id : ℕ)
        → Ends {A = Client} Same Ended
            (λ a. Same)
            (call (find_client sql codec id) (lookup_failure "client not found" "find client"))
    client-Ends id =
        Ends-call _ _ (λ w a same h. find_client-tables sql codec w id ∙ same)
          λ w e same h. inl (find_client-tables sql codec w id ∙ same)

    steps-Ends : Ends Same Ended Ended (steps env codec json req)
    unfolding steps
    steps-Ends =
        Ends-lift _ _ _ (λ e w h same. inl same)
          λ cmd valid.
            Ends-bind {Q = λ r w. Same w} _ _
              (Ends-attempt _ (λ w same. find_command-tables sql codec w _ _ ∙ same))
              λ existing.
                Ends-bind {Q = λ a w. Same w} _ _
                  (Ends-lift_flow (replay _ codec json existing) (replayed existing))
                  λ _. Ends-bind {Q = λ a w. Same w} _ _ (client-Ends cmd.client) λ _.
                    Ends-bind {Q = λ r w. Post Ended Ended (settle env codec json req.order_id r w)}
                      _ _ (Ends-attempt _ (λ w same. settled cmd valid w same))
                      λ r. record { at = λ w q. q }

    -- A withdrawal on the tables is atomic. Either the tables are as they were, or the status is 200
    -- and the whole of the transaction went through for the valid request: the lots of the
    -- instrument were read, the amount was allocated to them, every affected lot was updated, one
    -- command was appended that is found under the order and whose snapshot is what the database
    -- makes of the reply, and the reply shows the affected lots.
    pub withdraw_outcome :
        (w : World D)
        → w.tables ≡ t
        → let (r, w') = execute env codec json req w in
          (w'.tables ≡ t) ⊎ Withdrawn sql codec json req t r w'
    unfolding execute
    withdraw_outcome = Ends-finish (steps env codec json req) steps-Ends
