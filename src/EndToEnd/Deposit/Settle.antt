-- ===== src/EndToEnd/Deposit/Settle.antt =====
-- How a deposit ends once its transaction has run, and how a stored reply is given again.
use spec_star_go.Prelude.{ℕ, String, ◌≡◌, refl, ap, ◌∙◌, inl, inr, arith, Bool-cases}
use spec_star_go.Decimal.{Decimal}
use spec_star_go.Domain.Errors.{Error, is, not_found, duplicate}
use spec_star_go.Domain.Effect.{Result, ok, err, Result-cases}
use spec_star_go.Domain.Position.{Position}
use spec_star_go.Domain.ProcessedCommand.{ProcessedCommand}
use spec_star_go.Ports.{Codec, Json, Environment}
use spec_star_go.Postgres.Repositories.{find_command}
use spec_star_go.Application.Flow.{Reply, lookup_failure}
use spec_star_go.Application.Flow.Ends.{Post}
use spec_star_go.Application.Deposit.{
  DepositResponse, command_type_deposit, persist, settle, to_deposit_response, replay,
  replay_after_race, deserialize_snapshot,
}
use spec_star_go.Application.Deposit.Request.{DepositRequest}
use spec_star_go.Postgres.World.{World, Tables, Sql}
use spec_star_go.Postgres.Statements.{find, has_key}
use spec_star_go.Postgres.Transaction.{environment, transact}
use spec_star_go.Postgres.Transaction.Laws.{transact-cases}
use spec_star_go.Postgres.World.Laws.{used}
use spec_star_go.Postgres.Reads.{find_command-tables}
use spec_star_go.EndToEnd.Deposit.Persist.{Persisted, persist-Persisted, appended}
use spec_star_go.EndToEnd.Deposit.Record.{Requested, Outcome}

module _ {D : Type 0} ⦃d : Decimal D⦄ (sql : Sql D) (codec : Codec)
    (json : Json DepositResponse) where
  module _ (req : DepositRequest) (t : Tables D) where
    abbrev Same : World D → Type 0
    Same w = w.tables ≡ t

    abbrev Ended : Reply DepositResponse → World D → Type 0
    Ended = Outcome sql codec json req t

    abbrev env : Environment (World D) D
    env = environment sql codec

    -- a lookup that failed has changed nothing
    pub failed :
        (missing lookup : String) (e : Error) (w : World D)
        → Same w
        → Ended (lookup_failure missing lookup e) w
    failed missing lookup e w same = elim (Bool-cases (is e not_found)) [
      | inl h ↦ rw h (inl (λ q. omega arith, same))
      | inr h ↦ rw h (inl (λ q. omega arith, same))
    ]

    snapshot_reply :
        (text : String) (w : World D) → Same w → Ended (deserialize_snapshot env codec json text) w
    unfolding deserialize_snapshot
    snapshot_reply text w same = elim (Result-cases (json.unmarshal text)) [
      | inl (r, h) ↦ rw (h, deserialize_snapshot) (inl (λ q. omega arith, same))
      | inr (e, h) ↦ rw (h, deserialize_snapshot) (inl (λ q. omega arith, same))
    ]

    -- what a found command, or a failed search, gives back
    pub replayed :
        (r : Result ProcessedCommand) (w : World D)
        → Same w
        → Post Ended (λ a. Same) (replay env codec json r, w)
    unfolding replay
    replayed (ok c) w same = snapshot_reply c.response_snapshot w same
    replayed (err e) w same = elim (Bool-cases (is e not_found)) [
      | inl h ↦ rw (h, replay) same
      | inr h ↦ rw (h, replay) (inl (λ q. omega arith, same))
    ]

    raced :
        (w : World D)
        → Same w
        → let (r, w') = replay_after_race env codec json req.order_id w in Ended r w'
    unfolding replay_after_race
    raced w same =
        let (found, w') = find_command sql codec command_type_deposit req.order_id w in
        let same' : Same w' =
          find_command-tables sql codec w command_type_deposit req.order_id ∙ same in
        elim (Result-cases found) [
          | inl (c, h) ↦ rw (h, replay_after_race) (snapshot_reply c.response_snapshot w' same')
          | inr (e, h) ↦ rw (h, replay_after_race) (inl (λ q. omega arith, same'))
        ]

    settle_err :
        (resp : DepositResponse) (e : Error) (w : World D)
        → Same w
        → Post Ended Ended (settle env codec json req.order_id resp (err e) w)
    unfolding settle
    settle_err resp e w same = elim (Bool-cases (is e duplicate)) [
      | inl h ↦ rw (h, settle) (raced w same)
      | inr h ↦ rw (h, settle) (inl (λ q. omega arith, same))
    ]

    settle_ok :
        (p : Position D) (text : String) (w w' w1 : World D)
        → Requested sql codec json req p
        → json.marshal (to_deposit_response env codec json p) ≡ ok text
        → Same w
        → Persisted sql codec json req.order_id p text w w1
        → w'.tables ≡ w1.tables
        → Post Ended Ended
            (settle env codec json req.order_id (to_deposit_response env codec json p) (ok tt) w')
    unfolding settle
    settle_ok p text w w' w1 asked m same s kept = inr (record {
      status = refl;
      no_error = refl;
      position = p;
      requested = asked;
      replied = refl;
      row = s.row;
      assigned = s.assigned;
      command = s.command;
      text = text;
      marshalled = m;
      stored = s.snapshot;
      found =
          ap (λ x. find (has_key command_type_deposit req.order_id) x.processed_commands) kept
          ∙ s.found;
      written = kept ∙ s.written ∙ ap (appended sql codec json s) same;
    })

    pub settled :
        (p : Position D) (client : ℕ) (text : String)
        → Requested sql codec json req p
        → json.marshal (to_deposit_response env codec json p) ≡ ok text
        → (w : World D) → Same w
        → let (r, w') = transact (persist env codec json p req.order_id client text) w in
          Post Ended Ended
            (settle env codec json req.order_id (to_deposit_response env codec json p) r w')
    settled p client text asked m w same =
        elim (transact-cases (persist env codec json p req.order_id client text) w) [
          | inl (e, why, refused, t) ↦ rw refused (settle_err _ e _ (t ∙ same))
          | inr (_, w1, run, accepted, t) ↦ rw accepted (
              settle_ok p text (used w) _ w1 asked m same
                (persist-Persisted sql codec json req.order_id p client text (used w) w1 run) t)
        ]
