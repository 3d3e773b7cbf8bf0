-- ===== src/EndToEnd/Success/Withdraw.antt =====
-- A withdrawal that nothing stands against goes through.
use spec_star_go.Prelude.{ℕ, suc, ◌+◌, String, ◌≡◌, refl, ap, ◌∙◌, none, some, List, length, arith}
use spec_star_go.Decimal.{Decimal}
use spec_star_go.Domain.Effect.{ok}
use spec_star_go.Domain.Client.{Client}
use spec_star_go.Domain.Position.{Position}
use spec_star_go.Domain.ProcessedCommand.{ProcessedCommand, new_processed_command}
use spec_star_go.Ports.{Codec, Json}
use spec_star_go.Application.Flow.{success, ◌>>=◌, wrap_call, make_command}
use spec_star_go.Application.Withdraw.{
  WithdrawResponse, command_type_withdraw, execute, steps, replay, settle, update_all,
  withdraw_from, to_withdraw_response,
}
use spec_star_go.Application.Withdraw.Request.{
  WithdrawRequest, ValidWithdraw, validate_withdraw_request,
}
use spec_star_go.Application.Withdraw.Lots.{allocate}
use spec_star_go.Postgres.World.{World, Tables, Sql, done, system}
use spec_star_go.Postgres.World.Laws.{used}
use spec_star_go.Postgres.Statements.{
  find, has_key, has_client_id, select_all, is_of_instrument, order_by_purchased_at,
}
use spec_star_go.Postgres.Writes.{insert_command}
use spec_star_go.Postgres.Repositories.{create_command}
use spec_star_go.Postgres.PositionRepository.{scan_all, find_by_client_and_instrument}
use spec_star_go.Postgres.Transaction.{environment}
use spec_star_go.EndToEnd.Withdraw.{allocating, marshalling}
use spec_star_go.EndToEnd.Success.{
  transact_ok, find_command-none, find_client-some, create_command-done,
}
use spec_star_go.EndToEnd.Success.Calls.{
  Went, bind-ok, wrap_call-ok, find_lots-Went, Accepts, update_all-Went,
}

module _ {D : Type 0} ⦃d : Decimal D⦄ (sql : Sql D) (codec : Codec)
    (json : Json WithdrawResponse) where
  -- Nothing stands against the withdrawal: the request is valid and new, the client exists, the
  -- rows of the instrument can be read, the desired value can be allocated to them, the database
  -- accepts the affected lots, the response can be written, and so can the command.
  pub record Sellable (req : WithdrawRequest) (w : World D) (affected : List (Position D))
      (t : Tables D) : Type 0 where
    pub cmd : ValidWithdraw D
    pub valid : validate_withdraw_request codec req ≡ ok cmd
    pub unknown :
        find (has_key command_type_withdraw req.order_id) w.tables.processed_commands ≡ none
    pub client : Client
    pub client_there : find (has_client_id cmd.client) w.tables.clients ≡ some client
    pub lots : List (Position D)
    pub readable :
        scan_all sql codec (
          order_by_purchased_at (
            select_all
              (is_of_instrument w.tables.assets cmd.client req.instrument_id)
              w.tables.positions))
        ≡ ok lots
    pub allocated : allocate w.times cmd.desired lots ≡ ok affected
    pub updated : Tables D
    pub updates : Accepts sql codec affected w.tables updated
    pub text : String
    pub marshalled :
        json.marshal (to_withdraw_response (environment sql codec) codec json affected) ≡ ok text
    pub command : ProcessedCommand
    pub recorded :
        new_processed_command
          (w.uuids 0)
          (w.times (length lots))
          command_type_withdraw
          req.order_id
          cmd.client
          text
        ≡ ok command
    pub command_inserted : insert_command sql command updated ≡ done (tt, t)

  module _ (req : WithdrawRequest) (w : World D) (holds : (i : ℕ) → w.faults i ≡ none)
      (affected : List (Position D)) (t : Tables D) (x : Sellable req w affected t) where
    abbrev response : WithdrawResponse
    response = to_withdraw_response (environment sql codec) codec json affected

    -- the world in the transaction, after the two lookups
    abbrev begun : World D
    begun = used (used (used w))

    -- after the clock was read once for each lot, and after the new command
    abbrev clocked : World D → World D
    clocked v = record v { times = λ i. v.times (length x.lots + i) }

    abbrev numbered : World D → World D
    numbered v = record v { uuids = λ i. v.uuids (suc i); times = λ i. v.times (suc i) }

    make_command_ok :
        (v : World D)
        → v.uuids 0 ≡ w.uuids 0
        → v.times 0 ≡ w.times (length x.lots)
        → make_command system command_type_withdraw req.order_id x.cmd.client x.text v
          ≡ (ok x.command, numbered v)
    make_command_ok v id now = rw (id, now, x.recorded) refl

    withdraw_from_runs :
        (found : Went
          (find_by_client_and_instrument sql codec x.cmd.client req.instrument_id)
          begun
          x.lots
          w.tables)
        (updates : Went
          (update_all (environment sql codec) codec json affected)
          (clocked found.after)
          tt
          x.updated)
        → (after : World D) × (withdraw_from
              (environment sql codec)
              codec
              json
              req
              x.cmd.client
              x.cmd.desired
              begun
            ≡ (ok response, after))
          × (after.tables ≡ t)
          × (after.faults 0 ≡ none)
    unfolding withdraw_from
    withdraw_from_runs found updates =
        let find_lots = find_by_client_and_instrument sql codec x.cmd.client req.instrument_id in
        let v = updates.after in
        let now : v.times 0 ≡ w.times (length x.lots) =
          ap (λ c. c 0) updates.times
          ∙ ap (λ c. c (length x.lots + 0)) found.times
          ∙ ap w.times (omega arith) in
        let id : v.uuids 0 ≡ w.uuids 0 = ap (λ c. c 0) (updates.uuids ∙ found.uuids) in
        let create =
          create_command-done sql codec (numbered v) (updates.holds 0) x.command t
            (rw updates.tables x.command_inserted) in
        (
          record (used (numbered v)) { tables = t },
          bind-ok (wrap_call "find positions" find_lots) _ begun found.after x.lots
                (wrap_call-ok "find positions" find_lots begun found.after x.lots found.runs)
              ∙ bind-ok (allocating sql codec json x.cmd.desired x.lots) _ found.after
                  (clocked found.after) affected (rw (found.times, x.allocated) refl)
              ∙ bind-ok (update_all (environment sql codec) codec json affected) _
                  (clocked found.after) v tt updates.runs
              ∙ bind-ok (marshalling sql codec json response) _ v v x.text (rw x.marshalled refl)
              ∙ bind-ok (make_command system command_type_withdraw req.order_id x.cmd.client x.text)
                  _ v (numbered v) x.command (make_command_ok v id now)
              ∙ bind-ok (wrap_call "create processed command" (create_command sql codec x.command))
                  _ (numbered v) (record (used (numbered v)) { tables = t }) tt
                  (wrap_call-ok "create processed command" (create_command sql codec x.command)
                    (numbered v) (record (used (numbered v)) { tables = t }) tt create),
          refl,
          updates.holds 1,
        )

    withdraw_from_ok :
        (after : World D) × (withdraw_from
            (environment sql codec)
            codec
            json
            req
            x.cmd.client
            x.cmd.desired
            begun
          ≡ (ok response, after))
        × (after.tables ≡ t)
        × (after.faults 0 ≡ none)
    withdraw_from_ok =
        let found =
          find_lots-Went sql codec x.cmd.client req.instrument_id x.lots begun
            (λ i. holds (suc (suc (suc i)))) x.readable in
        withdraw_from_runs found (
          update_all-Went sql codec json affected w.tables x.updated (clocked found.after)
            found.holds found.tables x.updates)

    -- A withdrawal that nothing stands against succeeds, while the connection holds: the status is
    -- 200, the response shows the affected lots, and the tables are those with the lots updated
    -- and the command appended.
    pub withdraw_succeeds :
        let (r, w') = execute (environment sql codec) codec json req w in
        (r ≡ success 200 (to_withdraw_response (environment sql codec) codec json affected))
        × (w'.tables ≡ t)
    unfolding execute steps replay settle ◌>>=◌
    withdraw_succeeds =
        let searched =
          find_command-none sql codec w (holds 0) command_type_withdraw req.order_id x.unknown in
        let client =
          find_client-some sql codec (used w) (holds 1) x.cmd.client x.client x.client_there in
        let (after, run, written, still_holds) = withdraw_from_ok in
        let stored =
          transact_ok
            (withdraw_from (environment sql codec) codec json req x.cmd.client x.cmd.desired)
            (used (used w)) after response (holds 2) run still_holds in
        rw (x.valid, searched, replay, client, stored, settle) (refl, written)
