-- ===== src/EndToEnd/Replay.antt =====
-- A deposit or a withdrawal that is sent again.
use spec_star_go.Prelude.{String, ◌≡◌, refl, ◌∙◌, none, some, ap}
use spec_star_go.Decimal.{Decimal}
use spec_star_go.Domain.Effect.{ok}
use spec_star_go.Domain.ProcessedCommand.{ProcessedCommand}
use spec_star_go.Ports.{Codec, Json}
use spec_star_go.Application.Flow.{Reply, success, ◌>>=◌}
use spec_star_go.Application.Deposit.{
  DepositResponse, command_type_deposit, execute, steps, replay, deserialize_snapshot,
}
use spec_star_go.Application.Deposit.Request.{DepositRequest}
use spec_star_go.Postgres.World.{World, Tables, Sql, done}
use spec_star_go.Postgres.World.Laws.{used, statement_done}
use spec_star_go.Postgres.Statements.{find, has_key, select_command}
use spec_star_go.Postgres.Repositories.{find_command}
use spec_star_go.Postgres.Transaction.{environment}
use spec_star_go.Application.Withdraw.{
  WithdrawResponse, command_type_withdraw, deserialize_withdraw_snapshot,
}
use spec_star_go.Application.Withdraw as Withdraw
use spec_star_go.Application.Withdraw.Request.{WithdrawRequest}
use spec_star_go.EndToEnd.Deposit.{Created}
use spec_star_go.EndToEnd.Withdraw.{Withdrawn}

module _ {D : Type 0} ⦃d : Decimal D⦄ (sql : Sql D) (codec : Codec) where
  -- a command that is in the tables is found when the connection holds
  pub find_command-some :
      (command_type order_id : String) (c : ProcessedCommand) (w : World D)
      → w.faults 0 ≡ none
      → find (has_key command_type order_id) w.tables.processed_commands ≡ some c
      → find_command sql codec command_type order_id w ≡ (ok c, used w)
  unfolding find_command select_command
  find_command-some command_type order_id c w holds there =
      let run =
        statement_done (select_command command_type order_id) w c w.tables holds (rw there refl) in
      rw run refl

-- What is marshalled is unmarshalled from what the database made of it.
abbrev pub RoundTrips : {D R : Type 0} → Sql D → Json R → Type 0
RoundTrips {R = R} sql json =
    (resp : R) (text stored : String)
    → json.marshal resp ≡ ok text
    → sql.jsonb text ≡ done stored
    → json.unmarshal stored ≡ ok resp

module _ {D : Type 0} ⦃d : Decimal D⦄ (sql : Sql D) (codec : Codec)
    (json : Json DepositResponse) where
  -- A deposit that went through is idempotent: the same request sent again, while the connection
  -- holds, is answered with status 200 and the response of the first time, and nothing changes.
  -- It is assumed that a response is read back from its stored document.
  pub deposit_again :
      RoundTrips sql json
      → (req : DepositRequest) (t : Tables D) (r : Reply DepositResponse) (w : World D)
      → Created sql codec json req t r w
      → w.faults 0 ≡ none
      → (resp : DepositResponse) × (r.response ≡ some resp)
        × (execute (environment sql codec) codec json req w ≡ (success 200 resp, used w))
  unfolding execute steps replay deserialize_snapshot ◌>>=◌
  deposit_again trips req t r w c holds =
      let found =
        find_command-some sql codec command_type_deposit req.order_id c.command w holds c.found in
      let back = trips _ c.text _ c.marshalled c.stored in
      (_, c.replied, rw (c.requested.valid, found, back, deserialize_snapshot) refl)

module _ {D : Type 0} ⦃d : Decimal D⦄ (sql : Sql D) (codec : Codec)
    (json : Json WithdrawResponse) where
  -- A withdrawal that went through is idempotent: the same request sent again, while the connection
  -- holds, is answered with status 200 and the response of the first time, and nothing changes, so
  -- that nothing is sold twice. It is assumed that a response is read back from its stored document.
  pub withdraw_again :
      RoundTrips sql json
      → (req : WithdrawRequest) (t : Tables D) (r : Reply WithdrawResponse) (w : World D)
      → Withdrawn sql codec json req t r w
      → w.faults 0 ≡ none
      → (resp : WithdrawResponse) × (r.response ≡ some resp)
        × (Withdraw.execute (environment sql codec) codec json req w ≡ (success 200 resp, used w))
  unfolding Withdraw.execute Withdraw.steps Withdraw.replay deserialize_withdraw_snapshot ◌>>=◌
  withdraw_again trips req t r w c holds =
      let there =
        ap (λ x. find (has_key command_type_withdraw req.order_id) x.processed_commands) c.kept
        ∙ c.sold.found in
      let found =
        find_command-some sql codec command_type_withdraw req.order_id c.sold.command w holds
          there in
      let back = trips c.response c.sold.text _ c.sold.marshalled c.sold.stored in
      (c.response, c.replied, rw (c.valid, found, back, deserialize_withdraw_snapshot) refl)
