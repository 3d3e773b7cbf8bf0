-- ===== src/EndToEnd/Withdraw/Record.antt =====
-- What a withdrawal on the tables means: the transaction that went through, and its reply.
use spec_star_go.Prelude.{
  ℕ, String, ◌≡◌, refl, sym, ap, ◌∙◌, List, [], ◌∷◌, ◌++◌, none, some, length,
}
use spec_star_go.Decimal.{Decimal}
use spec_star_go.Domain.Errors.{wrap}
use spec_star_go.Domain.Effect.{ok, Action, bind-eq-ok, wrapped}
use spec_star_go.Domain.Position.{Position}
use spec_star_go.Domain.ProcessedCommand.{ProcessedCommand}
use spec_star_go.Ports.{Codec, Json, Environment}
use spec_star_go.Application.Flow.{Reply, wrap_call, make_command}
use spec_star_go.Application.Withdraw.{
  WithdrawResponse, command_type_withdraw, withdraw_from, update_all, to_withdraw_response,
}
use spec_star_go.Application.Withdraw.Request.{
  WithdrawRequest, ValidWithdraw, validate_withdraw_request,
}
use spec_star_go.Application.Withdraw.Lots.{allocate}
use spec_star_go.Postgres.World.{World, Tables, Sql, done}
use spec_star_go.Postgres.Statements.{find, has_key}
use spec_star_go.Postgres.Transaction.{environment}
use spec_star_go.EndToEnd.Stored.{
  wrap_call-eq_ok, wrapped-eq_ok, returned_eq, create_command-Stored,
}

module _ {D : Type 0} ⦃d : Decimal D⦄ (sql : Sql D) (codec : Codec)
    (json : Json WithdrawResponse) where
  abbrev env : Environment (World D) D
  env = environment sql codec

  -- The function of the transaction went through: the lots of the instrument were read, the amount
  -- was allocated to them, every affected lot was updated, and the command is found under its order
  -- with the reply as its snapshot.
  pub record Sold (req : WithdrawRequest) (client : ℕ) (desired : D) (resp : WithdrawResponse)
      (w w' : World D) : Type 0 where
    pub lots : List (Position D)
    pub after_find : World D
    pub read :
        env.positions.find_by_client_and_instrument client req.instrument_id w
        ≡ (ok lots, after_find)
    pub affected : List (Position D)
    pub allocated : allocate after_find.times desired lots ≡ ok affected
    -- the clock was read once for each lot
    pub after_update : World D
    pub updated :
        update_all env codec json affected (env.system.clock (length lots) after_find).1
        ≡ (ok tt, after_update)
    pub response : resp ≡ to_withdraw_response env codec json affected
    pub text : String
    pub marshalled : json.marshal resp ≡ ok text
    pub command : ProcessedCommand
    pub stored : sql.jsonb text ≡ done command.response_snapshot
    pub found :
        find (has_key command_type_withdraw req.order_id) w'.tables.processed_commands
        ≡ some command
    pub written : w'.tables ≡ record after_update.tables {
      processed_commands = after_update.tables.processed_commands ++ command ∷ [];
    }

  pub record Withdrawn (req : WithdrawRequest) (t : Tables D) (r : Reply WithdrawResponse)
      (w : World D) : Type 0 where
    pub status : r.status ≡ 200
    pub no_error : r.error ≡ none
    pub cmd : ValidWithdraw D
    pub valid : validate_withdraw_request codec req ≡ ok cmd
    pub response : WithdrawResponse
    pub replied : r.response ≡ some response
    pub begun : World D
    pub started : begun.tables ≡ t
    pub ended : World D
    pub sold : Sold req cmd.client cmd.desired response begun ended
    pub kept : w.tables ≡ ended.tables

  abbrev with_command : ProcessedCommand → Tables D → Tables D
  with_command c t = record t { processed_commands = t.processed_commands ++ c ∷ [] }

  abbrev pub allocating : D → List (Position D) → Action (World D) (List (Position D))
  allocating desired lots w =
      let (clock, w') = env.system.clock (length lots) w in (allocate clock desired lots, w')

  abbrev pub marshalling : WithdrawResponse → Action (World D) String
  marshalling resp w = (wrapped (wrap "marshal response snapshot") (json.marshal resp), w)

  pub withdraw_from-Sold :
      (req : WithdrawRequest) (client : ℕ) (desired : D) (resp : WithdrawResponse) (w w' : World D)
      → withdraw_from env codec json req client desired w ≡ (ok resp, w')
      → Sold req client desired resp w w'
  unfolding withdraw_from
  withdraw_from-Sold req client desired resp w w' h =
      let find_lots = env.positions.find_by_client_and_instrument client req.instrument_id in
      let (lots, w1, read, rest) = bind-eq-ok (wrap_call "find positions" find_lots) _ w h in
      let (affected, w2, allocated, rest) = bind-eq-ok (allocating desired lots) _ w1 rest in
      let (_, w3, updated, rest) = bind-eq-ok (update_all env codec json affected) _ w2 rest in
      let (text, w4, marshalled, rest) =
        bind-eq-ok (marshalling (to_withdraw_response env codec json affected)) _ w3 rest in
      let (c, w5, made, rest) =
        bind-eq-ok (make_command env.system command_type_withdraw req.order_id client text) _ w4
          rest in
      let (_, w6, create, rest) =
        bind-eq-ok (wrap_call "create processed command" (env.processed_commands.create c)) _ w5
          rest in
      let s =
        create_command-Stored sql codec command_type_withdraw req.order_id client text w4 w5 w6 c
          made create in
      let (shown, end) =
        returned_eq (ok (to_withdraw_response env codec json affected), w6) (ok resp, w') refl refl
          rest in
      let read_text =
        wrapped-eq_ok (wrap "marshal response snapshot")
          (json.marshal (to_withdraw_response env codec json affected))
          (ap (λ x. x.0) marshalled) in
      let kept : w3.tables ≡ w4.tables = ap (λ x. x.1.tables) marshalled in
      record {
        lots = lots;
        after_find = w1;
        read = wrap_call-eq_ok "find positions" find_lots w read;
        affected = affected;
        allocated = ap (λ x. x.0) allocated;
        after_update = w3;
        updated = rw (sym (ap (λ x. x.1) allocated)) at updated;
        response = sym shown;
        text = text;
        marshalled = ap json.marshal (sym shown) ∙ read_text;
        command = s.command;
        stored = s.snapshot;
        found =
            ap (λ x. find (has_key command_type_withdraw req.order_id) x.tables.processed_commands)
              (sym end)
            ∙ s.found;
        written = ap (λ x. x.tables) (sym end) ∙ s.written ∙ ap (with_command s.command) (sym kept);
      }
