-- ===== src/EndToEnd/Success.antt =====
-- A deposit that nothing stands against goes through.
pub mod Calls
pub mod Misfit
pub mod Withdraw
use spec_star_go.Prelude.{ℕ, suc, String, ◌≡◌, refl, none, some}
use spec_star_go.Decimal.{Decimal}
use spec_star_go.Domain.Errors.{wrap, sentinel, not_found}
use spec_star_go.Domain.Effect.{ok, err, Action}
use spec_star_go.Domain.Client.{Client, reconstruct_client}
use spec_star_go.Domain.Position.{Position, new_position}
use spec_star_go.Domain.ProcessedCommand.{ProcessedCommand, new_processed_command}
use spec_star_go.Domain.ProductType.{validate_product_type}
use spec_star_go.Ports.{Codec, Json}
use spec_star_go.Application.Flow.{success, ◌>>=◌}
use spec_star_go.Application.Deposit.{
  DepositResponse, command_type_deposit, execute, steps, replay, settle, persist,
  to_deposit_response,
}
use spec_star_go.Application.Deposit.Request.{
  DepositRequest, ValidDeposit, validate_deposit_request,
}
use spec_star_go.Postgres.World.{AssetRow, World, Tables, Sql, done, no_rows}
use spec_star_go.Postgres.World.Laws.{used, statement_done, statement_fail}
use spec_star_go.Postgres.Statements.{
  find, has_key, has_client_id, has_asset_id, select_command, select_client, select_asset,
}
use spec_star_go.Postgres.Writes.{insert_position, insert_command}
use spec_star_go.Postgres.Repositories.{
  command_label, find_command, find_client, find_asset, scan_asset, create_command,
}
use spec_star_go.Postgres.PositionRepository.{arguments, create_position}
use spec_star_go.Postgres.Transaction.{environment, transact, conclude}

transact_ok :
    {D A : Type 0} (fn : Action (World D) A) (w w' : World D) (a : A)
    → w.faults 0 ≡ none
    → fn (used w) ≡ (ok a, w')
    → w'.faults 0 ≡ none
    → transact fn w ≡ (ok a, used w')
unfolding transact conclude
transact_ok fn w w' a h run k = rw (h, run, transact, k, conclude) refl

module _ {D : Type 0} ⦃d : Decimal D⦄ (sql : Sql D) (codec : Codec) (w : World D)
    (holds : w.faults 0 ≡ none) where
  find_command-none :
      (command_type order_id : String)
      → find (has_key command_type order_id) w.tables.processed_commands ≡ none
      → find_command sql codec command_type order_id w
        ≡ (err (wrap (command_label sql codec command_type order_id) (sentinel not_found)), used w)
  unfolding find_command select_command
  find_command-none command_type order_id absent =
      let run =
        statement_fail (select_command command_type order_id) w no_rows holds (rw absent refl) in
      rw run refl

  find_client-some :
      (id : ℕ) (c : Client)
      → find (has_client_id id) w.tables.clients ≡ some c
      → find_client sql codec id w ≡ (ok c, used w)
  unfolding find_client select_client reconstruct_client
  find_client-some id c there =
      let run = statement_done (select_client id) w c w.tables holds (rw there refl) in rw run refl

  find_asset-some :
      (id : ℕ) (a : AssetRow)
      → find (has_asset_id id) w.tables.assets ≡ some a
      → find_asset sql codec id w ≡ (ok (scan_asset a), used w)
  unfolding find_asset select_asset
  find_asset-some id a there =
      let run = statement_done (select_asset id) w a w.tables holds (rw there refl) in rw run refl

  create_position-done :
      (p : Position D) (t : Tables D)
      → insert_position sql (arguments sql codec p) w.tables ≡ done (tt, t)
      → create_position sql codec p w ≡ (ok tt, record (used w) { tables = t })
  unfolding create_position
  create_position-done p t h =
      let run = statement_done (insert_position sql (arguments sql codec p)) w tt t holds h in
      rw run refl

  create_command-done :
      (c : ProcessedCommand) (t : Tables D)
      → insert_command sql c w.tables ≡ done (tt, t)
      → create_command sql codec c w ≡ (ok tt, record (used w) { tables = t })
  unfolding create_command
  create_command-done c t h =
      let run = statement_done (insert_command sql c) w tt t holds h in rw run refl

module _ {D : Type 0} ⦃d : Decimal D⦄ (sql : Sql D) (codec : Codec)
    (json : Json DepositResponse) where
  -- Nothing stands against the deposit: the request is valid and new, the client and a supported
  -- asset exist, the response can be written, and the database accepts the two rows.
  pub record Acceptable (req : DepositRequest) (w : World D) (p : Position D) (t : Tables D)
      : Type 0 where
    pub cmd : ValidDeposit D
    pub valid : validate_deposit_request codec req ≡ ok cmd
    pub unknown :
        find (has_key command_type_deposit req.order_id) w.tables.processed_commands ≡ none
    pub client : Client
    pub client_there : find (has_client_id cmd.client) w.tables.clients ≡ some client
    pub asset : AssetRow
    pub asset_there : find (has_asset_id cmd.asset) w.tables.assets ≡ some asset
    pub supported : validate_product_type asset.product_type ≡ ok tt
    pub made :
        new_position (w.uuids 0) (w.times 1) cmd.client cmd.asset cmd.quantity cmd.price (w.times 0)
        ≡ ok p
    pub text : String
    pub marshalled :
        json.marshal (to_deposit_response (environment sql codec) codec json p) ≡ ok text
    pub with_position : Tables D
    pub position_inserted :
        insert_position sql (arguments sql codec p) w.tables ≡ done (tt, with_position)
    pub command : ProcessedCommand
    pub recorded :
        new_processed_command
          (w.uuids 1)
          (w.times 2)
          command_type_deposit
          req.order_id
          cmd.client
          text
        ≡ ok command
    pub command_inserted : insert_command sql command with_position ≡ done (tt, t)

  -- the world in the transaction, after the three lookups and the new position
  abbrev in_transaction : World D → World D
  in_transaction w = record w {
    faults = λ i. w.faults (suc (suc (suc (suc i))));
    uuids = λ i. w.uuids (suc i);
    times = λ i. w.times (suc (suc i));
  }

  abbrev before_transaction : World D → World D
  before_transaction w = record w {
    faults = λ i. w.faults (suc (suc (suc i)));
    uuids = λ i. w.uuids (suc i);
    times = λ i. w.times (suc (suc i));
  }

  abbrev before_command : World D → Tables D → World D
  before_command w t = record {
    tables = t;
    faults = λ i. w.faults (suc (suc (suc (suc (suc i)))));
    uuids = λ i. w.uuids (suc (suc i));
    times = λ i. w.times (suc (suc (suc i)));
  }

  abbrev stored_world : World D → Tables D → World D
  stored_world w t = record {
    tables = t;
    faults = λ i. w.faults (suc (suc (suc (suc (suc (suc i))))));
    uuids = λ i. w.uuids (suc (suc i));
    times = λ i. w.times (suc (suc (suc i)));
  }

  module _ (req : DepositRequest) (w : World D) (holds : (i : ℕ) → w.faults i ≡ none)
      (p : Position D) (t : Tables D) (x : Acceptable req w p t) where
    persist_ok :
        persist
          (environment sql codec)
          codec
          json
          p
          req.order_id
          x.cmd.client
          x.text
          (in_transaction w)
        ≡ (ok tt, stored_world w t)
    unfolding persist
    persist_ok =
        let first =
          create_position-done sql codec (in_transaction w) (holds 4) p x.with_position
            x.position_inserted in
        let second =
          create_command-done sql codec (before_command w x.with_position) (holds 5) x.command t
            x.command_inserted in
        rw (first, persist, x.recorded, second) refl

    -- A deposit that nothing stands against succeeds, while the connection holds: the status is 201,
    -- the response shows the new position, and the tables are those with the two rows.
    pub deposit_succeeds :
        let (r, w') = execute (environment sql codec) codec json req w in
        (r ≡ success 201 (to_deposit_response (environment sql codec) codec json p))
        × (w'.tables ≡ t)
    unfolding execute steps replay settle scan_asset ◌>>=◌
    deposit_succeeds =
        let searched =
          find_command-none sql codec w (holds 0) command_type_deposit req.order_id x.unknown in
        let client =
          find_client-some sql codec (used w) (holds 1) x.cmd.client x.client x.client_there in
        let asset =
          find_asset-some sql codec (used (used w)) (holds 2) x.cmd.asset x.asset x.asset_there in
        let stored =
          transact_ok
            (persist (environment sql codec) codec json p req.order_id x.cmd.client x.text)
            (before_transaction w) (stored_world w t) tt (holds 3) persist_ok (holds 6) in
        rw
          (
            x.valid, searched, replay, client, asset, x.supported, x.made, x.marshalled, stored,
            settle,
          )
          (refl, refl)
