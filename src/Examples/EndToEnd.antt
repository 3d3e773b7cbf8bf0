-- ===== src/Examples/EndToEnd.antt =====
-- Concrete deposits and withdrawals on the tables of the examples.
use spec_star_go.Prelude.{
  str_eq, eq_iff, ◌≡◌, refl, sym, [], ◌∷◌, inl, inr, arith, true, none, some, Bool, Bool-cases, ap,
  ◌&&◌, if◌then◌else◌, ◌++◌,
}
use spec_star_go.Prelude.Int.{ℤ, ◌*ℤ◌, pos}
use spec_star_go.Decimal.Whole.{whole}
use spec_star_go.Domain.Errors.{message}
use spec_star_go.Domain.Effect.{ok, err}
use spec_star_go.Ports.{Json}
use spec_star_go.Application.Flow.{Reply, success}
use spec_star_go.Application.Flow.Replies.{IsReply}
use spec_star_go.Application.Deposit.{DepositResponse}
use spec_star_go.Application.Deposit as Deposit
use spec_star_go.Application.Deposit.Request.{DepositRequest, validate_deposit_request}
use spec_star_go.Application.Deposit.Replies.{deposit_replies}
use spec_star_go.Application.Flow.{◌>>=◌}
use spec_star_go.Decimal.Whole.Text.{read_whole, read_number, print_whole, print_from}
use spec_star_go.Domain.Client.{reconstruct_client}
use spec_star_go.Domain.Position.{new_position, Position}
use spec_star_go.Domain.ProcessedCommand.{new_processed_command, ProcessedCommand}
use spec_star_go.Domain.ProductType.{validate_product_type}
use spec_star_go.Postgres.Statements.{select_command, select_client, select_asset}
use spec_star_go.Postgres.Writes.{insert_position, assign_position, check_position, insert_command}
use spec_star_go.Postgres.Repositories.{
  find_command, find_client, find_asset, scan_asset, create_command, string_from_nullable,
}
use spec_star_go.Postgres.PositionRepository.{create_position, arguments}
use spec_star_go.Postgres.World.{Tables, World, statement}
use spec_star_go.Postgres.World.Laws.{used}
use spec_star_go.Postgres.Transaction.{environment, transact, conclude}
use spec_star_go.EndToEnd.Deposit.{Outcome, Created, deposit-Outcome}
use spec_star_go.EndToEnd.Replay.{RoundTrips, deposit_again}
use spec_star_go.EndToEnd.Success.{Acceptable, deposit_succeeds}
use spec_star_go.Examples.Fixtures.{codec, sql, world, tables, client, asset_row}

-- the response to a deposit of 4 units at the price 10
abbrev position_response : DepositResponse
position_response = record {
  position_id = "u3";
  client_id = "u1";
  asset_id = "u2";
  amount = "4";
  unit_price = "10";
  total_value = "40";
  collateral_value = "0";
  judiciary_collateral_value = "0";
  purchased_at = "2024-05-01T00:00:00Z";
  created_at = "2024-05-01T00:00:00Z";
  updated_at = "2024-05-01T00:00:00Z";
}

-- JSON for that response
abbrev is_response : DepositResponse → Bool
is_response r =
    str_eq r.position_id "u3"
    && str_eq r.client_id "u1"
    && str_eq r.asset_id "u2"
    && str_eq r.amount "4"
    && str_eq r.unit_price "10"
    && str_eq r.total_value "40"
    && str_eq r.collateral_value "0"
    && str_eq r.judiciary_collateral_value "0"
    && str_eq r.purchased_at "2024-05-01T00:00:00Z"
    && str_eq r.created_at "2024-05-01T00:00:00Z"
    && str_eq r.updated_at "2024-05-01T00:00:00Z"

abbrev pub deposit_json : Json DepositResponse
deposit_json = record {
  marshal = λ r. if is_response r then ok "{4}" else err (message "unsupported");
  unmarshal =
      λ s. if str_eq s "{4}" then ok position_response else err (message "invalid character");
}

abbrev pub deposit : DepositRequest
deposit = record {
  client_id = "u1";
  asset_id = "u2";
  order_id = "order";
  amount = "4";
  unit_price = "10";
}

abbrev pub after_deposit : Reply DepositResponse × World ℤ
after_deposit = Deposit.execute (environment sql codec) codec deposit_json deposit world

deposit-Outcome_example :
    Outcome sql codec deposit_json deposit tables after_deposit.0 after_deposit.1
deposit-Outcome_example = deposit-Outcome sql codec deposit_json deposit tables world refl

went_through : after_deposit.0.status ≡ 201
unfolding Deposit.execute Deposit.steps ◌>>=◌ validate_deposit_request read_whole read_number
    print_whole print_from Deposit.replay find_command statement select_command find_client
    select_client find_asset select_asset validate_product_type scan_asset new_position ◌*ℤ◌
    Deposit.deserialize_snapshot Deposit.persist Deposit.settle Deposit.to_deposit_response
    reconstruct_client new_processed_command string_from_nullable transact conclude create_position
    arguments insert_position assign_position check_position create_command insert_command
went_through = refl

deposit_replies_example : IsReply (200 ∷ 201 ∷ []) (409 ∷ 422 ∷ 500 ∷ []) after_deposit.0
deposit_replies_example = deposit_replies (environment sql codec) codec deposit_json deposit world

is_response_iff : (r : DepositResponse) → is_response r ≡ true → r ≡ position_response
is_response_iff r h =
    let a = eq_iff r.position_id "u3" in
    let b = eq_iff r.client_id "u1" in
    let c = eq_iff r.asset_id "u2" in
    let e = eq_iff r.amount "4" in
    let f = eq_iff r.unit_price "10" in
    let g = eq_iff r.total_value "40" in
    let i = eq_iff r.collateral_value "0" in
    let j = eq_iff r.judiciary_collateral_value "0" in
    let k = eq_iff r.purchased_at "2024-05-01T00:00:00Z" in
    let l = eq_iff r.created_at "2024-05-01T00:00:00Z" in
    let m = eq_iff r.updated_at "2024-05-01T00:00:00Z" in ground arith

pub deposit_trips : RoundTrips sql deposit_json
deposit_trips resp text stored m j = elim (Bool-cases (is_response resp)) [
  | inl h ↦
      let same = is_response_iff resp h in
      let read : text ≡ "{4}" = ground arith in
      let at : stored ≡ "{4}" = ground (arith, read) in rw at (ap ok (sym same))
  | inr h ↦ ground arith
]

pub holds : after_deposit.1.faults 0 ≡ none
unfolding Deposit.execute Deposit.steps ◌>>=◌ validate_deposit_request read_whole read_number
    print_whole print_from Deposit.replay find_command statement select_command find_client
    select_client find_asset select_asset validate_product_type scan_asset new_position ◌*ℤ◌
    Deposit.deserialize_snapshot Deposit.persist Deposit.settle Deposit.to_deposit_response
    reconstruct_client new_processed_command string_from_nullable transact conclude create_position
    arguments insert_position assign_position check_position create_command insert_command
holds = refl

pub created : Created sql codec deposit_json deposit tables after_deposit.0 after_deposit.1
created = elim (deposit-Outcome sql codec deposit_json deposit tables world refl) [
  | inl (refused, _) ↦ absurd (refused went_through)
  | inr c ↦ c
]

deposit_again_example :
    (resp : DepositResponse) × (after_deposit.0.response ≡ some resp)
    × (Deposit.execute (environment sql codec) codec deposit_json deposit after_deposit.1
        ≡ (success 200 resp, used after_deposit.1))
deposit_again_example =
    deposit_again sql codec deposit_json deposit_trips deposit tables after_deposit.0
      after_deposit.1 created holds

-- the position and the command of that deposit
abbrev new_lot : Position ℤ
new_lot = record {
  position_id = 3;
  client_id = 1;
  asset_id = 2;
  amount = pos 4;
  unit_price = pos 10;
  total_value = pos 40;
  collateral_value = pos 0;
  judiciary_collateral_value = pos 0;
  created_at = 300;
  updated_at = 300;
  purchased_at = 300;
  row_version = 1;
}

abbrev new_command : ProcessedCommand
new_command = record {
  command_id = 3;
  command_type = "DEPOSIT";
  order_id = "order";
  client_id = 1;
  response_snapshot = "{4}";
  created_at = 300;
}

abbrev with_lot : Tables ℤ
with_lot = record tables { positions = tables.positions ++ new_lot ∷ [] }

abbrev with_both : Tables ℤ
with_both = record with_lot { processed_commands = new_command ∷ [] }

acceptable : Acceptable sql codec deposit_json deposit world new_lot with_both
unfolding validate_deposit_request read_whole read_number print_whole print_from
    validate_product_type new_position ◌*ℤ◌ Deposit.to_deposit_response arguments insert_position
    assign_position check_position insert_command new_processed_command
acceptable = record {
  cmd = record { client = 1; asset = 2; quantity = pos 4; price = pos 10 };
  valid = refl;
  unknown = refl;
  client = client;
  client_there = refl;
  asset = asset_row;
  asset_there = refl;
  supported = refl;
  made = refl;
  text = "{4}";
  marshalled = refl;
  with_position = with_lot;
  position_inserted = refl;
  command = new_command;
  recorded = refl;
  command_inserted = refl;
}

deposit_succeeds_example :
    (after_deposit.0
      ≡ success 201
          (Deposit.to_deposit_response (environment sql codec) codec deposit_json new_lot))
    × (after_deposit.1.tables ≡ with_both)
deposit_succeeds_example =
    deposit_succeeds sql codec deposit_json deposit world (λ i. refl) new_lot with_both acceptable
