-- ===== src/Examples/Withdrawals.antt =====
-- Concrete withdrawals on the tables of the examples.
use spec_star_go.Prelude.{
  str_eq, eq_iff, ◌≡◌, ◌⊎◌, refl, sym, List, [], ◌∷◌, inl, inr, arith, true, false, none, some,
  Bool, Bool-cases, length, ap, ◌&&◌, if◌then◌else◌,
}
use spec_star_go.Prelude.Int.{ℤ, ◌*ℤ◌, ◌+ℤ◌, ◌-ℤ◌}
use spec_star_go.Decimal.Whole.{whole, whole_laws}
use spec_star_go.Domain.Errors.{message}
use spec_star_go.Domain.Effect.{ok, err}
use spec_star_go.Ports.{Json}
use spec_star_go.Application.Flow.{Reply, success}
use spec_star_go.Application.Flow.Replies.{IsReply}
use spec_star_go.Application.Withdraw.{WithdrawResponse, PositionDto}
use spec_star_go.Application.Withdraw as Withdraw
use spec_star_go.Application.Withdraw.Request.{WithdrawRequest, validate_withdraw_request}
use spec_star_go.Application.Withdraw.Lots.{allocate, select, consume, sell, units_sold}
use spec_star_go.Application.Withdraw.Replies.{withdraw_replies}
use spec_star_go.Application.Flow.{◌>>=◌}
use spec_star_go.Decimal.Whole.Text.{read_whole, read_number, print_whole, print_from}
use spec_star_go.Domain.Client.{reconstruct_client}
use spec_star_go.Domain.Position.{reconstruct_position, available_value, update_amount}
use spec_star_go.Domain.ProcessedCommand.{new_processed_command}
use spec_star_go.Postgres.Statements.{
  select_command, select_client, select_by_instrument, order_by_purchased_at, insert_ordered,
  is_of_instrument,
}
use spec_star_go.Postgres.Writes.{
  update_position, update_rows, assign_position, check_position, insert_command,
}
use spec_star_go.Postgres.Repositories.{find_command, find_client, create_command}
use spec_star_go.Postgres.PositionRepository.{
  find_by_client_and_instrument, collect_positions, scan_all, scan_position, update_one,
  conflict_if_none, arguments,
}
use spec_star_go.Postgres.World.{World, statement}
use spec_star_go.Postgres.World.Laws.{used}
use spec_star_go.Postgres.Transaction.{environment, transact, conclude}
use spec_star_go.EndToEnd.Withdraw.{Withdrawn, withdraw_outcome}
use spec_star_go.EndToEnd.Books.{Books, withdraw_sells}
use spec_star_go.EndToEnd.Rows.{Rewritten, withdraw_rows}
use spec_star_go.EndToEnd.Replay.{RoundTrips, withdraw_again}
use spec_star_go.Examples.Fixtures.{codec, sql, world, tables, well_formed}

abbrev sold_lot : PositionDto
sold_lot = record {
  position_id = "u3";
  client_id = "u1";
  asset_id = "u2";
  amount = "0";
  unit_price = "10";
  total_value = "0";
  collateral_value = "0";
  judiciary_collateral_value = "0";
  purchased_at = "2024-05-01T00:00:00Z";
  created_at = "2024-05-01T00:00:00Z";
  updated_at = "2024-05-01T00:00:00Z";
}

-- JSON for the response with that lot
abbrev is_sold : PositionDto → Bool
is_sold r =
    str_eq r.position_id "u3"
    && str_eq r.client_id "u1"
    && str_eq r.asset_id "u2"
    && str_eq r.amount "0"
    && str_eq r.unit_price "10"
    && str_eq r.total_value "0"
    && str_eq r.collateral_value "0"
    && str_eq r.judiciary_collateral_value "0"
    && str_eq r.purchased_at "2024-05-01T00:00:00Z"
    && str_eq r.created_at "2024-05-01T00:00:00Z"
    && str_eq r.updated_at "2024-05-01T00:00:00Z"

abbrev is_response : List PositionDto → Bool
is_response [] = false
is_response (p ∷ []) = is_sold p
is_response (p ∷ q ∷ rest) = false

abbrev sold_response : WithdrawResponse
sold_response = record { positions = sold_lot ∷ [] }

abbrev pub withdraw_json : Json WithdrawResponse
withdraw_json = record {
  marshal = λ r. if is_response r.positions then ok "[0]" else err (message "unsupported");
  unmarshal = λ s. if str_eq s "[0]" then ok sold_response else err (message "invalid character");
}

-- 20 is the whole of the older lot
abbrev pub withdrawal : WithdrawRequest
withdrawal = record {
  client_id = "u1";
  instrument_id = "CDB-1";
  order_id = "order";
  desired_value = "20";
}

abbrev pub after_withdrawal : Reply WithdrawResponse × World ℤ
after_withdrawal = Withdraw.execute (environment sql codec) codec withdraw_json withdrawal world

withdraw_outcome_example :
    (after_withdrawal.1.tables ≡ tables)
    ⊎ Withdrawn sql codec withdraw_json withdrawal tables after_withdrawal.0 after_withdrawal.1
withdraw_outcome_example = withdraw_outcome sql codec withdraw_json withdrawal tables world refl

withdraw_replies_example : IsReply (200 ∷ []) (404 ∷ 409 ∷ 422 ∷ 500 ∷ []) after_withdrawal.0
withdraw_replies_example =
    withdraw_replies (environment sql codec) codec withdraw_json withdrawal world

recorded : length after_withdrawal.1.tables.processed_commands ≡ 1
unfolding Withdraw.execute Withdraw.steps ◌>>=◌ validate_withdraw_request read_whole read_number
    print_whole print_from Withdraw.replay find_command statement select_command find_client
    select_client ◌*ℤ◌ ◌+ℤ◌ ◌-ℤ◌ Withdraw.deserialize_withdraw_snapshot Withdraw.withdraw_from
    Withdraw.update_all Withdraw.settle Withdraw.to_withdraw_response Withdraw.to_dto
    reconstruct_client new_processed_command transact conclude find_by_client_and_instrument
    select_by_instrument order_by_purchased_at insert_ordered is_of_instrument collect_positions
    scan_all scan_position reconstruct_position allocate select available_value consume sell
    units_sold update_amount update_one conflict_if_none update_position update_rows arguments
    assign_position check_position create_command insert_command
recorded = refl

pub holds : after_withdrawal.1.faults 0 ≡ none
unfolding Withdraw.execute Withdraw.steps ◌>>=◌ validate_withdraw_request read_whole read_number
    print_whole print_from Withdraw.replay find_command statement select_command find_client
    select_client ◌*ℤ◌ ◌+ℤ◌ ◌-ℤ◌ Withdraw.deserialize_withdraw_snapshot Withdraw.withdraw_from
    Withdraw.update_all Withdraw.settle Withdraw.to_withdraw_response Withdraw.to_dto
    reconstruct_client new_processed_command transact conclude find_by_client_and_instrument
    select_by_instrument order_by_purchased_at insert_ordered is_of_instrument collect_positions
    scan_all scan_position reconstruct_position allocate select available_value consume sell
    units_sold update_amount update_one conflict_if_none update_position update_rows arguments
    assign_position check_position create_command insert_command
holds = refl

pub withdrawn :
    Withdrawn sql codec withdraw_json withdrawal tables after_withdrawal.0 after_withdrawal.1
withdrawn = elim (withdraw_outcome sql codec withdraw_json withdrawal tables world refl) [
  | inl same ↦ absurd (omega (arith, recorded, ap (λ t. length t.processed_commands) same))
  | inr x ↦ x
]

withdraw_sells_example :
    Books whole_laws codec sql withdraw_json withdrawal tables after_withdrawal.0
withdraw_sells_example =
    withdraw_sells whole_laws codec sql withdraw_json withdrawal tables after_withdrawal.0
      after_withdrawal.1 withdrawn

withdraw_rows_example :
    Rewritten sql codec withdraw_json withdrawal tables after_withdrawal.0 after_withdrawal.1
withdraw_rows_example =
    withdraw_rows sql codec withdraw_json withdrawal tables after_withdrawal.0 after_withdrawal.1
      well_formed withdrawn

is_sold_iff : (r : PositionDto) → is_sold r ≡ true → r ≡ sold_lot
is_sold_iff r h =
    let a = eq_iff r.position_id "u3" in
    let b = eq_iff r.client_id "u1" in
    let c = eq_iff r.asset_id "u2" in
    let e = eq_iff r.amount "0" in
    let f = eq_iff r.unit_price "10" in
    let g = eq_iff r.total_value "0" in
    let i = eq_iff r.collateral_value "0" in
    let j = eq_iff r.judiciary_collateral_value "0" in
    let k = eq_iff r.purchased_at "2024-05-01T00:00:00Z" in
    let l = eq_iff r.created_at "2024-05-01T00:00:00Z" in
    let m = eq_iff r.updated_at "2024-05-01T00:00:00Z" in ground arith

is_response_iff : (ps : List PositionDto) → is_response ps ≡ true → ps ≡ sold_lot ∷ []
is_response_iff [] h = ground arith
is_response_iff (p ∷ []) h = ap (λ q. q ∷ []) (is_sold_iff p h)
is_response_iff (p ∷ q ∷ rest) h = ground arith

pub withdraw_trips : RoundTrips sql withdraw_json
withdraw_trips resp text stored m j = elim (Bool-cases (is_response resp.positions)) [
  | inl h ↦
      let same = is_response_iff resp.positions h in
      let read : text ≡ "[0]" = ground arith in
      let at : stored ≡ "[0]" = ground (arith, read) in
      rw at (ap (λ ps. ok (record { positions = ps })) (sym same))
  | inr h ↦ ground arith
]

withdraw_again_example :
    (resp : WithdrawResponse) × (after_withdrawal.0.response ≡ some resp)
    × (Withdraw.execute (environment sql codec) codec withdraw_json withdrawal after_withdrawal.1
        ≡ (success 200 resp, used after_withdrawal.1))
withdraw_again_example =
    withdraw_again sql codec withdraw_json withdraw_trips withdrawal tables after_withdrawal.0
      after_withdrawal.1 withdrawn holds
