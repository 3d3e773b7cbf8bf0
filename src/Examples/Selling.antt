-- ===== src/Examples/Selling.antt =====
-- A withdrawal of the whole older lot that nothing stands against.
use spec_star_go.Prelude.{◌≡◌, refl, [], ◌∷◌, arith}
use spec_star_go.Prelude.Int.{ℤ, pos, ◌*ℤ◌, ◌-ℤ◌, ◌+ℤ◌}
use spec_star_go.Decimal.Whole.{whole}
use spec_star_go.Domain.Effect.{ok}
use spec_star_go.Domain.Position.{Position, reconstruct_position, available_value, update_amount}
use spec_star_go.Domain.ProcessedCommand.{ProcessedCommand, new_processed_command}
use spec_star_go.Application.Flow.{success}
use spec_star_go.Application.Withdraw.{execute, to_withdraw_response}
use spec_star_go.Application.Withdraw.Request.{validate_withdraw_request}
use spec_star_go.Application.Withdraw.Lots.{allocate, select, consume, sell, units_sold}
use spec_star_go.Postgres.World.{Tables, done}
use spec_star_go.Postgres.Statements.{
  select_all, is_of_instrument, order_by_purchased_at, insert_ordered,
}
use spec_star_go.Postgres.Writes.{
  insert_command, update_position, assign_position, update_rows, check_position,
}
use spec_star_go.Postgres.PositionRepository.{arguments, previous_version, scan_all, scan_position}
use spec_star_go.Postgres.Transaction.{environment}
use spec_star_go.EndToEnd.Success.Calls.{all_accepted, accepted}
use spec_star_go.EndToEnd.Success.Withdraw.{Sellable, withdraw_succeeds}
use spec_star_go.Decimal.Whole.Text.{read_whole, print_whole, print_from, read_number}
use spec_star_go.Examples.Fixtures.{codec, sql, world, tables, first_lot, second_lot, client}
use spec_star_go.Examples.Withdrawals.{withdraw_json, withdrawal}

abbrev sold_out : Position ℤ
sold_out = record first_lot {
  amount = pos 0;
  total_value = pos 0;
  row_version = 2;
  updated_at = 300;
}

abbrev updated : Tables ℤ
updated = record tables { positions = second_lot ∷ sold_out ∷ [] }

abbrev command : ProcessedCommand
command = record {
  command_id = 3;
  command_type = "WITHDRAW";
  order_id = "order";
  client_id = 1;
  response_snapshot = "[0]";
  created_at = 300;
}

update_accepted :
    update_position sql
      (arguments sql codec sold_out)
      (previous_version sql codec sold_out.row_version)
      tables
    ≡ done (1, updated)
unfolding update_position assign_position read_whole arguments print_whole print_from read_number
    update_rows check_position ◌*ℤ◌
update_accepted = refl

valid : validate_withdraw_request codec withdrawal ≡ ok (record { client = 1; desired = pos 20 })
unfolding validate_withdraw_request read_whole read_number
valid = refl

readable :
    scan_all sql codec (
      order_by_purchased_at
        (select_all (is_of_instrument tables.assets 1 "CDB-1") tables.positions))
    ≡ ok (first_lot ∷ second_lot ∷ [])
unfolding scan_all order_by_purchased_at is_of_instrument insert_ordered scan_position read_whole
    print_whole print_from read_number reconstruct_position ◌*ℤ◌
readable = refl

allocated : allocate world.times (pos 20) (first_lot ∷ second_lot ∷ []) ≡ ok (sold_out ∷ [])
unfolding allocate select available_value ◌-ℤ◌ ◌+ℤ◌ consume sell update_amount units_sold ◌*ℤ◌
allocated = refl

marshalled :
    withdraw_json.marshal
      (to_withdraw_response (environment sql codec) codec withdraw_json (sold_out ∷ []))
    ≡ ok "[0]"
unfolding to_withdraw_response print_whole print_from
marshalled = refl

recorded : new_processed_command 3 300 "WITHDRAW" "order" 1 "[0]" ≡ ok command
unfolding new_processed_command
recorded = refl

inserted :
    insert_command sql command updated
    ≡ done (tt, record updated { processed_commands = command ∷ [] })
unfolding insert_command
inserted = refl

abbrev sellable :
    Sellable sql codec withdraw_json withdrawal world
      (sold_out ∷ [])
      (record updated { processed_commands = command ∷ [] })
sellable = record {
  cmd = record { client = 1; desired = pos 20 };
  valid = valid;
  unknown = refl;
  client = client;
  client_there = refl;
  lots = first_lot ∷ second_lot ∷ [];
  readable = readable;
  allocated = allocated;
  updated = updated;
  updates = accepted 1 update_accepted (omega arith) all_accepted;
  text = "[0]";
  marshalled = marshalled;
  command = command;
  recorded = recorded;
  command_inserted = inserted;
}

withdraw_succeeds_example :
    let (r, w') = execute (environment sql codec) codec withdraw_json withdrawal world in
    (r
      ≡ success 200
          (to_withdraw_response (environment sql codec) codec withdraw_json (sold_out ∷ [])))
    × (w'.tables ≡ record updated { processed_commands = command ∷ [] })
withdraw_succeeds_example =
    withdraw_succeeds sql codec withdraw_json withdrawal world (λ i. refl) (sold_out ∷ [])
      (record updated { processed_commands = command ∷ [] }) sellable
