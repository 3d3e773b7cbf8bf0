-- ===== src/Examples/Postgres.antt =====
-- Concrete uses of the repositories and of a transaction.
use mathlib.Core.List.{Perm, ◌++◌ as ◌++ₗ◌}
use Prim.Native.String.{◌++◌}
use spec_star_go.Prelude.{◌≡◌, ◌≢◌, ◌⊎◌, refl, List, [], ◌∷◌, All, arith}
use spec_star_go.Prelude.Int.{ℤ, pos, ◌*ℤ◌}
use spec_star_go.Decimal.Whole.{whole, whole_laws}
use spec_star_go.Domain.Errors.{Error, wrap, sentinel, concurrency_conflict, duplicate}
use spec_star_go.Domain.Effect.{ok, err, Action}
use spec_star_go.Domain.Position.{Position, reconstruct_position}
use spec_star_go.Domain.Position.Laws.{IsValid}
use spec_star_go.Domain.ProcessedCommand.{ProcessedCommand}
use spec_star_go.Postgres.World.{World, statement, done}
use spec_star_go.Postgres.World.Laws.{used}
use spec_star_go.Postgres.Statements.{
  select_all, is_of_instrument, select_by_instrument, order_by_purchased_at, insert_ordered,
}
use spec_star_go.Postgres.Statements.Ordering.{IsOldestFirst}
use spec_star_go.Postgres.Repositories.{
  create_asset, find_asset, create_command, command_label, asset_row,
}
use spec_star_go.Postgres.Writes.Invariant.{Write, IsWellFormed, Write-IsWellFormed}
use spec_star_go.Postgres.Repositories.RoundTrips.{
  create_find_asset, create_command_once, stored_asset,
}
use spec_star_go.Postgres.PositionRepository.{
  update_one, previous_version, find_by_client_and_instrument, arguments, scan_position,
  create_position, find_position,
}
use spec_star_go.Postgres.PositionRepository.Locking.{update_conflict}
use spec_star_go.Postgres.PositionRepository.Interleaving.{Change, here, next, stale_update_fails}
use spec_star_go.Postgres.PositionRepository.Lots.{AreRows, find_by_client_and_instrument_lots}
use spec_star_go.Postgres.Transaction.{transact}
use spec_star_go.Postgres.Transaction.Laws.{Cause, transact-cases}
use spec_star_go.Postgres.Writes.{
  update_position, assign_position, update_rows, check_position, insert_asset, insert_command,
  insert_position,
}
use spec_star_go.Decimal.Whole.Text.{
  read_whole, print_whole, print_from, read_number, read_whole-print_whole,
}
use spec_star_go.Postgres.PositionRepository.RoundTrip.{create_find_position}
use spec_star_go.Examples.Fixtures.{
  codec, sql, world, tables, well_formed, first_lot, second_lot, asset, command, lot,
}

-- the first lot after one unit was sold, and after two were
abbrev one_left : Position ℤ
one_left = record first_lot {
  amount = pos 1;
  total_value = pos 10;
  row_version = 2;
  updated_at = 300;
}

abbrev none_left : Position ℤ
none_left = record first_lot {
  amount = pos 0;
  total_value = pos 0;
  row_version = 2;
  updated_at = 301;
}

abbrev sold_once : World ℤ
sold_once = record world { tables = record tables { positions = second_lot ∷ one_left ∷ [] } }

sale : update_one sql codec one_left world ≡ (ok tt, sold_once)
unfolding update_one statement update_position assign_position read_whole print_whole print_from
    read_number update_rows check_position ◌*ℤ◌
sale = refl

-- then another request sells from the second lot
abbrev two_left : Position ℤ
two_left = record second_lot {
  amount = pos 2;
  total_value = pos 20;
  row_version = 2;
  updated_at = 302;
}

abbrev sold_twice : World ℤ
sold_twice = record world { tables = record tables { positions = two_left ∷ one_left ∷ [] } }

other_sale :
    update_position sql
      (arguments sql codec two_left)
      (previous_version sql codec (arguments sql codec two_left).row_version)
      sold_once.tables
    ≡ done (1, sold_twice.tables)
unfolding update_position assign_position read_whole print_whole print_from read_number update_rows
    check_position arguments ◌*ℤ◌
other_sale = refl

stale_update_fails_example : update_one sql codec none_left sold_twice ≢ (ok tt, sold_twice)
stale_update_fails_example =
    stale_update_fails sql codec one_left none_left world sold_once sold_twice sold_twice
      well_formed refl (omega arith) sale
      (next here (Change.update (arguments sql codec two_left) 1 other_sale))

update_conflict_example : update_one sql codec none_left sold_once ≡ (
  err (wrap ("position " ++ codec.uuid_string 5) (sentinel concurrency_conflict)),
  used sold_once,
)
unfolding assign_position read_whole arguments print_whole print_from read_number
update_conflict_example = update_conflict sql codec none_left none_left sold_once refl refl refl

found :
    find_by_client_and_instrument sql codec 1 "CDB-1" world
    ≡ (ok (first_lot ∷ second_lot ∷ []), world)
unfolding find_by_client_and_instrument statement select_by_instrument order_by_purchased_at
    is_of_instrument insert_ordered scan_position read_whole print_whole print_from read_number
    reconstruct_position ◌*ℤ◌
found = refl

find_by_client_and_instrument_lots_example :
    (rows : List (Position ℤ)) × Perm rows
      (select_all (is_of_instrument tables.assets 1 "CDB-1") tables.positions)
    × AreRows (first_lot ∷ second_lot ∷ []) rows
    × All IsValid (first_lot ∷ second_lot ∷ [])
    × IsOldestFirst (first_lot ∷ second_lot ∷ [])
    × (tables ≡ tables)
find_by_client_and_instrument_lots_example =
    find_by_client_and_instrument_lots whole_laws sql codec 1 "CDB-1" (first_lot ∷ second_lot ∷ [])
      world world found

abbrev transfer : Action (World ℤ) (Unit {0})
transfer = update_one sql codec one_left

transact-cases_example :
    ((e : Error) × Cause transfer world e
      × ((transact transfer world).0 ≡ err e)
      × ((transact transfer world).1.tables ≡ tables))
    ⊎ ((a : Unit {0}) × (w' : World ℤ) × (transfer (used world) ≡ (ok a, w'))
        × ((transact transfer world).0 ≡ ok a)
        × ((transact transfer world).1.tables ≡ w'.tables))
transact-cases_example = transact-cases transfer world

abbrev no_assets : World ℤ
no_assets = record world { tables = record tables { assets = [] } }

created : create_asset sql codec asset no_assets ≡ (ok tt, world)
unfolding create_asset statement insert_asset asset_row
created = refl

create_find_asset_example : find_asset sql codec 2 world ≡ (ok (stored_asset sql asset), used world)
create_find_asset_example = create_find_asset sql codec no_assets world asset created refl

abbrev recorded : World ℤ
recorded = record world { tables = record tables { processed_commands = command ∷ [] } }

stored : create_command sql codec command world ≡ (ok tt, recorded)
unfolding create_command statement insert_command
stored = refl

abbrev repeated : ProcessedCommand
repeated = record command { command_id = 10 }

create_command_once_example :
    create_command sql codec repeated recorded
    ≡ (err (wrap (command_label sql codec "DEPOSIT" "order") (sentinel duplicate)), used recorded)
create_command_once_example =
    create_command_once sql codec world recorded command repeated "{}" stored refl refl refl refl

inserted : insert_command sql command tables ≡ done (tt, recorded.tables)
unfolding insert_command
inserted = refl

Write-IsWellFormed_example : IsWellFormed recorded.tables
Write-IsWellFormed_example =
    Write-IsWellFormed sql tables recorded.tables (Write.command command inserted) well_formed

abbrev third_lot : Position ℤ
third_lot = lot 7 4 40 300

abbrev with_third : World ℤ
with_third = record world {
  tables = record tables { positions = tables.positions ++ₗ third_lot ∷ [] };
}

third_created : create_position sql codec third_lot world ≡ (ok tt, with_third)
unfolding create_position statement insert_position arguments assign_position check_position
    read_whole print_whole print_from read_number ◌*ℤ◌
third_created = refl

create_find_position_example :
    (row : Position ℤ) × (assign_position sql (arguments sql codec third_lot) ≡ done row)
    × IsValid row
    × (find_position sql codec 7 with_third ≡ (ok row, used with_third))
create_find_position_example =
    create_find_position whole_laws sql codec (λ scale a. read_whole-print_whole a) third_lot world
      with_third third_created refl
