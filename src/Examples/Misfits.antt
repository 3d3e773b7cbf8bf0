-- ===== src/Examples/Misfits.antt =====
-- A deposit whose total value does not fit its column.
use spec_star_go.Prelude.{◌≡◌, refl, String, str_eq, ◌&&◌, ◌==◌, if◌then◌else◌}
use spec_star_go.Prelude.Int.{ℤ, pos, ◌*ℤ◌}
use spec_star_go.Decimal.Whole.{whole}
use spec_star_go.Decimal.Whole.Text.{read_whole, read_number, print_whole, print_from}
use spec_star_go.Domain.Errors.{wrap}
use spec_star_go.Domain.Position.{Position, new_position}
use spec_star_go.Domain.ProductType.{validate_product_type}
use spec_star_go.Application.Flow.{failure}
use spec_star_go.Application.Deposit.{execute, to_deposit_response}
use spec_star_go.Application.Deposit.Request.{validate_deposit_request}
use spec_star_go.Postgres.World.{Sql, done}
use spec_star_go.Postgres.Writes.{assign_position}
use spec_star_go.Postgres.PositionRepository.{arguments}
use spec_star_go.Postgres.Transaction.{environment}
use spec_star_go.EndToEnd.Success.Misfit.{Misfit, refusal, deposit_misfit}
use spec_star_go.Examples.Fixtures.{codec, sql, world, tables, client, asset_row}
use spec_star_go.Examples.EndToEnd.{deposit, deposit_json}

-- columns with eight digits take 40 for 39
abbrev coarse : Sql ℤ
coarse = record sql {
  numeric = λ precision scale s.
      if scale == 8 && str_eq s "40" then done (pos 39) else sql.numeric precision scale s;
}

-- 4 units at the price 10
abbrev wanted : Position ℤ
wanted = record {
  position_id = 3;
  client_id = 1;
  asset_id = 2;
  amount = pos 4;
  unit_price = pos 10;
  total_value = pos 40;
  collateral_value = pos 0;
  judiciary_collateral_value = pos 0;
  created_at = 300;
  updated_at = 300;
  purchased_at = 300;
  row_version = 1;
}

misfit : Misfit coarse codec deposit_json deposit world wanted
unfolding validate_deposit_request read_whole read_number print_whole print_from
    validate_product_type new_position ◌*ℤ◌ to_deposit_response arguments assign_position
misfit = record {
  cmd = record { client = 1; asset = 2; quantity = pos 4; price = pos 10 };
  valid = refl;
  unknown = refl;
  client = client;
  client_there = refl;
  asset = asset_row;
  asset_there = refl;
  supported = refl;
  made = refl;
  text = "{4}";
  marshalled = refl;
  row = record wanted { total_value = pos 39 };
  assigned = refl;
  misfit = refl;
}

deposit_misfit_example :
    let (r, w') = execute (environment coarse codec) codec deposit_json deposit world in
    ((text : String) × (r
        ≡ failure 500 (wrap "unit of work" (refusal coarse codec deposit_json wanted text))))
    × (w'.tables ≡ tables)
deposit_misfit_example =
    deposit_misfit coarse codec deposit_json deposit world (λ i. refl) wanted misfit
