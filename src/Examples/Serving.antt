-- ===== src/Examples/Serving.antt =====
-- A withdrawal and a deposit, one after the other, on the tables.
use spec_star_go.Prelude.{List, [], ◌∷◌}
use spec_star_go.Decimal.Whole.{whole}
use spec_star_go.Domain.Errors.{message}
use spec_star_go.Domain.Effect.{ok, err}
use spec_star_go.Ports.{Json}
use spec_star_go.Application.Deposit.{DepositResponse}
use spec_star_go.Application.Withdraw.{WithdrawResponse}
use spec_star_go.EndToEnd.Invariant.{ServiceRequest, deposit, withdraw, serve}
use spec_star_go.EndToEnd.History.{Grown, serve-Grown}
use spec_star_go.Examples.Fixtures.{codec, sql, world, well_formed}

-- documents without their contents
abbrev deposit_json : Json DepositResponse
deposit_json = record { marshal = λ r. ok "{}"; unmarshal = λ s. err (message "unsupported") }

abbrev withdraw_json : Json WithdrawResponse
withdraw_json = record { marshal = λ r. ok "{}"; unmarshal = λ s. err (message "unsupported") }

abbrev requests : List ServiceRequest
requests =
    withdraw (record {
      client_id = "u1";
      instrument_id = "CDB-1";
      order_id = "first";
      desired_value = "20";
    })
    ∷ deposit (record {
      client_id = "u1";
      asset_id = "u2";
      order_id = "second";
      amount = "4";
      unit_price = "10";
    })
    ∷ []

serve-Grown_example :
    Grown world.tables (serve sql codec deposit_json withdraw_json requests world).tables
serve-Grown_example = serve-Grown sql codec deposit_json withdraw_json requests world well_formed
