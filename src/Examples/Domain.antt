-- ===== src/Examples/Domain.antt =====
-- Concrete cases of the properties of the entities.
use Prim.Native.Nat.{◌%◌, ◌^◌}
use spec_star_go.Prelude.{◌+◌, ◌≡◌, ◌≢◌, ◌↔◌, refl}
use spec_star_go.Prelude.Int.{ℤ, pos, ◌*ℤ◌}
use spec_star_go.Decimal.Whole.{whole, whole_laws}
use spec_star_go.Domain.Effect.{ok}
use spec_star_go.Domain.Asset.{new_asset}
use spec_star_go.Domain.Asset.Laws.{IsValid as IsValidAsset, new_asset_iff}
use spec_star_go.Domain.ProcessedCommand.{new_processed_command, nil_uuid}
use spec_star_go.Domain.ProcessedCommand.Laws.{new_processed_command_iff}
use spec_star_go.Domain.Position.{Position, new_position, reconstruct_position, update_amount}
use spec_star_go.Domain.Position.Laws.{IsValid, reconstruct_position_iff}
use spec_star_go.Domain.Position.Lifecycle.{
  Updates, none, more, amount, SameIdentity, Updates-invariant,
}
use spec_star_go.Examples.Fixtures.{first_lot, asset, command}

new_asset_iff_example :
    (new_asset 2 60 "CDB-1" "CDB" "" "entity" "" "" "A deposit certificate" 10 900 ≡ ok asset)
    ↔ ((asset ≡ asset) × IsValidAsset asset)
new_asset_iff_example = new_asset_iff asset asset

new_processed_command_iff_example :
    (new_processed_command 9 300 command.command_type command.order_id 1 command.response_snapshot
      ≡ ok command)
    ↔ ((command.command_type ≢ "")
        × (command.order_id ≢ "")
        × (command.client_id ≢ nil_uuid)
        × (command.response_snapshot ≢ "")
        × (command ≡ command))
new_processed_command_iff_example = new_processed_command_iff 9 300 "DEPOSIT" "order" 1 "{}" command

reconstruct_position_iff_example :
    (reconstruct_position first_lot ≡ ok first_lot) ↔ ((first_lot ≡ first_lot) × IsValid first_lot)
reconstruct_position_iff_example = reconstruct_position_iff whole_laws first_lot first_lot

-- a lot of 5 units, then reduced to 2
abbrev bought : Position ℤ
bought = record first_lot { amount = pos 5; total_value = pos 50 }

abbrev reduced : Position ℤ
reduced = record first_lot { updated_at = 400; row_version = 2 }

made : new_position 5 100 1 2 (pos 5) (pos 10) 100 ≡ ok bought
unfolding new_position ◌*ℤ◌
made = refl

reduction : Updates 1 bought reduced
unfolding update_amount ◌*ℤ◌
reduction = more none (amount 400 (pos 2) refl)

Updates-invariant_example :
    IsValid reduced × SameIdentity bought reduced × (reduced.row_version ≡ (1 + 1) % 2 ^ 64)
Updates-invariant_example =
    Updates-invariant whole_laws 5 100 1 2 (pos 5) (pos 10) 100 made reduction
