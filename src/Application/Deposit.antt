-- ===== src/Application/Deposit.antt =====
-- internal/application/deposit_service.go
pub mod Request
pub mod Replies
use spec_star_go.Prelude.{ℕ, String, Option, none, some, Bool, true, false, not, if◌then◌else◌}
use spec_star_go.Decimal.{Decimal}
use spec_star_go.Domain.Errors.{Error, wrap, message, is, not_found, duplicate}
use spec_star_go.Domain.Effect.{Result, ok, err, Action, bind, wrapped}
use spec_star_go.Domain.Asset.{Asset}
use spec_star_go.Domain.Position.{Position, new_position}
use spec_star_go.Domain.ProcessedCommand.{ProcessedCommand, new_processed_command}
use spec_star_go.Domain.ProductType.{validate_product_type}
use spec_star_go.Ports.{Environment, Codec, Json}
use spec_star_go.Application.Flow.{
  Reply, Flow, reply, next, success, failure, finish, handle, call, lift, get, attempt, wrap_call,
  make_command, lookup_failure, ◌>>=◌, ◌>>◌,
}
use Request.{DepositRequest, validate_deposit_request}

-- `DepositResponse`
pub record DepositResponse : Type 0 where
  pub position_id : String
  pub client_id : String
  pub asset_id : String
  pub amount : String
  pub unit_price : String
  pub total_value : String
  pub collateral_value : String
  pub judiciary_collateral_value : String
  pub purchased_at : String
  pub created_at : String
  pub updated_at : String

abbrev pub command_type_deposit : String
command_type_deposit = "DEPOSIT"

module _ {W D : Type 0} ⦃d : Decimal D⦄ (env : Environment W D) (codec : Codec)
    (json : Json DepositResponse) where
  open env use {clients, assets, positions, processed_commands, unit_of_work, system}

  unfoldable pub deserialize_snapshot : String → Reply DepositResponse
  deserialize_snapshot snapshot = elim (json.unmarshal snapshot) [
    | ok resp ↦ success 200 resp
    | err e ↦ failure 500 (wrap "unmarshal response snapshot" e)
  ]

  unfoldable pub to_deposit_response : Position D → DepositResponse
  to_deposit_response p = record {
    position_id = codec.uuid_string p.position_id;
    client_id = codec.uuid_string p.client_id;
    asset_id = codec.uuid_string p.asset_id;
    amount = d.to_string p.amount;
    unit_price = d.to_string p.unit_price;
    total_value = d.to_string p.total_value;
    collateral_value = d.to_string p.collateral_value;
    judiciary_collateral_value = d.to_string p.judiciary_collateral_value;
    purchased_at = codec.format_rfc3339 p.purchased_at;
    created_at = codec.format_rfc3339 p.created_at;
    updated_at = codec.format_rfc3339 p.updated_at;
  }

  -- the stored answer of a command that was found, or the early return of a lookup that failed
  unfoldable pub replay : Result ProcessedCommand → Flow DepositResponse (Unit {0})
  unfolding deserialize_snapshot
  replay (ok existing) = reply (deserialize_snapshot existing.response_snapshot)
  replay (err e) =
      if is e not_found then next tt else reply (failure 500 (wrap "find processed command" e))

  unfoldable pub replay_after_race : String → W → Reply DepositResponse × W
  unfolding deserialize_snapshot
  replay_after_race order_id w =
      let (found, w') =
        processed_commands.find_by_type_and_order_id command_type_deposit order_id w in
      (
        elim found [
          | ok existing ↦ deserialize_snapshot existing.response_snapshot
          | err e ↦ failure 409 (wrap "replay after race" e)
        ],
        w',
      )

  -- the function that runs in the transaction
  unfoldable pub persist : Position D → String → ℕ → String → Action W (Unit {0})
  persist position order_id client snapshot =
      bind (wrap_call "create position" (positions.create position)) λ _.
        bind (make_command system command_type_deposit order_id client snapshot)
          λ cmd. wrap_call "create processed command" (processed_commands.create cmd)

  unfoldable pub settle :
      String
      → DepositResponse
      → Result (Unit {0})
      → W
      → Flow DepositResponse (Reply DepositResponse) × W
  unfolding replay_after_race
  settle order_id resp (ok _) w = (next (success 201 resp), w)
  settle order_id resp (err e) w =
      if is e duplicate
      then (let (r, w') = replay_after_race order_id w in (next r, w'))
      else (reply (failure 500 (wrap "unit of work" e)), w)

  unfoldable pub steps : DepositRequest → W → Flow DepositResponse (Reply DepositResponse) × W
  steps req = do
    cmd ← lift (handle (failure 422) (validate_deposit_request codec req))
    existing ←
        attempt (processed_commands.find_by_type_and_order_id command_type_deposit req.order_id)
    lift (replay existing)
    call (clients.find_by_id cmd.client) (lookup_failure "client not found" "find client")
    asset ← call (assets.find_by_id cmd.asset) (lookup_failure "asset not found" "find asset")
    lift (
        handle (λ _. failure 422 (message "unsupported product type"))
          (validate_product_type asset.product_type))
    purchased_at ← get system.now
    now ← get system.now
    id ← get system.new_uuid
    position ← lift (
        handle (λ e. failure 500 (wrap "new position" e))
          (new_position id now cmd.client cmd.asset cmd.quantity cmd.price purchased_at))
    let resp = to_deposit_response position
    snapshot ←
        lift (handle (λ e. failure 500 (wrap "marshal response snapshot" e)) (json.marshal resp))
    stored ← attempt (unit_of_work.run (persist position req.order_id cmd.client snapshot))
    settle req.order_id resp stored

  unfoldable pub execute : DepositRequest → W → Reply DepositResponse × W
  execute req w = finish (steps req w)
