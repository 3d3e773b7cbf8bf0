-- ===== src/Application/Withdraw.antt =====
-- internal/application/withdraw_service.go
pub mod Request
pub mod Lots
pub mod Sale
pub mod Overdraft
pub mod Division
pub mod Precision
pub mod Consume
pub mod Sales
pub mod Allocate
pub mod Books
pub mod Replies
use spec_star_go.Prelude.{
  ℕ, String, Option, none, some, Bool, true, false, List, [], ◌∷◌, map, length, if◌then◌else◌,
}
use spec_star_go.Decimal.{Decimal}
use spec_star_go.Domain.Errors.{
  Error, wrap, message, is, not_found, duplicate, concurrency_conflict, insufficient_position,
}
use spec_star_go.Domain.Effect.{Result, ok, err, Action, bind, wrapped}
use spec_star_go.Domain.Position.{Position}
use spec_star_go.Domain.ProcessedCommand.{ProcessedCommand}
use spec_star_go.Ports.{Environment, Codec, Json}
use spec_star_go.Application.Flow.{
  Reply, Flow, reply, next, success, failure, finish, handle, call, lift, get, attempt, wrap_call,
  make_command, lookup_failure, ◌>>=◌, ◌>>◌,
}
use Request.{WithdrawRequest, validate_withdraw_request}
use Lots.{allocate}

-- `PositionDTO`
pub record PositionDto : Type 0 where
  pub position_id : String
  pub client_id : String
  pub asset_id : String
  pub amount : String
  pub unit_price : String
  pub total_value : String
  pub collateral_value : String
  pub judiciary_collateral_value : String
  pub purchased_at : String
  pub created_at : String
  pub updated_at : String

pub record WithdrawResponse : Type 0 where
  pub positions : List PositionDto

abbrev pub command_type_withdraw : String
command_type_withdraw = "WITHDRAW"

-- The errors of the transaction that become replies of their own.
unfoldable pub unit_of_work_failure : {R : Type 0} → Error → Reply R
unit_of_work_failure e =
    if is e concurrency_conflict
    then failure 409 (wrap "withdraw" e)
    else if is e not_found
    then failure 404 (wrap "withdraw" e)
    else if is e insufficient_position
    then failure 409 (wrap "withdraw" e)
    else failure 500 (wrap "unit of work" e)

module _ {W D : Type 0} ⦃d : Decimal D⦄ (env : Environment W D) (codec : Codec)
    (json : Json WithdrawResponse) where
  open env use {clients, positions, processed_commands, unit_of_work, system}

  unfoldable pub deserialize_withdraw_snapshot : String → Reply WithdrawResponse
  deserialize_withdraw_snapshot snapshot = elim (json.unmarshal snapshot) [
    | ok resp ↦ success 200 resp
    | err e ↦ failure 500 (wrap "unmarshal response snapshot" e)
  ]

  unfoldable pub to_dto : Position D → PositionDto
  to_dto p = record {
    position_id = codec.uuid_string p.position_id;
    client_id = codec.uuid_string p.client_id;
    asset_id = codec.uuid_string p.asset_id;
    amount = d.to_string p.amount;
    unit_price = d.to_string p.unit_price;
    total_value = d.to_string p.total_value;
    collateral_value = d.to_string p.collateral_value;
    judiciary_collateral_value = d.to_string p.judiciary_collateral_value;
    purchased_at = codec.format_rfc3339 p.purchased_at;
    created_at = codec.format_rfc3339 p.created_at;
    updated_at = codec.format_rfc3339 p.updated_at;
  }

  unfoldable pub to_withdraw_response : List (Position D) → WithdrawResponse
  unfolding to_dto
  to_withdraw_response positions = record { positions = map to_dto positions }

  -- the stored answer of a command that was found, or the early return of a lookup that failed
  unfoldable pub replay : Result ProcessedCommand → Flow WithdrawResponse (Unit {0})
  unfolding deserialize_withdraw_snapshot
  replay (ok existing) = reply (deserialize_withdraw_snapshot existing.response_snapshot)
  replay (err e) =
      if is e not_found then next tt else reply (failure 500 (wrap "find processed command" e))

  unfoldable pub replay_after_race : String → W → Reply WithdrawResponse × W
  unfolding deserialize_withdraw_snapshot
  replay_after_race order_id w =
      let (found, w') =
        processed_commands.find_by_type_and_order_id command_type_withdraw order_id w in
      (
        elim found [
          | ok existing ↦ deserialize_withdraw_snapshot existing.response_snapshot
          | err e ↦ failure 409 (wrap "replay after race" e)
        ],
        w',
      )

  -- `s.positions.Update` for each affected lot, until one fails
  unfoldable pub update_all : List (Position D) → Action W (Unit {0})
  update_all [] w = (ok tt, w)
  update_all (lot ∷ rest) w =
      bind (wrap_call "update position" (positions.update lot)) (λ _. update_all rest) w

  -- the function that runs in the transaction; it gives back the response
  unfoldable pub withdraw_from : WithdrawRequest → ℕ → D → Action W WithdrawResponse
  unfolding update_all to_withdraw_response
  withdraw_from req client desired =
      bind
        (wrap_call "find positions"
          (positions.find_by_client_and_instrument client req.instrument_id))
        λ found.
          bind
            (λ w.
              let (clock, w') = system.clock (length found) w in (allocate clock desired found, w'))
            λ affected. bind (update_all affected) λ _.
              let resp = to_withdraw_response affected in
              bind (λ w. (wrapped (wrap "marshal response snapshot") (json.marshal resp), w))
                λ snapshot.
                  bind (make_command system command_type_withdraw req.order_id client snapshot)
                    λ cmd.
                      bind (wrap_call "create processed command" (processed_commands.create cmd))
                        λ _ w. (ok resp, w)

  unfoldable pub settle :
      String → Result WithdrawResponse → W → Flow WithdrawResponse (Reply WithdrawResponse) × W
  unfolding replay_after_race unit_of_work_failure
  settle order_id (ok resp) w = (next (success 200 resp), w)
  settle order_id (err e) w =
      if is e duplicate
      then (let (r, w') = replay_after_race order_id w in (next r, w'))
      else (reply (unit_of_work_failure e), w)

  unfoldable pub steps : WithdrawRequest → W → Flow WithdrawResponse (Reply WithdrawResponse) × W
  steps req = do
    cmd ← lift (handle (failure 422) (validate_withdraw_request codec req))
    existing ←
        attempt (processed_commands.find_by_type_and_order_id command_type_withdraw req.order_id)
    lift (replay existing)
    call (clients.find_by_id cmd.client) (lookup_failure "client not found" "find client")
    done ← attempt (unit_of_work.run (withdraw_from req cmd.client cmd.desired))
    settle req.order_id done

  unfoldable pub execute : WithdrawRequest → W → Reply WithdrawResponse × W
  execute req w = finish (steps req w)
