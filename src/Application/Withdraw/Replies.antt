-- ===== src/Application/Withdraw/Replies.antt =====
-- How a withdrawal is answered, over any database.
use spec_star_go.Prelude.{String, refl, inl, inr, Bool-cases, [], ◌∷◌}
use spec_star_go.Decimal.{Decimal}
use spec_star_go.Domain.Errors.{
  Error, is, not_found, duplicate, concurrency_conflict, insufficient_position,
}
use spec_star_go.Domain.Effect.{Result, ok, err, Result-cases}
use spec_star_go.Domain.ProcessedCommand.{ProcessedCommand}
use spec_star_go.Ports.{Codec, Json, Environment}
use spec_star_go.Application.Flow.{Reply, failure, lookup_failure}
use spec_star_go.Application.Flow.Ends.{
  Ends, Post, Ends-bind, Ends-finish, Ends-lift, Ends-lift_flow, Ends-call, Ends-attempt,
}
use spec_star_go.Application.Flow.Replies.{IsReply, succeeded, failed}
use spec_star_go.Application.Withdraw.{
  WithdrawResponse, unit_of_work_failure, execute, steps, settle, replay, replay_after_race,
  deserialize_withdraw_snapshot,
}
use spec_star_go.Application.Withdraw.Request.{WithdrawRequest}

module _ {W D : Type 0} ⦃d : Decimal D⦄ (env : Environment W D) (codec : Codec)
    (json : Json WithdrawResponse) where
  abbrev IsAnswer : Reply WithdrawResponse → W → Type 0
  IsAnswer r w = IsReply (200 ∷ []) (404 ∷ 409 ∷ 422 ∷ 500 ∷ []) r

  abbrev Always : W → Type 0
  Always w = Unit

  server_error : (e : Error) (w : W) → IsAnswer (failure 500 e) w
  server_error e w = failed 500 e (inr (inr (inr (inl refl))))

  client_error : (e : Error) (w : W) → IsAnswer (failure 422 e) w
  client_error e w = failed 422 e (inr (inr (inl refl)))

  lookup_error :
      (missing lookup : String) (e : Error) (w : W) → IsAnswer (lookup_failure missing lookup e) w
  lookup_error missing lookup e w = elim (Bool-cases (is e not_found)) [
    | inl h ↦ rw h (client_error _ w)
    | inr h ↦ rw h (server_error _ w)
  ]

  snapshot_answer :
      (text : String) (w : W) → IsAnswer (deserialize_withdraw_snapshot env codec json text) w
  unfolding deserialize_withdraw_snapshot
  snapshot_answer text w = elim (Result-cases (json.unmarshal text)) [
    | inl (r, h) ↦ rw (h, deserialize_withdraw_snapshot) (succeeded 200 r (inl refl))
    | inr (e, h) ↦ rw (h, deserialize_withdraw_snapshot) (server_error _ w)
  ]

  replay_answer :
      (r : Result ProcessedCommand) (w : W)
      → Post IsAnswer (λ a. Always) (replay env codec json r, w)
  unfolding replay
  replay_answer (ok c) w = snapshot_answer c.response_snapshot w
  replay_answer (err e) w = elim (Bool-cases (is e not_found)) [
    | inl h ↦ rw (h, replay) tt
    | inr h ↦ rw (h, replay) (server_error _ w)
  ]

  race_answer :
      (order_id : String) (w : W)
      → let (r, w') = replay_after_race env codec json order_id w in IsAnswer r w'
  unfolding replay_after_race
  race_answer order_id w =
      let (found, w') = env.processed_commands.find_by_type_and_order_id "WITHDRAW" order_id w in
      elim (Result-cases found) [
        | inl (c, h) ↦ rw (h, replay_after_race) (snapshot_answer c.response_snapshot w')
        | inr (e, h) ↦ rw (h, replay_after_race) (failed 409 _ (inr (inl refl)))
      ]

  failure_answer : (e : Error) (w : W) → IsAnswer (unit_of_work_failure e) w
  unfolding unit_of_work_failure
  failure_answer e w = elim (Bool-cases (is e concurrency_conflict)) [
    | inl c ↦ rw (c, unit_of_work_failure) (failed 409 _ (inr (inl refl)))
    | inr c ↦ elim (Bool-cases (is e not_found)) [
      | inl n ↦ rw (c, n, unit_of_work_failure) (failed 404 _ (inl refl))
      | inr n ↦ elim (Bool-cases (is e insufficient_position)) [
        | inl i ↦ rw (c, n, i, unit_of_work_failure) (failed 409 _ (inr (inl refl)))
        | inr i ↦ rw (c, n, i, unit_of_work_failure) (server_error _ w)
      ]
    ]
  ]

  settle_answer :
      (order_id : String) (r : Result WithdrawResponse) (w : W)
      → Post IsAnswer IsAnswer (settle env codec json order_id r w)
  unfolding settle
  settle_answer order_id (ok resp) w = succeeded 200 resp (inl refl)
  settle_answer order_id (err e) w = elim (Bool-cases (is e duplicate)) [
    | inl h ↦ rw (h, settle) (race_answer order_id w)
    | inr h ↦ rw (h, settle) (failure_answer e w)
  ]

  steps-Ends : (req : WithdrawRequest) → Ends Always IsAnswer IsAnswer (steps env codec json req)
  unfolding steps
  steps-Ends req =
      Ends-lift _ _ _ (λ e w h _. client_error _ w)
        λ cmd valid. Ends-bind {Q = λ r. Always} _ _ (Ends-attempt _ (λ w _. tt)) λ existing.
          Ends-bind {Q = λ r. Always} _ _
            (Ends-lift_flow (replay _ codec json existing) (λ w _. replay_answer existing w))
            λ _.
              Ends-bind {Q = λ r. Always} _ _
                (Ends-call _ _ (λ w a _ _. tt) (λ w e _ _. lookup_error _ _ e w))
                λ _.
                  Ends-bind {Q = λ r. Always} _ _ (Ends-attempt _ (λ w _. tt))
                    λ stored. record { at = λ w _. settle_answer req.order_id stored w }

  -- Whatever the database does, a withdrawal returns either a response, no error and status 200, or
  -- an error, no response and status 404, 409, 422 or 500.
  pub withdraw_replies :
      (req : WithdrawRequest) (w : W)
      → let (r, w') = execute env codec json req w in
        IsReply (200 ∷ []) (404 ∷ 409 ∷ 422 ∷ 500 ∷ []) r
  unfolding execute
  withdraw_replies req w = Ends-finish (steps env codec json req) (steps-Ends req) w tt
