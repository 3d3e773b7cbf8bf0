-- ===== src/Application/Deposit/Replies.antt =====
-- How a deposit is answered, over any database.
use spec_star_go.Prelude.{String, refl, inl, inr, Bool-cases, [], ◌∷◌}
use spec_star_go.Decimal.{Decimal}
use spec_star_go.Domain.Errors.{Error, is, not_found, duplicate}
use spec_star_go.Domain.Effect.{Result, ok, err, Result-cases}
use spec_star_go.Domain.ProcessedCommand.{ProcessedCommand}
use spec_star_go.Ports.{Codec, Json, Environment}
use spec_star_go.Application.Flow.{Reply, failure, lookup_failure}
use spec_star_go.Application.Flow.Ends.{
  Ends, Post, Ends-bind, Ends-finish, Ends-lift, Ends-lift_flow, Ends-call, Ends-get, Ends-attempt,
}
use spec_star_go.Application.Flow.Replies.{IsReply, succeeded, failed}
use spec_star_go.Application.Deposit.{
  DepositResponse, execute, steps, settle, replay, replay_after_race, deserialize_snapshot,
}
use spec_star_go.Application.Deposit.Request.{DepositRequest}

module _ {W D : Type 0} ⦃d : Decimal D⦄ (env : Environment W D) (codec : Codec)
    (json : Json DepositResponse) where
  abbrev IsAnswer : Reply DepositResponse → W → Type 0
  IsAnswer r w = IsReply (200 ∷ 201 ∷ []) (409 ∷ 422 ∷ 500 ∷ []) r

  abbrev Always : W → Type 0
  Always w = Unit

  server_error : (e : Error) (w : W) → IsAnswer (failure 500 e) w
  server_error e w = failed 500 e (inr (inr (inl refl)))

  client_error : (e : Error) (w : W) → IsAnswer (failure 422 e) w
  client_error e w = failed 422 e (inr (inl refl))

  lookup_error :
      (missing lookup : String) (e : Error) (w : W) → IsAnswer (lookup_failure missing lookup e) w
  lookup_error missing lookup e w = elim (Bool-cases (is e not_found)) [
    | inl h ↦ rw h (client_error _ w)
    | inr h ↦ rw h (server_error _ w)
  ]

  snapshot_answer : (text : String) (w : W) → IsAnswer (deserialize_snapshot env codec json text) w
  unfolding deserialize_snapshot
  snapshot_answer text w = elim (Result-cases (json.unmarshal text)) [
    | inl (r, h) ↦ rw (h, deserialize_snapshot) (succeeded 200 r (inl refl))
    | inr (e, h) ↦ rw (h, deserialize_snapshot) (server_error _ w)
  ]

  replay_answer :
      (r : Result ProcessedCommand) (w : W)
      → Post IsAnswer (λ a. Always) (replay env codec json r, w)
  unfolding replay
  replay_answer (ok c) w = snapshot_answer c.response_snapshot w
  replay_answer (err e) w = elim (Bool-cases (is e not_found)) [
    | inl h ↦ rw (h, replay) tt
    | inr h ↦ rw (h, replay) (server_error _ w)
  ]

  race_answer :
      (order_id : String) (w : W)
      → let (r, w') = replay_after_race env codec json order_id w in IsAnswer r w'
  unfolding replay_after_race
  race_answer order_id w =
      let (found, w') = env.processed_commands.find_by_type_and_order_id "DEPOSIT" order_id w in
      elim (Result-cases found) [
        | inl (c, h) ↦ rw (h, replay_after_race) (snapshot_answer c.response_snapshot w')
        | inr (e, h) ↦ rw (h, replay_after_race) (failed 409 _ (inl refl))
      ]

  settle_answer :
      (order_id : String) (resp : DepositResponse) (r : Result (Unit {0})) (w : W)
      → Post IsAnswer IsAnswer (settle env codec json order_id resp r w)
  unfolding settle
  settle_answer order_id resp (ok _) w = succeeded 201 resp (inr (inl refl))
  settle_answer order_id resp (err e) w = elim (Bool-cases (is e duplicate)) [
    | inl h ↦ rw (h, settle) (race_answer order_id w)
    | inr h ↦ rw (h, settle) (server_error _ w)
  ]

  steps-Ends : (req : DepositRequest) → Ends Always IsAnswer IsAnswer (steps env codec json req)
  unfolding steps
  steps-Ends req =
      Ends-lift _ _ _ (λ e w h _. client_error _ w)
        λ cmd valid. Ends-bind {Q = λ r. Always} _ _ (Ends-attempt _ (λ w _. tt)) λ existing.
          Ends-bind {Q = λ r. Always} _ _
            (Ends-lift_flow (replay _ codec json existing) (λ w _. replay_answer existing w))
            λ _.
              Ends-bind {Q = λ r. Always} _ _
                (Ends-call _ _ (λ w a _ _. tt) (λ w e _ _. lookup_error _ _ e w))
                λ _.
                  Ends-bind {Q = λ r. Always} _ _
                    (Ends-call _ _ (λ w a _ _. tt) (λ w e _ _. lookup_error _ _ e w))
                    λ asset.
                      Ends-lift _ _ _ (λ e w h _. client_error _ w)
                        λ _ _.
                          Ends-bind {Q = λ r. Always} _ _ (Ends-get _ (λ w _. tt)) λ purchased_at.
                            Ends-bind {Q = λ r. Always} _ _ (Ends-get _ (λ w _. tt)) λ now.
                              Ends-bind {Q = λ r. Always} _ _ (Ends-get _ (λ w _. tt)) λ id.
                                Ends-lift _ _ _ (λ e w h _. server_error _ w)
                                  λ position made.
                                    Ends-lift _ _ _ (λ e w h _. server_error _ w)
                                      λ snapshot marshalled.
                                        Ends-bind {Q = λ r. Always} _ _ (Ends-attempt _ (λ w _. tt))
                                          λ stored. record {
                                            at = λ w _. settle_answer req.order_id _ stored w;
                                          }

  -- Whatever the database does, a deposit returns either a response, no error and status 200 or
  -- 201, or an error, no response and status 409, 422 or 500.
  pub deposit_replies :
      (req : DepositRequest) (w : W)
      → let (r, w') = execute env codec json req w in
        IsReply (200 ∷ 201 ∷ []) (409 ∷ 422 ∷ 500 ∷ []) r
  unfolding execute
  deposit_replies req w = Ends-finish (steps env codec json req) (steps-Ends req) w tt
