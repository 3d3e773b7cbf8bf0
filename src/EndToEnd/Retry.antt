-- ===== src/EndToEnd/Retry.antt =====
-- A request over HTTP that is sent again.
use spec_star_go.Prelude.{
  ℕ, String, str_eq, eq_iff, ◌≡◌, refl, sym, ap, ◌∙◌, Option, none, some, true,
}
use spec_star_go.Decimal.{Decimal}
use spec_star_go.Domain.Effect.{Result, ok}
use spec_star_go.Ports.{Codec, Json}
use spec_star_go.Application.Flow.{Reply}
use spec_star_go.Application.Deposit as Deposit
use spec_star_go.Application.Deposit.{DepositResponse}
use spec_star_go.Application.Deposit.Request.{DepositRequest}
use spec_star_go.Application.Withdraw as Withdraw
use spec_star_go.Application.Withdraw.{WithdrawResponse}
use spec_star_go.Application.Withdraw.Request.{WithdrawRequest}
use spec_star_go.Postgres.World.{World, Sql}
use spec_star_go.Postgres.Transaction.{environment}
use spec_star_go.Platform.Logger.{Context, Span}
use spec_star_go.Http.{Request, Response, HttpCodec, payload, json_response}
use spec_star_go.Http.Observation.{Process}
use spec_star_go.Http.Handlers.{handle_deposit, handle_withdraw, deposit_reply, withdraw_reply}
use spec_star_go.EndToEnd.Deposit.{Created}
use spec_star_go.EndToEnd.Withdraw.{Withdrawn}
use spec_star_go.EndToEnd.Replay.{RoundTrips, deposit_again, withdraw_again}

-- The handlers with a POST whose body is decoded, for any service.
module _ {W Q R : Type 0} (json : HttpCodec Q (Option R)) (tracer : String → Context → Span)
    (execute : Q → W → Reply R × W) (ctx : Context) (req : Request) (elapsed : ℕ) (s : Process W)
    (q : Q) (post : req.method ≡ "POST") (decoded : json.decode req.body ≡ ok q) where
  is_post : str_eq req.method "POST" ≡ true
  is_post = (eq_iff req.method "POST").1 post

  handle_deposit-served :
      ((handle_deposit json tracer execute ctx req elapsed s).0
        ≡ deposit_reply json tracer execute (execute q s.world).0)
      × ((handle_deposit json tracer execute ctx req elapsed s).1.world ≡ (execute q s.world).1)
  unfolding handle_deposit
  handle_deposit-served = rw (is_post, decoded) (refl, refl)

  handle_withdraw-served :
      ((handle_withdraw json tracer execute ctx req elapsed s).0
        ≡ withdraw_reply json tracer execute (execute q s.world).0)
      × ((handle_withdraw json tracer execute ctx req elapsed s).1.world ≡ (execute q s.world).1)
  unfolding handle_withdraw
  handle_withdraw-served = rw (is_post, decoded) (refl, refl)

module _ {D : Type 0} ⦃d : Decimal D⦄ (sql : Sql D) (codec : Codec)
    (tracer : String → Context → Span) (ctx ctx' : Context) (req : Request) (elapsed elapsed' : ℕ)
    (s : Process (World D)) (post : req.method ≡ "POST") where
  module _ (json : Json DepositResponse)
      (http : HttpCodec DepositRequest (Option DepositResponse)) where
    abbrev deposit : DepositRequest → World D → Reply DepositResponse × World D
    deposit = Deposit.execute (environment sql codec) codec json

    abbrev pub first_deposit : Result Response × Process (World D)
    first_deposit = handle_deposit http tracer deposit ctx req elapsed s

    abbrev pub second_deposit : Result Response × Process (World D)
    second_deposit = handle_deposit http tracer deposit ctx' req elapsed' first_deposit.1

    -- A deposit that went through can be sent again safely: the first response has status 201, the
    -- second, while the connection holds, status 200 and the same body, and the second request
    -- changes no table. It is assumed that a response is read back from its stored document.
    pub deposit_retry :
        RoundTrips sql json
        → (q : DepositRequest) → http.decode req.body ≡ ok q
        → Created sql codec json q s.world.tables (deposit q s.world).0 (deposit q s.world).1
        → (deposit q s.world).1.faults 0 ≡ none
        → (resp : DepositResponse) × (first_deposit.0
            ≡ json_response http 201 (payload (some resp)))
          × (second_deposit.0 ≡ json_response http 200 (payload (some resp)))
          × (second_deposit.1.world.tables ≡ first_deposit.1.world.tables)
    unfolding deposit_reply
    deposit_retry trips q decoded went holds =
        let (first, after) =
          handle_deposit-served http tracer deposit ctx req elapsed s q post decoded in
        let (second, later) =
          handle_deposit-served http tracer deposit ctx' req elapsed' first_deposit.1 q post
            decoded in
        let (resp, replied, again) =
          deposit_again sql codec json trips q s.world.tables _ (deposit q s.world).1 went holds in
        let again' = ap (deposit q) after ∙ again in
        (
          resp,
          first ∙ rw (went.no_error, deposit_reply, replied, went.status) refl,
          second ∙ ap (deposit_reply http tracer deposit) (ap (λ x. x.0) again'),
          ap (λ w. w.tables) (later ∙ ap (λ x. x.1) again') ∙ sym (ap (λ w. w.tables) after),
        )

  module _ (json : Json WithdrawResponse)
      (http : HttpCodec WithdrawRequest (Option WithdrawResponse)) where
    abbrev withdraw : WithdrawRequest → World D → Reply WithdrawResponse × World D
    withdraw = Withdraw.execute (environment sql codec) codec json

    abbrev pub first_withdraw : Result Response × Process (World D)
    first_withdraw = handle_withdraw http tracer withdraw ctx req elapsed s

    abbrev pub second_withdraw : Result Response × Process (World D)
    second_withdraw = handle_withdraw http tracer withdraw ctx' req elapsed' first_withdraw.1

    -- A withdrawal that went through can be sent again safely: the first response has status 200,
    -- the second, while the connection holds, is the same, and the second request changes no table,
    -- so that nothing is sold twice. It is assumed that a response is read back from its stored
    -- document.
    pub withdraw_retry :
        RoundTrips sql json
        → (q : WithdrawRequest) → http.decode req.body ≡ ok q
        → Withdrawn sql codec json q s.world.tables (withdraw q s.world).0 (withdraw q s.world).1
        → (withdraw q s.world).1.faults 0 ≡ none
        → (resp : WithdrawResponse) × (first_withdraw.0
            ≡ json_response http 200 (payload (some resp)))
          × (second_withdraw.0 ≡ first_withdraw.0)
          × (second_withdraw.1.world.tables ≡ first_withdraw.1.world.tables)
    unfolding withdraw_reply
    withdraw_retry trips q decoded went holds =
        let (first, after) =
          handle_withdraw-served http tracer withdraw ctx req elapsed s q post decoded in
        let (second, later) =
          handle_withdraw-served http tracer withdraw ctx' req elapsed' first_withdraw.1 q post
            decoded in
        let (resp, replied, again) =
          withdraw_again sql codec json trips q s.world.tables _ (withdraw q s.world).1 went
            holds in
        let shown : first_withdraw.0 ≡ json_response http 200 (payload (some resp)) =
          first ∙ rw (went.no_error, withdraw_reply, replied, went.status) refl in
        let again' = ap (withdraw q) after ∙ again in
        (
          resp,
          shown,
          second ∙ ap (withdraw_reply http tracer withdraw) (ap (λ x. x.0) again') ∙ sym shown,
          ap (λ w. w.tables) (later ∙ ap (λ x. x.1) again') ∙ sym (ap (λ w. w.tables) after),
        )
