-- ===== src/EndToEnd/Invariant.antt =====
-- The constraints of the schema hold of the tables after any sequence of requests.
pub mod Calls
use spec_star_go.Prelude.{
  ℕ, String, ◌≡◌, refl, sym, ap, ◌∙◌, subst, ◌⊎◌, inl, inr, List, [], ◌∷◌, Option, none, some, true,
  false, arith, Bool-cases, length,
}
use spec_star_go.Decimal.{Decimal}
use spec_star_go.Domain.Errors.{Error, is, duplicate, not_found}
use spec_star_go.Domain.Effect.{Result, ok, err, Action, Result-cases, bind, continue, wrapped}
use spec_star_go.Domain.Position.{Position}
use spec_star_go.Domain.ProcessedCommand.{ProcessedCommand}
use spec_star_go.Ports.{Codec, Json, Environment}
use spec_star_go.Application.Flow.{Reply, Flow, wrap_call, make_command, ◌>>=◌}
use spec_star_go.Application.Flow.Ends.{
  Ends, Post, Ends-bind, Ends-finish, Ends-lift, Ends-lift_flow, Ends-call, Ends-get, Ends-attempt,
}
use spec_star_go.Application.Deposit.{DepositResponse, persist}
use spec_star_go.Application.Deposit as Deposit
use spec_star_go.Application.Deposit.Request.{DepositRequest}
use spec_star_go.Application.Withdraw.{
  WithdrawResponse, to_withdraw_response, update_all, withdraw_from,
}
use spec_star_go.Application.Withdraw as Withdraw
use spec_star_go.Application.Withdraw.Request.{WithdrawRequest}
use spec_star_go.Postgres.World.{World, Tables, Sql, DbResult, done, fail, statement}
use spec_star_go.Postgres.World.Laws.{statement-cases, used}
use spec_star_go.Postgres.Writes.{insert_position, insert_command, update_position}
use spec_star_go.Postgres.Writes.Invariant.{IsWellFormed, Write, Write-IsWellFormed}
use spec_star_go.Postgres.Repositories.{create_command, find_command}
use spec_star_go.Postgres.PositionRepository.{
  scan_all, create_position, update_one, find_by_client_and_instrument, collect_positions,
  collecting, arguments, previous_version,
}
use spec_star_go.Postgres.Statements.{select_by_instrument}
use spec_star_go.Postgres.Transaction.{environment, transact}
use spec_star_go.Postgres.Transaction.Laws.{transact-cases}
use spec_star_go.EndToEnd.Withdraw.{allocating, marshalling}
use spec_star_go.Postgres.Reads.{
  find_command-tables, find_client-tables, find_asset-tables, statement-tables,
}
use Calls.{Sound, Keeps-transact, Keeps-persist, Keeps-withdraw_from}

-- requests that are served one after the other
pub data ServiceRequest : Type 0 where
  deposit : DepositRequest → ServiceRequest
  withdraw : WithdrawRequest → ServiceRequest

module _ {D : Type 0} ⦃d : Decimal D⦄ (sql : Sql D) (codec : Codec) where
  abbrev env : Environment (World D) D
  env = environment sql codec

  abbrev After : {A : Type 0} → A → World D → Type 0
  After a w = Sound w

  same_tables : {t t' : Tables D} → t' ≡ t → IsWellFormed t → IsWellFormed t'
  same_tables e v = subst IsWellFormed (sym e) v

  module _ (json : Json DepositResponse) where
    replayed :
        (r : Result ProcessedCommand) (w : World D)
        → Sound w
        → Post After After (Deposit.replay env codec json r, w)
    unfolding Deposit.replay
    replayed (ok c) w v = v
    replayed (err e) w v = elim (Bool-cases (is e not_found)) [
      | inl h ↦ rw (h, Deposit.replay) v
      | inr h ↦ rw (h, Deposit.replay) v
    ]

    settled :
        (order_id : String) (resp : DepositResponse) (r : Result (Unit {0})) (w : World D)
        → Sound w
        → Post After After (Deposit.settle env codec json order_id resp r w)
    unfolding Deposit.settle Deposit.replay_after_race
    settled order_id resp (ok _) w v = v
    settled order_id resp (err e) w v = elim (Bool-cases (is e duplicate)) [
      | inl h ↦
          rw (h, Deposit.settle)
            (same_tables (find_command-tables sql codec w "DEPOSIT" order_id) v)
      | inr h ↦ rw (h, Deposit.settle) v
    ]

    deposit_steps-Ends :
        (req : DepositRequest) → Ends Sound After After (Deposit.steps env codec json req)
    unfolding Deposit.steps
    deposit_steps-Ends req =
        Ends-lift _ _ _ (λ e w h v. v)
          λ cmd valid.
            Ends-bind {Q = After} _ _
              (Ends-attempt _ (λ w v. same_tables (find_command-tables sql codec w _ _) v))
              λ existing.
                Ends-bind {Q = After} _ _
                  (Ends-lift_flow (Deposit.replay _ codec json existing) (replayed existing))
                  λ _.
                    Ends-bind {Q = After} _ _
                      (Ends-call _ _
                        (λ w a v _. same_tables (find_client-tables sql codec w cmd.client) v)
                        (λ w e v _. same_tables (find_client-tables sql codec w cmd.client) v))
                      λ _.
                        Ends-bind {Q = After} _ _
                          (Ends-call _ _
                            (λ w a v _. same_tables (find_asset-tables sql codec w cmd.asset) v)
                            (λ w e v _. same_tables (find_asset-tables sql codec w cmd.asset) v))
                          λ asset.
                            Ends-lift _ _ _ (λ e w h v. v)
                              λ _ _.
                                Ends-bind {Q = After} _ _ (Ends-get _ (λ w v. v)) λ purchased_at.
                                  Ends-bind {Q = After} _ _ (Ends-get _ (λ w v. v)) λ now.
                                    Ends-bind {Q = After} _ _ (Ends-get _ (λ w v. v)) λ id.
                                      Ends-lift _ _ _ (λ e w h v. v)
                                        λ position made.
                                          Ends-lift _ _ _ (λ e w h v. v)
                                            λ text marshalled.
                                              Ends-bind {Q = After} _ _
                                                (Ends-attempt _ (λ w v.
                                                  (Keeps-transact _ (
                                                      Keeps-persist sql codec json position
                                                        req.order_id cmd.client text)).at
                                                    w v))
                                                λ stored. record {
                                                  at = λ w v. settled req.order_id _ stored w v;
                                                }

  module _ (json : Json WithdrawResponse) where
    replayed_withdraw :
        (r : Result ProcessedCommand) (w : World D)
        → Sound w
        → Post After After (Withdraw.replay env codec json r, w)
    unfolding Withdraw.replay
    replayed_withdraw (ok c) w v = v
    replayed_withdraw (err e) w v = elim (Bool-cases (is e not_found)) [
      | inl h ↦ rw (h, Withdraw.replay) v
      | inr h ↦ rw (h, Withdraw.replay) v
    ]

    settled_withdraw :
        (order_id : String) (r : Result WithdrawResponse) (w : World D)
        → Sound w
        → Post After After (Withdraw.settle env codec json order_id r w)
    unfolding Withdraw.settle Withdraw.replay_after_race
    settled_withdraw order_id (ok resp) w v = v
    settled_withdraw order_id (err e) w v = elim (Bool-cases (is e duplicate)) [
      | inl h ↦
          rw (h, Withdraw.settle)
            (same_tables (find_command-tables sql codec w "WITHDRAW" order_id) v)
      | inr h ↦ rw (h, Withdraw.settle) v
    ]

    withdraw_steps-Ends :
        (req : WithdrawRequest) → Ends Sound After After (Withdraw.steps env codec json req)
    unfolding Withdraw.steps
    withdraw_steps-Ends req =
        Ends-lift _ _ _ (λ e w h v. v)
          λ cmd valid.
            Ends-bind {Q = After} _ _
              (Ends-attempt _ (λ w v. same_tables (find_command-tables sql codec w _ _) v))
              λ existing.
                Ends-bind {Q = After} _ _
                  (Ends-lift_flow (Withdraw.replay _ codec json existing)
                    (replayed_withdraw existing))
                  λ _.
                    Ends-bind {Q = After} _ _
                      (Ends-call _ _
                        (λ w a v _. same_tables (find_client-tables sql codec w cmd.client) v)
                        (λ w e v _. same_tables (find_client-tables sql codec w cmd.client) v))
                      λ _.
                        Ends-bind {Q = After} _ _
                          (Ends-attempt _ (λ w v.
                            (Keeps-transact _
                                (Keeps-withdraw_from sql codec json req cmd.client cmd.desired)).at
                              w v))
                          λ stored. record { at = λ w v. settled_withdraw req.order_id stored w v }

  module _ (deposits : Json DepositResponse) (withdrawals : Json WithdrawResponse) where
    abbrev pub serve : List ServiceRequest → World D → World D
    serve [] w = w
    serve (deposit req ∷ rest) w = serve rest (Deposit.execute env codec deposits req w).1
    serve (withdraw req ∷ rest) w = serve rest (Withdraw.execute env codec withdrawals req w).1

    -- Whatever requests are served, one after the other, and whatever fails on the way, tables that
    -- satisfy the constraints of the schema still do: every position satisfies the checks and refers
    -- to a client and an asset that exist, no two positions have the same identifier, and no two
    -- commands have the same type and order.
    pub serve-IsWellFormed :
        (requests : List ServiceRequest) (w : World D)
        → IsWellFormed w.tables
        → IsWellFormed (serve requests w).tables
    unfolding Deposit.execute Withdraw.execute
    serve-IsWellFormed [] w v = v
    serve-IsWellFormed (deposit req ∷ rest) w v =
        serve-IsWellFormed rest _
          (Ends-finish (Deposit.steps env codec deposits req) (deposit_steps-Ends deposits req) w v)
    serve-IsWellFormed (withdraw req ∷ rest) w v = serve-IsWellFormed rest _ (
        Ends-finish (Withdraw.steps env codec withdrawals req) (withdraw_steps-Ends withdrawals req)
          w v)
