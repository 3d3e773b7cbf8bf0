-- ===== src/EndToEnd/Deposit.antt =====
-- A deposit on the tables.
mod Record
mod Persist
mod Settle
pub use Record.{Requested, Created, Outcome}
use spec_star_go.Prelude.{ℕ, String, ◌≡◌, ◌∙◌, inl, arith}
use spec_star_go.Decimal.{Decimal}
use spec_star_go.Domain.Effect.{ok}
use spec_star_go.Domain.Client.{Client}
use spec_star_go.Domain.Asset.{Asset}
use spec_star_go.Domain.Position.{Position, new_position}
use spec_star_go.Ports.{Codec, Json, Environment}
use spec_star_go.Postgres.Repositories.{find_client, find_asset}
use spec_star_go.Application.Flow.{Reply, lookup_failure, call, attempt, ◌>>=◌}
use spec_star_go.Application.Flow.Ends.{
  Ends, Post, Ends-bind, Ends-finish, Ends-lift, Ends-lift_flow, Ends-call, Ends-get, Ends-attempt,
}
use spec_star_go.Application.Deposit.{
  DepositResponse, execute, steps, persist, settle, to_deposit_response, replay,
}
use spec_star_go.Application.Deposit.Request.{
  DepositRequest, ValidDeposit, validate_deposit_request,
}
use spec_star_go.Postgres.World.{World, Tables, Sql}
use spec_star_go.Postgres.Transaction.{environment, transact}
use spec_star_go.Postgres.Reads.{find_command-tables, find_client-tables, find_asset-tables}
use Settle.{failed, replayed, settled}

module _ {D : Type 0} ⦃d : Decimal D⦄ (sql : Sql D) (codec : Codec)
    (json : Json DepositResponse) where
  module _ (req : DepositRequest) (t : Tables D) where
    abbrev Same : World D → Type 0
    Same w = w.tables ≡ t

    abbrev Ended : Reply DepositResponse → World D → Type 0
    Ended = Outcome sql codec json req t

    abbrev env : Environment (World D) D
    env = environment sql codec

    stored-Ends :
        (p : Position D) (client : ℕ) (text : String)
        → Requested sql codec json req p
        → json.marshal (to_deposit_response env codec json p) ≡ ok text
        → Ends Same Ended Ended (
            attempt (transact (persist env codec json p req.order_id client text))
            >>= settle env codec json req.order_id (to_deposit_response env codec json p))
    stored-Ends p client text asked m =
        Ends-bind
          {Q = λ r w.
            Post Ended Ended
              (settle env codec json req.order_id (to_deposit_response env codec json p) r w)}
          _ _ (Ends-attempt _ (λ w same. settled sql codec json req t p client text asked m w same))
          λ r. record { at = λ w q. q }

    client-Ends :
        (id : ℕ)
        → Ends {A = Client} Same Ended
            (λ a. Same)
            (call (find_client sql codec id) (lookup_failure "client not found" "find client"))
    client-Ends id =
        Ends-call _ _ (λ w a same h. find_client-tables sql codec w id ∙ same)
          λ w e same h.
            failed sql codec json req t _ _ e _ (find_client-tables sql codec w id ∙ same)

    asset-Ends :
        (id : ℕ)
        → Ends {A = Asset} Same Ended
            (λ a. Same)
            (call (find_asset sql codec id) (lookup_failure "asset not found" "find asset"))
    asset-Ends id =
        Ends-call _ _ (λ w a same h. find_asset-tables sql codec w id ∙ same)
          λ w e same h.
            failed sql codec json req t _ _ e _ (find_asset-tables sql codec w id ∙ same)

    abbrev asked :
        (cmd : ValidDeposit D)
        → validate_deposit_request codec req ≡ ok cmd
        → (id now purchased_at : ℕ) (p : Position D)
        → new_position id now cmd.client cmd.asset cmd.quantity cmd.price purchased_at ≡ ok p
        → Requested sql codec json req p
    asked cmd valid id now purchased_at p made = record {
      cmd = cmd;
      valid = valid;
      id = id;
      now = now;
      purchased_at = purchased_at;
      made = made;
    }

    steps-Ends : Ends Same Ended Ended (steps (environment sql codec) codec json req)
    unfolding steps
    steps-Ends =
        Ends-lift _ _ _ (λ e w h same. inl (λ q. omega arith, same))
          λ cmd valid.
            Ends-bind {Q = λ r w. Same w} _ _
              (Ends-attempt _ (λ w same. find_command-tables sql codec w _ _ ∙ same))
              λ existing.
                Ends-bind {Q = λ a w. Same w} _ _
                  (Ends-lift_flow (replay _ codec json existing)
                    (replayed sql codec json req t existing))
                  λ _. Ends-bind {Q = λ a w. Same w} _ _ (client-Ends cmd.client) λ _.
                    Ends-bind {Q = λ a w. Same w} _ _ (asset-Ends cmd.asset) λ asset.
                      Ends-lift _ _ _ (λ e w h same. inl (λ q. omega arith, same))
                        λ _ _.
                          Ends-bind {Q = λ a w. Same w} _ _ (Ends-get _ (λ w same. same))
                            λ purchased_at.
                              Ends-bind {Q = λ a w. Same w} _ _ (Ends-get _ (λ w same. same)) λ now.
                                Ends-bind {Q = λ a w. Same w} _ _ (Ends-get _ (λ w same. same))
                                  λ id.
                                    Ends-lift _ _ _ (λ e w h same. inl (λ q. omega arith, same))
                                      λ position made.
                                        Ends-lift _ _ _ (λ e w h same. inl (λ q. omega arith, same))
                                          λ snapshot marshalled.
                                            stored-Ends position cmd.client snapshot
                                              (asked cmd valid _ _ _ position made) marshalled

    -- A deposit on the tables is atomic. Either nothing changed and the status is not 201, or the
    -- status is 201 and exactly two rows were appended: the position that `NewPosition` makes of the
    -- valid request, as the database stores it, and a command that is found under the order and
    -- whose snapshot is what the database makes of the reply. The reply shows that position.
    pub deposit-Outcome :
        (w : World D)
        → w.tables ≡ t
        → let (r, w') = execute (environment sql codec) codec json req w in
          Outcome sql codec json req t r w'
    unfolding execute
    deposit-Outcome = Ends-finish (steps (environment sql codec) codec json req) steps-Ends
