-- ===== src/EndToEnd/Invariant/Calls.antt =====
-- The calls of the services that keep the constraints of the schema.
use spec_star_go.Prelude.{ℕ, String, ◌≡◌, refl, sym, ◌∙◌, subst, inl, inr, List, [], ◌∷◌, arith}
use spec_star_go.Decimal.{Decimal}
use spec_star_go.Domain.Effect.{Result, ok, err, Action, Result-cases, bind, continue}
use spec_star_go.Domain.Position.{Position}
use spec_star_go.Domain.ProcessedCommand.{ProcessedCommand}
use spec_star_go.Ports.{Codec, Json, Environment}
use spec_star_go.Application.Flow.{wrap_call, make_command}
use spec_star_go.Application.Deposit.{DepositResponse, persist}
use spec_star_go.Application.Withdraw.{
  WithdrawResponse, to_withdraw_response, update_all, withdraw_from,
}
use spec_star_go.Application.Withdraw.Request.{WithdrawRequest}
use spec_star_go.Postgres.World.{World, Tables, Sql, DbResult, done, statement}
use spec_star_go.Postgres.World.Laws.{statement-cases, used}
use spec_star_go.Postgres.Writes.{insert_position, insert_command, update_position}
use spec_star_go.Postgres.Writes.Invariant.{IsWellFormed, Write, Write-IsWellFormed}
use spec_star_go.Postgres.Repositories.{create_command}
use spec_star_go.Postgres.PositionRepository.{
  scan_all, create_position, update_one, find_by_client_and_instrument, collect_positions,
  collecting, arguments, previous_version,
}
use spec_star_go.Postgres.Statements.{select_by_instrument}
use spec_star_go.Postgres.Transaction.{environment, transact}
use spec_star_go.Postgres.Transaction.Laws.{transact-cases}
use spec_star_go.EndToEnd.Withdraw.{allocating, marshalling}
use spec_star_go.Postgres.Reads.{statement-tables}

module _ {D : Type 0} ⦃d : Decimal D⦄ where
  abbrev pub Sound : World D → Type 0
  Sound w = IsWellFormed w.tables

  -- the call keeps the constraints, however it ends
  pub record Keeps {A : Type 0} (m : Action (World D) A) : Type 0 where
    pub at : (w : World D) → Sound w → Sound (m w).1

  statement-Sound :
      (sql : Sql D) {A : Type 0} (f : Tables D → DbResult (A × Tables D)) (w : World D)
      → ((a : A) (t t' : Tables D) → f t ≡ done (a, t') → Write sql t t')
      → Sound w
      → Sound (statement f w).1
  statement-Sound sql f w writes v = elim (statement-cases f w) [
    | inl (text, e) ↦ rw e v
    | inr (inl (a, t, run, e)) ↦
        rw e (Write-IsWellFormed sql w.tables t (writes a w.tables t run) v)
    | inr (inr (why, refused, e)) ↦ rw e v
  ]

  module _ {A B : Type 0} where
    continued :
        (r : Result A) (f : A → Action (World D) B) (w : World D)
        → ((a : A) → Keeps (f a))
        → Sound w
        → Sound (continue r f w).1
    continued (ok a) f w rest v = (rest a).at w v
    continued (err e) f w rest v = v

    Keeps-bind :
        (m : Action (World D) A) (f : A → Action (World D) B)
        → Keeps m
        → ((a : A) → Keeps (f a))
        → Keeps (bind m f)
    Keeps-bind m f first rest = record {
      at = λ w v. continued (m w).0 f (m w).1 rest (first.at w v);
    }

  pub Keeps-transact : {A : Type 0} (fn : Action (World D) A) → Keeps fn → Keeps (transact fn)
  Keeps-transact fn keeps = record {
    at = λ w v. elim (transact-cases fn w) [
      | inl (e, why, refused, t) ↦ subst IsWellFormed (sym t) v
      | inr (a, w', run, accepted, t) ↦
          subst IsWellFormed (sym t) (subst (λ s. Sound s.1) run (keeps.at (used w) v))
    ];
  }

  module _ (sql : Sql D) (codec : Codec) where
    Keeps-create_position : (p : Position D) → Keeps (create_position sql codec p)
    unfolding create_position
    Keeps-create_position p = record {
      at = λ w v.
          statement-Sound sql (insert_position sql (arguments sql codec p)) w
            (λ _ t t' h. Write.position (arguments sql codec p) h) v;
    }

    Keeps-create_command : (c : ProcessedCommand) → Keeps (create_command sql codec c)
    unfolding create_command
    Keeps-create_command c = record {
      at = λ w v. statement-Sound sql (insert_command sql c) w (λ _ t t' h. Write.command c h) v;
    }

    Keeps-update_one : (p : Position D) → Keeps (update_one sql codec p)
    unfolding update_one
    Keeps-update_one p = record {
      at = λ w v.
          let version = previous_version sql codec p.row_version in
          statement-Sound sql (update_position sql (arguments sql codec p) version) w
            (λ n t t' h. Write.update (arguments sql codec p) version n h) v;
    }

    collecting-tables :
        (r : Result (List (Position D))) (w : World D)
        → (collecting sql codec r w).1.tables ≡ w.tables
    unfolding collect_positions
    collecting-tables (err e) w = refl
    collecting-tables (ok rows) w = elim (Result-cases (scan_all sql codec rows)) [
      | inl (ps, h) ↦
          rw (h, collect_positions)
            (statement-tables (λ t. done (tt, t)) w (λ t t' a e. ground arith))
      | inr (why, h) ↦ rw (h, collect_positions) refl
    ]

    pub find_lots-tables :
        (client : ℕ) (instrument : String) (w : World D)
        → (find_by_client_and_instrument sql codec client instrument w).1.tables ≡ w.tables
    unfolding find_by_client_and_instrument select_by_instrument
    find_lots-tables client instrument w =
        let f = select_by_instrument client instrument in
        collecting-tables _ (statement f w).1 ∙ statement-tables f w (λ t t' a h. ground arith)

    Keeps-find_lots :
        (client : ℕ) (instrument : String)
        → Keeps (find_by_client_and_instrument sql codec client instrument)
    Keeps-find_lots client instrument = record {
      at = λ w v. subst IsWellFormed (sym (find_lots-tables client instrument w)) v;
    }

    abbrev env : Environment (World D) D
    env = environment sql codec

    Keeps-wrap_call :
        {A : Type 0} (prefix : String) (m : Action (World D) A)
        → Keeps m
        → Keeps (wrap_call prefix m)
    Keeps-wrap_call prefix m keeps = record { at = keeps.at }

    Keeps-make_command :
        (command_type order_id : String) (client : ℕ) (text : String)
        → Keeps (make_command env.system command_type order_id client text)
    Keeps-make_command command_type order_id client text = record { at = λ w v. v }

    pub Keeps-persist :
        (json : Json DepositResponse) (p : Position D) (order_id : String) (client : ℕ)
        (text : String)
        → Keeps (persist env codec json p order_id client text)
    unfolding persist
    Keeps-persist json p order_id client text =
        Keeps-bind _ _ (Keeps-wrap_call "create position" _ (Keeps-create_position p)) λ _.
          Keeps-bind _ _ (Keeps-make_command "DEPOSIT" order_id client text)
            λ c. Keeps-wrap_call "create processed command" _ (Keeps-create_command c)

    module _ (json : Json WithdrawResponse) where
      Keeps-update_all : (lots : List (Position D)) → Keeps (update_all env codec json lots)
      unfolding update_all
      Keeps-update_all [] = record { at = λ w v. v }
      Keeps-update_all (lot ∷ rest) = record {
        at =
            (Keeps-bind _ _ (Keeps-wrap_call "update position" _ (Keeps-update_one lot))
              λ _. Keeps-update_all rest).at;
      }

      pub Keeps-withdraw_from :
          (req : WithdrawRequest) (client : ℕ) (desired : D)
          → Keeps (withdraw_from env codec json req client desired)
      unfolding withdraw_from
      Keeps-withdraw_from req client desired =
          Keeps-bind _ _
            (Keeps-wrap_call "find positions" _ (Keeps-find_lots client req.instrument_id))
            λ found.
              Keeps-bind (allocating sql codec json desired found) _ (record { at = λ w v. v })
                λ affected. Keeps-bind _ _ (Keeps-update_all affected) λ _.
                  Keeps-bind
                    (marshalling sql codec json (to_withdraw_response env codec json affected)) _
                    (record { at = λ w v. v })
                    λ text.
                      Keeps-bind _ _ (Keeps-make_command "WITHDRAW" req.order_id client text) λ c.
                        Keeps-bind _ (λ _ w. (ok (to_withdraw_response env codec json affected), w))
                          (Keeps-wrap_call "create processed command" _ (Keeps-create_command c))
                          λ _. record { at = λ w v. v }
