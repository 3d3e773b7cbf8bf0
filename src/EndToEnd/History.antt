-- ===== src/EndToEnd/History.antt =====
-- What any sequence of requests adds to the tables.
use mathlib.Core.List.{append_assoc, append-nil}
use spec_star_go.Prelude.{
  ℕ, ◌+◌, String, str_eq, eq_iff, ◌≡◌, refl, sym, ap, ◌∙◌, inl, inr, List, [], ◌∷◌, ◌++◌, map, some,
  true, Bool, Bool-cases, arith, length, length-append, if◌then◌else◌,
}
use spec_star_go.Decimal.{Decimal}
use spec_star_go.Domain.Position.{Position}
use spec_star_go.Domain.ProcessedCommand.{ProcessedCommand}
use spec_star_go.Ports.{Codec, Json}
use spec_star_go.Application.Deposit.{DepositResponse, command_type_deposit}
use spec_star_go.Application.Deposit as Deposit
use spec_star_go.Application.Deposit.Request.{DepositRequest}
use spec_star_go.Application.Withdraw.Request.{WithdrawRequest}
use spec_star_go.Application.Withdraw.{WithdrawResponse, command_type_withdraw}
use spec_star_go.Application.Withdraw as Withdraw
use spec_star_go.Postgres.World.{World, Tables, Sql}
use spec_star_go.Postgres.Statements.{find, has_key}
use spec_star_go.Postgres.Writes.Invariant.{IsWellFormed}
use spec_star_go.Postgres.Transaction.{environment}
use spec_star_go.EndToEnd.Deposit.{deposit-Outcome}
use spec_star_go.EndToEnd.Withdraw.{withdraw_outcome}
use spec_star_go.EndToEnd.Rows.{withdraw_rows, ids, replace_all, replace-ids}
use spec_star_go.Postgres.PositionRepository.Affected.{replace}
use spec_star_go.EndToEnd.Invariant.{ServiceRequest, deposit, withdraw, serve, serve-IsWellFormed}

-- how many of the commands are deposits
abbrev pub deposits : List ProcessedCommand → ℕ
deposits [] = 0
deposits (c ∷ rest) =
    let n = deposits rest in if str_eq c.command_type command_type_deposit then n + 1 else n

deposits-append : (cs ds : List ProcessedCommand) → deposits (cs ++ ds) ≡ deposits cs + deposits ds
deposits-append [] ds = omega arith
deposits-append (c ∷ rest) ds = grind (arith, deposits-append rest ds)

find-holds : {A : Type 0} (p : A → Bool) (xs : List A) (x : A) → find p xs ≡ some x → p x ≡ true
find-holds p [] x h = absurd (cc)
find-holds p (y ∷ ys) x h = elim (Bool-cases (p y)) [
  | inl here ↦ ground arith
  | inr later ↦ find-holds p ys x (ground arith)
]

found_deposit :
    (order_id : String) (commands : List ProcessedCommand) (c : ProcessedCommand)
    → find (has_key command_type_deposit order_id) commands ≡ some c
    → deposits (c ∷ []) ≡ 1
found_deposit order_id commands c h =
    let key = find-holds (has_key command_type_deposit order_id) commands c h in ground arith

found_withdrawal :
    (order_id : String) (commands : List ProcessedCommand) (c : ProcessedCommand)
    → find (has_key command_type_withdraw order_id) commands ≡ some c
    → deposits (c ∷ []) ≡ 0
found_withdrawal order_id commands c h =
    let key = find-holds (has_key command_type_withdraw order_id) commands c h in
    let same = (eq_iff c.command_type command_type_withdraw).0 (ground arith) in rw same refl

module _ {D : Type 0} where
  map-append_one :
      (rows : List (Position D)) (row : Position D)
      → ids (rows ++ row ∷ []) ≡ ids rows ++ row.position_id ∷ []
  map-append_one [] row = refl
  map-append_one (p ∷ rest) row = ap (λ xs. p.position_id ∷ xs) (map-append_one rest row)

  -- Positions and commands are only added, and a position is added for each deposit.
  pub record Grown (t t' : Tables D) : Type 0 where
    pub new_ids : List ℕ
    pub new_commands : List ProcessedCommand
    pub positions : ids t'.positions ≡ ids t.positions ++ new_ids
    pub commands : t'.processed_commands ≡ t.processed_commands ++ new_commands
    pub one_each : length new_ids ≡ deposits new_commands

  Grown-refl : (t t' : Tables D) → t' ≡ t → Grown t t'
  Grown-refl t t' same = record {
    new_ids = [];
    new_commands = [];
    positions = rw same (sym (append-nil (ids t.positions)));
    commands = rw same (sym (append-nil t.processed_commands));
    one_each = refl;
  }

  Grown-trans : {t u v : Tables D} → Grown t u → Grown u v → Grown t v
  Grown-trans {t} {u} {v} g h = record {
    new_ids = g.new_ids ++ h.new_ids;
    new_commands = g.new_commands ++ h.new_commands;
    positions =
        h.positions
        ∙ ap (λ xs. xs ++ h.new_ids) g.positions
        ∙ append_assoc (ids t.positions) g.new_ids h.new_ids;
    commands =
        h.commands
        ∙ ap (λ xs. xs ++ h.new_commands) g.commands
        ∙ append_assoc t.processed_commands g.new_commands h.new_commands;
    one_each = omega (
      arith,
      g.one_each,
      h.one_each,
      length-append g.new_ids h.new_ids,
      deposits-append g.new_commands h.new_commands,
    );
  }

module _ {D : Type 0} ⦃d : Decimal D⦄ (sql : Sql D) (codec : Codec) where
  replace_all-ids : (new rows : List (Position D)) → ids (replace_all new rows) ≡ ids rows
  replace_all-ids [] rows = refl
  replace_all-ids (row ∷ rest) rows =
      replace_all-ids rest (map (replace row) rows) ∙ replace-ids sql codec row rows

  module _ (json : Json DepositResponse) where
    Grown-deposit :
        (req : DepositRequest) (w : World D)
        → Grown w.tables (Deposit.execute (environment sql codec) codec json req w).1.tables
    Grown-deposit req w = elim (deposit-Outcome sql codec json req w.tables w refl) [
      | inl (_, same) ↦ Grown-refl w.tables _ same
      | inr x ↦ record {
        new_ids = x.row.position_id ∷ [];
        new_commands = x.command ∷ [];
        positions = ap (λ t. ids t.positions) x.written ∙ map-append_one w.tables.positions x.row;
        commands = ap (λ t. t.processed_commands) x.written;
        one_each = sym (
            found_deposit req.order_id
              (Deposit.execute (environment sql codec) codec json req w).1.tables.processed_commands
              x.command x.found);
      }
    ]

  module _ (json : Json WithdrawResponse) where
    Grown-withdraw :
        (req : WithdrawRequest) (w : World D)
        → IsWellFormed w.tables
        → Grown w.tables (Withdraw.execute (environment sql codec) codec json req w).1.tables
    Grown-withdraw req w well = elim (withdraw_outcome sql codec json req w.tables w refl) [
      | inl same ↦ Grown-refl w.tables _ same
      | inr x ↦
          let y = withdraw_rows sql codec json req w.tables _ _ well x in
          record {
            new_ids = [];
            new_commands = y.command ∷ [];
            positions =
                ap (λ t. ids t.positions) y.tables
                ∙ replace_all-ids y.rows w.tables.positions
                ∙ sym (append-nil (ids w.tables.positions));
            commands = ap (λ t. t.processed_commands) y.tables;
            one_each = sym (
                found_withdrawal req.order_id
                  (Withdraw.execute (environment sql codec) codec json req
                    w).1.tables.processed_commands
                  y.command y.found);
          }
    ]

  module _ (deposit_json : Json DepositResponse) (withdraw_json : Json WithdrawResponse) where
    -- Whatever requests are served from well-formed tables, one after the other, and whatever fails
    -- on the way: no position and no command that was there is gone, new ones stand behind them in
    -- the order in which they came, and there are exactly as many new positions as new commands of
    -- type DEPOSIT, so that no deposit is stored without its command, or the reverse, and no
    -- withdrawal makes a position.
    pub serve-Grown :
        (requests : List ServiceRequest) (w : World D)
        → IsWellFormed w.tables
        → Grown w.tables (serve sql codec deposit_json withdraw_json requests w).tables
    serve-Grown [] w well = Grown-refl w.tables w.tables refl
    serve-Grown (deposit req ∷ rest) w well =
        let after =
          serve-IsWellFormed sql codec deposit_json withdraw_json (deposit req ∷ []) w well in
        Grown-trans (Grown-deposit deposit_json req w) (serve-Grown rest _ after)
    serve-Grown (withdraw req ∷ rest) w well =
        let after =
          serve-IsWellFormed sql codec deposit_json withdraw_json (withdraw req ∷ []) w well in
        Grown-trans (Grown-withdraw withdraw_json req w well) (serve-Grown rest _ after)
