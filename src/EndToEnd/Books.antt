-- ===== src/EndToEnd/Books.antt =====
-- What a withdrawal that went through has sold, from the rows of the database to the reply.
use mathlib.Core.List.{Perm}
use spec_star_go.Prelude.{ℕ, ◌≡◌, ◌∙◌, sym, ap, List, some, All, arith, true}
use spec_star_go.Decimal.{Decimal}
use spec_star_go.Decimal.Laws.{DecimalLaws}
use spec_star_go.Decimal.Order.{lt_asymm}
use spec_star_go.Domain.Effect.{ok}
use spec_star_go.Domain.Position.{Position}
use spec_star_go.Domain.Position.Laws.{IsValid}
use spec_star_go.Ports.{Codec, Json}
use spec_star_go.Application.Flow.{Reply}
use spec_star_go.Application.Withdraw.{WithdrawResponse, to_withdraw_response}
use spec_star_go.Application.Withdraw.Request.{
  WithdrawRequest, ValidWithdraw, validate_withdraw_request,
}
use spec_star_go.Application.Withdraw.Consume.{Sales}
use spec_star_go.Application.Withdraw.Sales.{IsWithin, taken, slack_from}
use spec_star_go.Application.Withdraw.Allocate.{eligible_lots}
use spec_star_go.Application.Withdraw.Books.{allocate_books}
use spec_star_go.Postgres.World.{World, Tables, Sql}
use spec_star_go.Postgres.Statements.{select_all, is_of_instrument}
use spec_star_go.Postgres.Statements.Ordering.{IsOldestFirst}
use spec_star_go.Postgres.PositionRepository.Lots.{AreRows, find_by_client_and_instrument_lots}
use spec_star_go.Postgres.Transaction.{environment}
use spec_star_go.EndToEnd.Withdraw.{Withdrawn}

module _ {D : Type 0} ⦃d : Decimal D⦄ (laws : DecimalLaws D) (codec : Codec) where
  open laws use {is_positive_lem}

  -- a request that is accepted asks for a positive value
  desired_positive :
      (req : WithdrawRequest) (cmd : ValidWithdraw D)
      → validate_withdraw_request codec req ≡ ok cmd
      → d.is_positive cmd.desired ≡ true
  unfolding validate_withdraw_request
  desired_positive req cmd h = ground arith

  module _ (sql : Sql D) (json : Json WithdrawResponse) where
    -- the rows that were sold from, the affected lots, and what was left over
    pub record Books (req : WithdrawRequest) (t : Tables D) (r : Reply WithdrawResponse)
        : Type 0 where
      pub cmd : ValidWithdraw D
      pub valid : validate_withdraw_request codec req ≡ ok cmd
      pub rows : List (Position D)
      pub all_rows :
          Perm rows
            (select_all (is_of_instrument t.assets cmd.client req.instrument_id) t.positions)
      pub lots : List (Position D)
      pub same_rows : AreRows lots rows
      pub oldest_first : IsOldestFirst lots
      pub clock : ℕ → ℕ
      pub affected : List (Position D)
      pub replied :
          r.response ≡ some (to_withdraw_response (environment sql codec) codec json affected)
      pub affected_valid : All IsValid affected
      pub left : D
      pub sales : Sales clock cmd.desired (eligible_lots lots) affected left
      pub balance : d.add left (taken affected (eligible_lots lots)) ≡ cmd.desired
      pub within : IsWithin left (slack_from laws d.zero (eligible_lots lots))

    -- A withdrawal that went through has read all the client's positions in the instrument, oldest
    -- first. The affected lots of the reply come from a run of sales over the eligible ones of them:
    -- lots are sold in that order while a positive value remains, each for the units that cover it
    -- or for all that is available, and each keeps its identity, price, collateral and purchase. The
    -- affected lots are valid positions, and the value taken from them differs from the desired
    -- value by no more than the rounding of the units allows.
    pub withdraw_sells :
        (req : WithdrawRequest) (t : Tables D) (r : Reply WithdrawResponse) (w : World D)
        → Withdrawn sql codec json req t r w
        → Books req t r
    withdraw_sells req t r w x =
        let s = x.sold in
        let (rows, all, same, valid, sorted, kept) =
          find_by_client_and_instrument_lots laws sql codec x.cmd.client req.instrument_id s.lots
            x.begun s.after_find s.read in
        let positive = sym (is_positive_lem x.cmd.desired) ∙ desired_positive req x.cmd x.valid in
        let (left, sales, valids, balance, within) =
          allocate_books laws s.after_find.times x.cmd.desired s.lots s.affected valid
            (lt_asymm laws _ _ positive) s.allocated in
        record {
          cmd = x.cmd;
          valid = x.valid;
          rows = rows;
          all_rows = rw x.started at all;
          lots = s.lots;
          same_rows = same;
          oldest_first = sorted;
          clock = s.after_find.times;
          affected = s.affected;
          replied = x.replied ∙ ap some s.response;
          affected_valid = valids;
          left = left;
          sales = sales;
          balance = balance;
          within = within;
        }
