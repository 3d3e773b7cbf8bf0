-- ===== src/Application/Withdraw/Request.antt =====
-- The request of a withdrawal and its checks, in the order in which the source makes them.
use spec_star_go.Prelude.{ℕ, String, str_eq, not}
use spec_star_go.Decimal.{Decimal}
use spec_star_go.Domain.Effect.{Result, ok, ◌>>=◌, ◌>>◌}
use spec_star_go.Ports.{Codec}
use spec_star_go.Application.Deposit.Request.{reject_if, parsed}

pub record WithdrawRequest : Type 0 where
  pub client_id : String
  pub instrument_id : String
  pub order_id : String
  pub desired_value : String

-- the request after its checks
pub record ValidWithdraw (D : Type 0) : Type 0 where
  pub client : ℕ
  pub desired : D

module _ {D : Type 0} ⦃d : Decimal D⦄ (codec : Codec) where
  unfoldable pub validate_withdraw_request : WithdrawRequest → Result (ValidWithdraw D)
  validate_withdraw_request req = do
    reject_if (str_eq req.client_id "") "client_id is required"
    client ← parsed (codec.parse_uuid req.client_id) "invalid client_id"
    reject_if (str_eq req.instrument_id "") "instrument_id is required"
    reject_if (str_eq req.order_id "") "order_id is required"
    reject_if (str_eq req.desired_value "") "desired_value is required"
    desired ← parsed (d.new_from_string req.desired_value) "invalid desired_value"
    reject_if (not (d.is_positive desired)) "desired_value must be positive"
    ok (record { client = client; desired = desired })
