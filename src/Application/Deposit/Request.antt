-- ===== src/Application/Deposit/Request.antt =====
-- The request of a deposit and its checks, in the order in which the source makes them.
use spec_star_go.Prelude.{ℕ, String, Option, none, some, str_eq, not, if◌then◌else◌, Bool}
use spec_star_go.Decimal.{Decimal}
use spec_star_go.Domain.Errors.{message}
use spec_star_go.Domain.Effect.{Result, ok, err, ◌>>=◌, ◌>>◌}
use spec_star_go.Ports.{Codec}

pub record DepositRequest : Type 0 where
  pub client_id : String
  pub asset_id : String
  pub order_id : String
  pub amount : String
  pub unit_price : String

-- `if test { return …, fmt.Errorf(m) }`
abbrev pub reject_if : Bool → String → Result (Unit {0})
reject_if test m = if test then err (message m) else ok tt

abbrev pub parsed {ℓ} : {A : Type ℓ} → Option A → String → Result A
parsed none m = err (message m)
parsed (some a) m = ok a

-- the request after its checks
pub record ValidDeposit (D : Type 0) : Type 0 where
  pub client : ℕ
  pub asset : ℕ
  pub quantity : D
  pub price : D

module _ {D : Type 0} ⦃d : Decimal D⦄ (codec : Codec) where
  unfoldable pub validate_deposit_request : DepositRequest → Result (ValidDeposit D)
  validate_deposit_request req = do
    reject_if (str_eq req.client_id "") "client_id is required"
    client ← parsed (codec.parse_uuid req.client_id) "invalid client_id"
    reject_if (str_eq req.asset_id "") "asset_id is required"
    asset ← parsed (codec.parse_uuid req.asset_id) "invalid asset_id"
    reject_if (str_eq req.order_id "") "order_id is required"
    reject_if (str_eq req.amount "") "amount is required"
    quantity ← parsed (d.new_from_string req.amount) "invalid amount"
    reject_if (str_eq req.unit_price "") "unit_price is required"
    price ← parsed (d.new_from_string req.unit_price) "invalid unit_price"
    reject_if (not (d.is_positive quantity)) "amount must be positive"
    reject_if (not (d.is_positive price)) "unit_price must be positive"
    ok (record { client = client; asset = asset; quantity = quantity; price = price })
