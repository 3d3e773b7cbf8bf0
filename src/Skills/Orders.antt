-- ===== src/Skills/Orders.antt =====
-- .github/skills/go-aws-lambda-microservice-hexagonal/examples: orders, with the use case that creates
-- them, a table of DynamoDB behind its port, and handlers for HTTP and SQS.
pub mod Laws
use Prim.Native.String
use Prim.Native.String.{◌++◌ as ◌++ₛ◌}
use Prim.Native.Char.{code}
use spec_star_go.Prelude.{
  ℕ, ◌==◌, leb, String, Bool, true, false, ◌&&◌, ◌||◌, List, [], ◌∷◌, ◌++◌, if◌then◌else◌,
}
use spec_star_go.Skills.{SqsMessage, Response, Result, ok, err, Action}

-- `unicode.IsSpace`
abbrev is_space : ℕ → Bool
is_space c =
    (leb 9 c && leb c 13)
    || c == 0x20
    || c == 0x85
    || c == 0xA0
    || c == 0x1680
    || (leb 0x2000 c && leb c 0x200A)
    || c == 0x2028
    || c == 0x2029
    || c == 0x202F
    || c == 0x205F
    || c == 0x3000

-- `strings.TrimSpace(s) == ""`
unfoldable pub is_blank : String → Bool
is_blank String.[] = true
is_blank (String.◌∷◌ c s) = is_space (code c) && is_blank s

-- `ErrInvalidCustomerID`, and the errors of the client of the table
pub data Error : Type 0 where
  invalid_customer_id : Error
  put_failed : String → Error

pub record Order : Type 0 where
  pub id : String
  pub customer_id : String

unfoldable pub new_order : (id customer_id : String) → Result Error Order
new_order id customer_id =
    if is_blank customer_id
    then err invalid_customer_id
    else ok (record { id = id; customer_id = customer_id })

-- the JSON object that both handlers read
pub record CreateOrderRequest : Type 0 where
  pub order_id : String
  pub customer_id : String

module _ {W : Type 0} where
  -- `createorder.Handler.Handle`; the result is its `OrderID`
  unfoldable pub create_order :
      (save : Order → Action W Error (Unit {0})) → CreateOrderRequest → Action W Error String
  create_order save cmd w = elim (new_order cmd.order_id cmd.customer_id) [
    | err e ↦ (err e, w)
    | ok entity ↦
        let (r, w') = save entity w in (elim r [ ok _ ↦ ok entity.id | err e ↦ err e ], w')
  ]

  -- `OrderRepository.Save`, with the item as its keys and values
  unfoldable pub save_order :
      (put_item : List (String × String) → Action W Error (Unit {0}))
      → (table : String) → Order
      → Action W Error (Unit {0})
  save_order put_item table entity =
      put_item (
        ("pk", "ORDER#" ++ₛ entity.id)
        ∷ ("customer_id", entity.customer_id)
        ∷ ("table", table)
        ∷ [])

  module _ {E : Type 0} (unmarshal : String → Result E CreateOrderRequest)
      (marshal : (order_id : String) → String)
      (create : CreateOrderRequest → Action W Error String) where
    -- `Handle` of httpapi
    unfoldable pub handle_http : (body : String) → W → Response × W
    handle_http body w = elim (unmarshal body) [
      | err e ↦ (record { status_code = 400; headers = []; body = "" }, w)
      | ok req ↦
          let (r, w') = create req w in
          (
            elim r [
              | err e ↦ record { status_code = 422; headers = []; body = "" }
              | ok order_id ↦ record {
                status_code = 201;
                headers = ("content-type", "application/json") ∷ [];
                body = marshal order_id;
              }
            ],
            w',
          )
    ]

    -- one message of `Handle` of sqs: whether it is reported
    unfoldable pub handle_message : SqsMessage → W → Bool × W
    handle_message r w = elim (unmarshal r.body) [
      | err e ↦ (true, w)
      | ok req ↦
          let (result, w') = create req w in (elim result [ ok id ↦ false | err e ↦ true ], w')
    ]

    -- the loop of `Handle` of sqs
    unfoldable pub handle_messages : List String → List SqsMessage → W → List String × W
    unfolding handle_message
    handle_messages failures [] w = (failures, w)
    handle_messages failures (r ∷ rest) w =
        let (failed, w') = handle_message r w in
        handle_messages (if failed then failures ++ r.message_id ∷ [] else failures) rest w'
