-- ===== src/Skills/Orders/Laws.antt =====
-- What a batch of messages writes to the table of orders.
use Prim.Native.String.{◌++◌ as ◌++ₛ◌}
use spec_star_go.Prelude.{
  String, Bool, true, false, ◌≡◌, refl, sym, ap, ◌∙◌, inl, inr, List, [], ◌∷◌, ◌++◌, Bool-cases,
  if◌then◌else◌, ◌⊎◌,
}
use mathlib.Core.List.{append_assoc, append-nil}
use spec_star_go.Skills.{SqsMessage, Result, ok, err, Action}
use spec_star_go.Skills.Orders.{
  Error, is_blank, new_order, CreateOrderRequest, create_order, save_order, handle_message,
  handle_messages,
}

Result-cases : {E A : Type 0} (r : Result E A) → ((a : A) × (r ≡ ok a)) ⊎ ((e : E) × (r ≡ err e))
Result-cases (ok a) = inl (a, refl)
Result-cases (err e) = inr (e, refl)

abbrev is_err : {E A : Type 0} → Result E A → Bool
is_err (ok a) = false
is_err (err e) = true

module _ {W E : Type 0} (unmarshal : String → Result E CreateOrderRequest)
    (marshal : String → String) (put_item : List (String × String) → Action W Error (Unit {0}))
    (table : String) where
  abbrev create : CreateOrderRequest → Action W Error String
  create = create_order (save_order put_item table)

  abbrev pub item : CreateOrderRequest → List (String × String)
  item req =
      ("pk", "ORDER#" ++ₛ req.order_id) ∷ ("customer_id", req.customer_id) ∷ ("table", table) ∷ []

  -- One item for each message with an order of a customer, in order. A message is reported if it is
  -- not such an order, and then nothing is written, or if its item is refused.
  abbrev pub put_orders : List SqsMessage → W → List String × W
  put_orders [] w = ([], w)
  put_orders (r ∷ rest) w = elim (unmarshal r.body) [
    | err e ↦ let (fs, w') = put_orders rest w in (r.message_id ∷ fs, w')
    | ok req ↦ elim (is_blank req.customer_id) [
      | true ↦ let (fs, w') = put_orders rest w in (r.message_id ∷ fs, w')
      | false ↦
          let (put, w1) = put_item (item req) w in
          let (fs, w') = put_orders rest w1 in (if is_err put then r.message_id ∷ fs else fs, w')
    ]
  ]

  abbrev one : List String → Bool → String → List String
  one failures failed id = if failed then failures ++ id ∷ [] else failures

  one-append :
      (failures fs : List String) (failed : Bool) (id : String)
      → one failures failed id ++ fs ≡ failures ++ (if failed then id ∷ fs else fs)
  one-append failures fs true id = append_assoc failures (id ∷ []) fs
  one-append failures fs false id = refl

  handle_message_lem :
      (r : SqsMessage) (req : CreateOrderRequest) (w : W)
      → unmarshal r.body ≡ ok req
      → is_blank req.customer_id ≡ false
      → handle_message unmarshal marshal create r w
        ≡ (is_err (put_item (item req) w).0, (put_item (item req) w).1)
  unfolding handle_message create_order new_order save_order
  handle_message_lem r req w h named = elim (Result-cases (put_item (item req) w).0) [
    | inl (_, p) ↦ rw (h, handle_message, named, create_order, p) refl
    | inr (e, p) ↦ rw (h, handle_message, named, create_order, p) refl
  ]

  handle_message_blank :
      (r : SqsMessage) (req : CreateOrderRequest) (w : W)
      → unmarshal r.body ≡ ok req
      → is_blank req.customer_id ≡ true
      → handle_message unmarshal marshal create r w ≡ (true, w)
  unfolding handle_message create_order new_order
  handle_message_blank r req w h blank = rw (h, handle_message, blank, create_order) refl

  handle_message_invalid :
      (r : SqsMessage) (e : E) (w : W)
      → unmarshal r.body ≡ err e
      → handle_message unmarshal marshal create r w ≡ (true, w)
  unfolding handle_message
  handle_message_invalid r e w h = rw (h, handle_message) refl

  -- The handler of messages reports and writes as that says.
  pub handle_messages-put_orders :
      (failures : List String) (messages : List SqsMessage) (w : W)
      → handle_messages unmarshal marshal create failures messages w
        ≡ (failures ++ (put_orders messages w).0, (put_orders messages w).1)
  unfolding handle_messages
  handle_messages-put_orders failures [] w = ap (λ fs. (fs, w)) (sym (append-nil failures))
  handle_messages-put_orders failures (r ∷ rest) w = elim (Result-cases (unmarshal r.body)) [
    | inr (e, h) ↦
        rw (handle_message_invalid r e w h, h, put_orders)
          (handle_messages-put_orders (failures ++ r.message_id ∷ []) rest w
            ∙ ap (λ fs. (fs, (put_orders rest w).1)) (one-append failures _ true r.message_id))
    | inl (req, h) ↦ elim (Bool-cases (is_blank req.customer_id)) [
      | inl blank ↦
          rw (handle_message_blank r req w h blank, h, blank, put_orders)
            (handle_messages-put_orders (failures ++ r.message_id ∷ []) rest w
              ∙ ap (λ fs. (fs, (put_orders rest w).1)) (one-append failures _ true r.message_id))
      | inr named ↦
          let (put, w1) = put_item (item req) w in
          rw (handle_message_lem r req w h named, h, named, put_orders)
            (handle_messages-put_orders (one failures (is_err put) r.message_id) rest w1
              ∙ ap (λ fs. (fs, (put_orders rest w1).1))
                  (one-append failures _ (is_err put) r.message_id))
    ]
  ]
