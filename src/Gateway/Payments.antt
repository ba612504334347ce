-- ===== src/Gateway/Payments.antt =====
-- The payment request behind the gateway's filters: gateway-payment-proxy.service.ts and
-- payment.controller.ts of apps/gateway/src, then dto/create-payment-request.dto.ts and
-- controllers/payment.controller.ts of apps/payment-service/src. The tests of class-validator on a
-- body that has a reference are a parameter.
pub mod Laws
use surgepay.Common.{
  either_text, false, true, leb, ltb, not, ◌||◌, ◌==◌, find, if◌then◌else◌, ◌&&◌, Bool, ℕ, some,
  none, String, Option,
}
use surgepay.Messaging.Json.{nan, negative, between, whole, Number}
use surgepay.Payment.{
  create_payment, PaymentError, Context, FraudAnswer, thrown, PaymentStatus, created, Payment,
  Reply, Store, Outcome,
}
use surgepay.Payment.{Request}

-- What the proxy reads of a request's body.
pub record GatewayBody : Type 0 where
  pub amount : Number
  pub currency : String
  pub merchant_id : String
  pub reference : Option String
  pub order_id : Option String
  pub payment_method : Option String

-- `paymentServiceBody`
pub record Forwarded : Type 0 where
  pub amount : Number
  pub currency : String
  pub reference : Option String
  pub payment_method : Option String

unfoldable pub forward_payment_request : GatewayBody → Forwarded
forward_payment_request body = record {
  amount = body.amount;
  currency = body.currency;
  reference = either_text body.reference body.order_id;
  payment_method = none;
}

-- What the payment service's controller answers.
pub data Answered : Type 0 where
  accepted : String → PaymentStatus → Answered
  bad_request : Answered
  failed : PaymentError → Answered

abbrev pub answer_for : Outcome → Answered
answer_for (created p) = accepted p.id p.status
answer_for (thrown x) = failed x

abbrev pub request_with : Forwarded → String → Request
request_with body ref = record {
  amount = body.amount;
  currency = body.currency;
  reference = ref;
  payment_method = body.payment_method;
}

-- The validation of the body by the decorators of its class, which asks for a reference.
unfoldable pub validate_body : (Forwarded → Bool) → Forwarded → Option Request
validate_body is_valid body = elim body.reference [
  | none ↦ none
  | some ref ↦ if is_valid body then some (request_with body ref) else none
]

-- What the services behind the payment service answer, and the states that it meets.
pub record Surroundings : Type 0 where
  pub payment_id : String
  pub event_id : String
  pub order : Reply String
  pub fraud : Reply FraudAnswer
  pub transaction_accepted : Bool
  pub seen : Store
  pub store : Store

module _ (trim : String → String) (is_valid : Forwarded → Bool) where
  abbrev pub create_for : Context → Surroundings → Request → String → Answered × Store
  create_for c w r merchant =
      let (outcome, s) =
        create_payment trim w.payment_id w.event_id c r merchant w.order w.fraud
          w.transaction_accepted w.seen w.store in
      (answer_for outcome, s)

  -- The controller, after the validation of the body: without a merchant's header there is no payment.
  unfoldable pub create : Context → Surroundings → Option Request → Option String → Answered × Store
  create c w none merchant = (bad_request, w.store)
  create c w (some r) none = (bad_request, w.store)
  create c w (some r) (some merchant) =
      if merchant == "" then (bad_request, w.store) else create_for c w r merchant

  -- The gateway's controller, with the HTTP call as a single one: the merchant's header is the one that
  -- authentication has put into the request context.
  unfoldable pub create_through_gateway : Context → Surroundings → GatewayBody → Answered × Store
  create_through_gateway c w body =
      create c w (validate_body is_valid (forward_payment_request body)) c.merchant_id

abbrev pub has_payment_id : String → Payment → Bool
has_payment_id id p = p.id == id

-- `getPayment` of the payment service; `none` is PaymentNotFoundException.
unfoldable pub get_payment : String → Store → Option Payment
get_payment id s = find (has_payment_id id) s.payments
