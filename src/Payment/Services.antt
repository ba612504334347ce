-- ===== src/Payment/Services.antt =====
-- The calls of the order service and the fraud service over HTTP: the controllers of
-- apps/order-service/src and apps/fraud-service/src with the exceptions that their services throw, the
-- filter and the HTTP client between, and the catch blocks of `createPayment`
-- (apps/payment-service/src/services/payment.service.ts). `builtin` makes the exceptions of NestJS.
pub mod Laws
use surgepay.Order
use surgepay.Fraud
use surgepay.Common.{ℕ, String, Bool, Option, none, some, true, false, ◌⊎◌, inl, inr}
use surgepay.Messaging.Json.{
  Json, bool, num, str, obj, Fields, end, field, property, whole, between, negative, nan, Number,
}
use surgepay.Errors.{
  BaseError, Exception, base, http, plain, HttpError, HttpClass, request_timeout,
  service_unavailable, downstream_response, other_class, fields_in, truthy,
}
use surgepay.Errors.Domain
use surgepay.Errors.Domain.{domain_exception}
use surgepay.Errors.Filter.{Scene, Response, catch}
use surgepay.Http.Client.{Arrival, no_answer, arrival_of, request, Target}
use surgepay.Payment.{
  Reply, answered, timed_out, unavailable, downstream, unexpected, FraudAnswer, PaymentError,
}
use surgepay.Payment.Checkout.{Link, working, slow, down}
use Prim.Native.String.{◌++◌}
use mathlib.Core.Option

-- What the order service is asked, and the amount and the currency of the order that it found.
pub record OrderQuery : Type 0 where
  pub reference : String
  pub merchant_id : String
  pub amount : Number
  pub currency : String
  pub order_amount : ℕ
  pub order_currency : String

-- The exceptions of `validateOrder`.
unfoldable pub order_exception : (Number → String) → OrderQuery → Order.OrderError → BaseError
order_exception number_text q Order.merchant_ownership =
    Domain.merchant_ownership q.reference q.merchant_id
order_exception number_text q Order.order_not_found = Domain.order_not_found q.reference
order_exception number_text q Order.amount_mismatch =
    Domain.order_amount_mismatch number_text q.reference (whole q.order_amount) q.amount
order_exception number_text q Order.currency_mismatch =
    Domain.order_currency_mismatch q.reference q.order_currency q.currency
order_exception number_text q Order.order_cancelled =
    domain_exception 409 "ORDER_ALREADY_PAID"
      ("Order with reference '" ++ (q.reference ++ "' is cancelled."))
      (field "reference" (str q.reference) end)
order_exception number_text q Order.order_refunded =
    domain_exception 409 "ORDER_ALREADY_PAID"
      ("Order with reference '" ++ (q.reference ++ "' is refunded."))
      (field "reference" (str q.reference) end)
order_exception number_text q Order.order_already_paid = Domain.order_already_paid q.reference

module _ (number_text : Number → String) (display : Json → String) (at : Scene) where
  -- The controller of the order service behind the service's filter.
  unfoldable pub order_response : OrderQuery → Order.Validation → Response
  order_response q (Order.valid o) = record {
    status = 200;
    body = obj (field "valid" (bool true) (field "orderId" (str o.id) end));
  }
  order_response q (Order.invalid e) = catch display at (base (order_exception number_text q e))

  -- The controller of the fraud service.
  unfoldable pub fraud_response : Fraud.Precheck → Fraud.Screening → Response
  fraud_response p (Fraud.approved score) = record {
    status = 200;
    body = obj (field "approved" (bool true) (field "riskScore" (num (whole score)) end));
  }
  fraud_response p (Fraud.rejected score reason) =
      catch display at (base (Domain.fraud_rejected p.merchant_id p.amount p.currency score reason))

-- What reaches the client of a response: over a slow link the time-out of axios, over a broken one the
-- error of the connection.
abbrev pub arrival_over : Link → Response → Arrival
arrival_over working r = arrival_of r
arrival_over slow r = no_answer (some "ECONNABORTED") "timeout of 2000ms exceeded"
arrival_over down r = no_answer (some "ECONNREFUSED") "connect ECONNREFUSED"

-- The branches of the catch blocks, by `instanceof`.
abbrev pub failed_reply {ℓ} : {A : Type ℓ} → ℕ → HttpClass → Reply A
failed_reply status request_timeout = timed_out
failed_reply status service_unavailable = unavailable
failed_reply status downstream_response = downstream status
failed_reply status other_class = unexpected

abbrev pub property_of : String → Json → Option Json
property_of name data_ = elim (fields_in data_) [ none ↦ none | some fs ↦ property name fs ]

-- `response.orderId || ''`
abbrev pub text_or_empty : Option Json → String
text_or_empty (some (str s)) = s
text_or_empty _ = ""

abbrev pub is_true : Option Json → Bool
is_true (some v) = truthy v
is_true none = false

abbrev pub score_in : Option Json → ℕ
score_in (some (num (whole n))) = n
score_in _ = 0

unfoldable pub read_order : Json ⊎ HttpError → Reply String
read_order (inl data_) = answered (text_or_empty (property_of "orderId" data_))
read_order (inr e) = failed_reply e.status e.class

unfoldable pub read_fraud : Json ⊎ HttpError → Reply FraudAnswer
read_fraud (inl data_) = answered (record {
  approved = is_true (property_of "approved" data_);
  risk_score = score_in (property_of "riskScore" data_);
})
read_fraud (inr e) = failed_reply e.status e.class

-- What `createPayment` knows when it throws.
pub record Facts : Type 0 where
  pub merchant_id : String
  pub reference : String
  pub amount : Number
  pub currency : String
  pub risk_score : ℕ
  pub reason : Option String
  pub database_message : String

-- The exception that stands for each error of `createPayment`.
unfoldable pub payment_exception :
    (Number → String) → (ℕ → String → HttpError) → Facts → PaymentError → Exception
payment_exception number_text builtin f PaymentError.duplicate_reference =
    base (Domain.duplicate_payment_reference f.merchant_id f.reference)
payment_exception number_text builtin f PaymentError.order_timed_out =
    http (builtin 503 "Order validation service timed out.")
payment_exception number_text builtin f PaymentError.order_unavailable =
    http (builtin 503 "Order validation service is unavailable.")
payment_exception number_text builtin f PaymentError.order_not_found =
    base (Domain.order_not_found f.reference)
payment_exception number_text builtin f PaymentError.order_amount_mismatch =
    base (Domain.order_amount_mismatch number_text f.reference f.amount f.amount)
payment_exception number_text builtin f PaymentError.order_already_paid =
    base (Domain.order_already_paid f.reference)
payment_exception number_text builtin f PaymentError.order_failure =
    http (builtin 500 "Unexpected order validation failure.")
payment_exception number_text builtin f PaymentError.order_unexpected =
    http (builtin 500 "An unexpected error occurred during order validation.")
payment_exception number_text builtin f PaymentError.fraud_rejected =
    base (Domain.fraud_rejected f.merchant_id f.amount f.currency f.risk_score f.reason)
payment_exception number_text builtin f PaymentError.fraud_timed_out =
    http (builtin 503 "Fraud pre-check service timed out.")
payment_exception number_text builtin f PaymentError.fraud_unavailable =
    http (builtin 503 "Fraud pre-check service is unavailable.")
payment_exception number_text builtin f PaymentError.fraud_unexpected =
    http (builtin 503 "Fraud pre-check service encountered an unexpected error.")
payment_exception number_text builtin f PaymentError.database_failure = plain f.database_message
