-- ===== src/Gateway/Replies/Laws.antt =====
-- The statuses and codes that a merchant sees.
use surgepay.Common.{ℕ, String, Option, none, ◌≡◌, ap, ◌∙◌}
use surgepay.Messaging.Json.{Json, Number, obj, str, num, field, end, whole, property}
use surgepay.Errors.{Exception, http, HttpError, HttpClass}
use surgepay.Errors.Domain
use surgepay.Errors.Filter.{Scene, Verdict, judge, judge_object, catch, conflict_code}
use surgepay.Http.Client.{Target}
use surgepay.Http.Client.Laws.{judge-catch}
use surgepay.Payment.{PaymentError}
use surgepay.Payment.Services.{Facts, payment_exception}
use surgepay.Gateway.Replies.{relay, client_verdict}

-- The built-in exceptions of NestJS with the statuses 503 and 500, and the bodies that they are
-- documented to have.
pub record IsBuiltin (builtin : ℕ → String → HttpError) : Type 0 where
  pub unavailable :
      (message : String)
      → builtin 503 message ≡ record {
        class = HttpClass.other_class;
        status = 503;
        message = message;
        body = obj (
            field "message" (str message) (
              field "error"
                (str "Service Unavailable")
                (field "statusCode" (num (whole 503)) end)));
        response_data = none;
      }
  pub internal :
      (message : String)
      → builtin 500 message ≡ record {
        class = HttpClass.other_class;
        status = 500;
        message = message;
        body = obj (
            field "message" (str message) (
              field "error"
                (str "Internal Server Error")
                (field "statusCode" (num (whole 500)) end)));
        response_data = none;
      }

abbrev pub verdict_of : ℕ → String → String → Verdict
verdict_of status code message = record {
  status = status;
  code = code;
  message = message;
  validation_errors = none;
  metadata = none;
}

-- What the client is told of each error.
abbrev pub told : (Number → String) → Facts → PaymentError → Verdict
told number_text f PaymentError.duplicate_reference =
    verdict_of 409 "DUPLICATE_PAYMENT_REFERENCE" "Payment reference already exists."
told number_text f PaymentError.order_not_found =
    verdict_of 404 "ORDER_NOT_FOUND" (Domain.order_not_found f.reference).message
told number_text f PaymentError.order_amount_mismatch =
    verdict_of 422 "ORDER_AMOUNT_MISMATCH"
      (Domain.order_amount_mismatch number_text f.reference f.amount f.amount).message
told number_text f PaymentError.order_already_paid =
    verdict_of 409 "ORDER_ALREADY_PAID" (Domain.order_already_paid f.reference).message
told number_text f PaymentError.fraud_rejected =
    verdict_of 403 "PAYMENT_BLOCKED" "Payment rejected by fraud rules"
told number_text f PaymentError.order_timed_out =
    verdict_of 503 "Service Unavailable" "Order validation service timed out."
told number_text f PaymentError.order_unavailable =
    verdict_of 503 "Service Unavailable" "Order validation service is unavailable."
told number_text f PaymentError.fraud_timed_out =
    verdict_of 503 "Service Unavailable" "Fraud pre-check service timed out."
told number_text f PaymentError.fraud_unavailable =
    verdict_of 503 "Service Unavailable" "Fraud pre-check service is unavailable."
told number_text f PaymentError.fraud_unexpected =
    verdict_of 503 "Service Unavailable" "Fraud pre-check service encountered an unexpected error."
told number_text f PaymentError.order_failure =
    verdict_of 500 "Internal Server Error" "Unexpected order validation failure."
told number_text f PaymentError.order_unexpected =
    verdict_of 500 "Internal Server Error" "An unexpected error occurred during order validation."
told number_text f PaymentError.database_failure =
    verdict_of 500 "INTERNAL_ERROR" f.database_message

module _ (status_name : ℕ → Option String) (status_text : ℕ → String)
    (number_text : Number → String) (display : Json → String) (builtin : ℕ → String → HttpError)
    (at : Scene) (t : Target) where
  abbrev seen : Exception → Verdict
  seen x = relay status_name status_text display t (catch display at x)

  seen_lem :
      (x : Exception)
      → seen x
        ≡ verdict_of
            (judge display x).status
            (conflict_code (judge display x).code)
            (judge display x).message
  unfolding relay
  seen_lem x = judge-catch status_name status_text display display at t x

  unavailable_lem :
      IsBuiltin builtin
      → (message : String)
      → seen (http (builtin 503 message)) ≡ verdict_of 503 "Service Unavailable" message
  unfolding judge judge_object property
  unavailable_lem laws message = ap (λ e. seen (http e)) (laws.unavailable message) ∙ seen_lem _

  internal_lem :
      IsBuiltin builtin
      → (message : String)
      → seen (http (builtin 500 message)) ≡ verdict_of 500 "Internal Server Error" message
  unfolding judge judge_object property
  internal_lem laws message = ap (λ e. seen (http e)) (laws.internal message) ∙ seen_lem _

  -- Where the payment service fails with an error of `createPayment`, the client of the gateway gets a
  -- status, a code and a message that depend on the error, the reference and the amount alone, and on
  -- the message of the database where that failed; no metadata, so neither the risk score nor the rule
  -- of a rejection.
  pub client_verdict_lem :
      IsBuiltin builtin
      → (f : Facts) (x : PaymentError)
      → client_verdict status_name status_text display number_text builtin at t f x
        ≡ told number_text f x
  unfolding client_verdict payment_exception judge judge_object property Domain.order_not_found
      Domain.order_already_paid Domain.order_amount_mismatch Domain.fraud_rejected
      Domain.duplicate_payment_reference
  client_verdict_lem laws f PaymentError.duplicate_reference = seen_lem _
  client_verdict_lem laws f PaymentError.order_not_found = seen_lem _
  client_verdict_lem laws f PaymentError.order_amount_mismatch = seen_lem _
  client_verdict_lem laws f PaymentError.order_already_paid = seen_lem _
  client_verdict_lem laws f PaymentError.fraud_rejected = seen_lem _
  client_verdict_lem laws f PaymentError.database_failure = seen_lem _
  client_verdict_lem laws f PaymentError.order_timed_out = unavailable_lem laws _
  client_verdict_lem laws f PaymentError.order_unavailable = unavailable_lem laws _
  client_verdict_lem laws f PaymentError.fraud_timed_out = unavailable_lem laws _
  client_verdict_lem laws f PaymentError.fraud_unavailable = unavailable_lem laws _
  client_verdict_lem laws f PaymentError.fraud_unexpected = unavailable_lem laws _
  client_verdict_lem laws f PaymentError.order_failure = internal_lem laws _
  client_verdict_lem laws f PaymentError.order_unexpected = internal_lem laws _
