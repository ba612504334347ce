-- ===== src/Gateway/Replies/Tests.antt =====
-- The calls of the two services at one order.
use surgepay.Order
use surgepay.Fraud
use surgepay.Payment.Services.Laws.{call}
use surgepay.Common.{◌=ℕ◌, some, if◌then◌else◌, refl, ◌≡◌, Option, none, ℕ, String}
use surgepay.Http.Client.{Target}
use surgepay.Gateway.Replies.Laws.{client_verdict_lem, told, IsBuiltin}
use surgepay.Payment.Services.{
  fraud_response, read_fraud, order_response, read_order, OrderQuery, Facts,
}
use surgepay.Messaging.Json.{end, num, str, field, obj, whole, Number, Json}
use surgepay.Errors.Filter.{Scene}
use surgepay.Gateway.Replies.{client_verdict}
use surgepay.Payment.{fraud_rejected}
use surgepay.Errors.{HttpClass, HttpError}
use surgepay.Payment.Checkout.{serve_fraud, serve_order, working}
use surgepay.Payment.Services.Laws.{call-serve}

abbrev no_name : ℕ → Option String
no_name status = none

abbrev no_text : ℕ → String
no_text n = "n"

abbrev number_text : Number → String
number_text n = "n"

abbrev display : Json → String
display data_ = "{}"

abbrev scene : Scene
scene = record {
  timestamp = "2026-01-01T00:00:00Z";
  path = "/api/v1/internal/orders/validate";
  context_correlation_id = none;
  context_request_id = some "r-1";
  header_correlation_id = none;
  header_request_id = none;
}

abbrev target : Target
target = record {
  service = "order-service";
  method = "POST";
  url = "/api/v1/internal/orders/validate";
  timeout = 2000;
}

abbrev query : OrderQuery
query = record {
  reference = "ref-1";
  merchant_id = "m";
  amount = whole 500;
  currency = "INR";
  order_amount = 700;
  order_currency = "INR";
}

abbrev precheck : Fraud.Precheck
precheck = record { merchant_id = "m"; amount = whole 500; currency = "XXX" }

call-serve_example :
    (call no_name no_text number_text display scene target read_order 3 working
        (order_response number_text display scene query (Order.invalid Order.amount_mismatch))
      ≡ some (serve_order working (Order.invalid Order.amount_mismatch), 1))
    × (call no_name no_text number_text display scene target read_fraud 3 working (
          fraud_response number_text display scene precheck
            (Fraud.rejected 90 (some "UNSUPPORTED_CURRENCY")))
        ≡ some (serve_fraud working (Fraud.rejected 90 (some "UNSUPPORTED_CURRENCY")), 1))
call-serve_example =
    call-serve no_name no_text number_text display scene target 3 working query
      (Order.invalid Order.amount_mismatch) precheck
      (Fraud.rejected 90 (some "UNSUPPORTED_CURRENCY")) refl

-- The errors as a client of the gateway sees them.
abbrev unavailable_error : String → HttpError
unavailable_error message = record {
  class = HttpClass.other_class;
  status = 503;
  message = message;
  body = obj (
      field "message" (str message)
        (field "error" (str "Service Unavailable") (field "statusCode" (num (whole 503)) end)));
  response_data = none;
}

abbrev internal_error : String → HttpError
internal_error message = record {
  class = HttpClass.other_class;
  status = 500;
  message = message;
  body = obj (
      field "message" (str message)
        (field "error" (str "Internal Server Error") (field "statusCode" (num (whole 500)) end)));
  response_data = none;
}

abbrev builtin : ℕ → String → HttpError
builtin status message = if status =ℕ 503 then unavailable_error message else internal_error message

builtin-IsBuiltin : IsBuiltin builtin
builtin-IsBuiltin = record { unavailable = λ message. refl; internal = λ message. refl }

abbrev facts : Facts
facts = record {
  merchant_id = "m";
  reference = "ref-1";
  amount = whole 500;
  currency = "INR";
  risk_score = 90;
  reason = some "UNSUPPORTED_CURRENCY";
  database_message = "Unique constraint failed";
}

client_verdict_lem_example :
    client_verdict no_name no_text display number_text builtin scene target facts fraud_rejected
    ≡ told number_text facts fraud_rejected
client_verdict_lem_example =
    client_verdict_lem no_name no_text number_text display builtin scene target builtin-IsBuiltin
      facts fraud_rejected
