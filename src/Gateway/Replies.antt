-- ===== src/Gateway/Replies.antt =====
-- What a client of the gateway is answered where the payment service fails: payment.controller.ts of
-- apps/gateway/src lets the exception of the HTTP client pass, and the filter of the gateway answers.
pub mod Laws
pub mod Tests
use surgepay.Common.{ℕ, String, Option}
use surgepay.Messaging.Json.{Json, Number}
use surgepay.Errors.{Exception, http, HttpError}
use surgepay.Errors.Filter.{Scene, Response, Verdict, judge, catch}
use surgepay.Http.Client.{Target, downstream_exception}
use surgepay.Payment.{PaymentError}
use surgepay.Payment.Services.{Facts, payment_exception}

module _ (status_name : ℕ → Option String) (status_text : ℕ → String)
    (display : Json → String) where
  -- The failing answer of a service, relayed by the filter of its caller.
  unfoldable pub relay : Target → Response → Verdict
  relay t r =
      judge display (http (downstream_exception status_name status_text display t r.status r.body))

  unfoldable pub client_verdict :
      (Number → String) → (ℕ → String → HttpError) → Scene → Target → Facts → PaymentError → Verdict
  client_verdict number_text builtin at t f x =
      relay t (catch display at (payment_exception number_text builtin f x))
