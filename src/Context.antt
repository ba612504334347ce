-- ===== src/Context.antt =====
-- The context of a request and its way from service to service: logging.middleware.ts, request-context.ts
-- and request-context.service.ts of packages/common/src/logger, and request.interceptor.ts of
-- packages/common/http/src. Headers are a list of names and values; what OpenTelemetry adds and the way of
-- headers over the wire are parameters.
pub mod Hops
pub mod Tests
use surgepay.Common.{
  String, Bool, true, Option, none, some, List, [], ◌∷◌, if◌then◌else◌, ◌==◌, ◌&&◌, not,
  either_text,
}
use surgepay.Gateway.Auth.{MerchantContext}

abbrev pub Headers : Type 0
Headers = List (String × String)

-- `headers[name]`
unfoldable pub header : String → Headers → Option String
header name [] = none
header name ((k, v) ∷ hs) = if k == name then some v else header name hs

-- `headers[name] = value`
unfoldable pub set_header : String → String → Headers → Headers
set_header name value [] = (name, value) ∷ []
set_header name value ((k, v) ∷ hs) =
    if k == name then (k, value) ∷ hs else (k, v) ∷ set_header name value hs

pub record RequestContextStore : Type 0 where
  pub request_id : String
  pub correlation_id : Option String
  pub saga_id : Option String
  pub event_id : Option String
  pub merchant_id : Option String
  pub payment_id : Option String

-- A request as a middleware hands it on: the store that it runs in, its headers and those of the
-- response.
pub record Entered : Type 0 where
  pub store : RequestContextStore
  pub headers : Headers
  pub response_headers : Headers

abbrev pub value_or : Option String → String → String
value_or none drawn = drawn
value_or (some s) drawn = s

-- `!value`, of a text that may be missing.
abbrev pub is_missing : Option String → Bool
is_missing none = true
is_missing (some s) = s == ""

-- `use` of the middleware. `active` is the store that the request runs in already; `drawn_request` and
-- `drawn_correlation` are the ids that `uuid` draws, with their prefixes, and `merchant` is the merchant
-- that is attached to the request.
abbrev pub given : String → Headers → Option String
given name hs = either_text (header name hs) (header name hs)

abbrev pub with_merchant_header : Option String → Headers → Headers
with_merchant_header none hs = hs
with_merchant_header (some m) hs =
    if not (m == "") && is_missing (header "x-merchant-id" hs)
    then set_header "x-merchant-id" m hs
    else hs

abbrev pub new_store : String → String → Option String → Headers → RequestContextStore
new_store drawn_request drawn_correlation merchant hs = record {
  request_id = value_or (given "x-request-id" hs) drawn_request;
  correlation_id = some (value_or (given "x-correlation-id" hs) drawn_correlation);
  saga_id = given "x-saga-id" hs;
  event_id = given "x-event-id" hs;
  merchant_id = either_text (given "x-merchant-id" hs) merchant;
  payment_id = given "x-payment-id" hs;
}

abbrev pub answer_headers : RequestContextStore → Headers
answer_headers store =
    ("x-request-id", store.request_id)
    ∷ (if is_missing store.correlation_id
        then []
        else ("x-correlation-id", value_or store.correlation_id "") ∷ [])

abbrev pub entered_with : RequestContextStore → Headers → Entered
entered_with store hs = record {
  store = store;
  headers =
      set_header "x-correlation-id" (value_or store.correlation_id "")
        (set_header "x-request-id" store.request_id hs);
  response_headers = answer_headers store;
}

unfoldable pub use_logging :
    Option RequestContextStore → String → String → Option String → Headers → Entered
use_logging (some store) drawn_request drawn_correlation merchant hs = record {
  store = store;
  headers = with_merchant_header store.merchant_id hs;
  response_headers = [];
}
use_logging none drawn_request drawn_correlation merchant hs =
    entered_with (new_store drawn_request drawn_correlation merchant hs) hs

-- What the authentication of the gateway does to the store and the headers of a request.
unfoldable pub authenticated : MerchantContext → Entered → Entered
authenticated context x = record x {
  store = record (x.store) { merchant_id = some context.merchant_id };
  headers = set_header "x-merchant-id" context.merchant_id x.headers;
}

-- One header of `propagateHeaders`: a value of the context, unless the caller gave its own in either
-- spelling.
abbrev pub propagate : String → String → Option String → Headers → Headers
propagate lower upper value hs =
    if not (is_missing value) && is_missing (header lower hs) && is_missing (header upper hs)
    then set_header upper (value_or value "") hs
    else hs

-- `propagateHeaders`, with what the propagation of traces adds.
unfoldable pub propagate_headers : (Headers → Headers) → RequestContextStore → Headers → Headers
propagate_headers inject store hs = inject (
    propagate "x-merchant-id" "X-Merchant-ID" store.merchant_id (
      propagate "x-correlation-id" "X-Correlation-ID" store.correlation_id
        (propagate "x-request-id" "X-Request-ID" (some store.request_id) hs)))
