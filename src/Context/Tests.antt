-- ===== src/Context/Tests.antt =====
-- A request of a merchant that names another one, behind the gateway.
use surgepay.Common.{true, String, List, some, none, [], ◌∷◌, ◌≡◌, refl, Option, arith}
use surgepay.Messaging.Json.{nil}
use surgepay.Gateway.Auth.{MerchantContext}
use surgepay.Context.{RequestContextStore, Headers, header, use_logging, authenticated}
use surgepay.Context.Hops.{
  IsWire, is_sendable, IdName, request, correlation, merchant, hops, hops-authenticated, hops_keep,
  id_in,
}

abbrev pub no_trace : Headers → Headers
no_trace hs = hs

abbrev pub renamed : String → Option String → Headers → Headers
renamed name none rest = rest
renamed name (some value) rest = (name, value) ∷ rest

-- A wire that carries the three ids.
abbrev pub arrive : Headers → Headers
arrive hs = renamed "x-request-id" (header "X-Request-ID" hs) (
    renamed "x-correlation-id" (header "X-Correlation-ID" hs)
      (renamed "x-merchant-id" (header "X-Merchant-ID" hs) []))

arrives :
    (upper lower value : String) (hs : Headers)
    → IdName upper lower
    → is_sendable value ≡ true
    → header upper hs ≡ some value
    → header lower (arrive hs) ≡ some value
unfolding header
arrives upper lower value hs request p h = ground (arith, h)
arrives upper lower value hs correlation p h = ground (arith, h)
arrives upper lower value hs merchant p h = ground (arith, h)

pub wire : IsWire no_trace arrive
wire = record { injected = λ upper lower hs name. refl; arrives = arrives }

abbrev acme : MerchantContext
acme = record { merchant_id = "m"; merchant_name = "Acme"; permissions = nil }

abbrev spoofed : Headers
spoofed = ("x-merchant-id", "other") ∷ ("x-request-id", "r-1") ∷ []

abbrev draws : List (String × String)
draws = ("req_1", "corr_1") ∷ ("req_2", "corr_2") ∷ []

entered_test : (use_logging none "req_0" "corr_0" none spoofed).store.merchant_id ≡ some "other"
unfolding use_logging header
entered_test = refl

hops-authenticated_example :
    (hops no_trace arrive draws
      (authenticated acme (use_logging none "req_0" "corr_0" none spoofed)).store).merchant_id
    ≡ some "m"
unfolding is_sendable
hops-authenticated_example =
    hops-authenticated no_trace arrive wire draws "req_0" "corr_0" spoofed acme refl refl

abbrev traced : RequestContextStore
traced = record {
  request_id = "r-1";
  correlation_id = some "c-1";
  saga_id = none;
  event_id = none;
  merchant_id = none;
  payment_id = none;
}

hops_keep_example :
    id_in "X-Correlation-ID" "x-correlation-id" correlation (hops no_trace arrive draws traced)
    ≡ some "c-1"
unfolding is_sendable
hops_keep_example =
    hops_keep no_trace arrive wire draws "X-Correlation-ID" "x-correlation-id" "c-1" correlation
      traced refl refl refl
