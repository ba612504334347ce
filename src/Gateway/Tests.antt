-- ===== src/Gateway/Tests.antt =====
-- The gateway on small inputs: the interceptor over the store of Idempotency/Tests, and the
-- authentication over a table of two keys.
use surgepay.Messaging.Json.{Number, whole, obj, property, end, str, nil, field}
use surgepay.Common.{
  Bool, arith, find, ◌==◌, [], refl, ◌∷◌, if◌then◌else◌, none, true, ◌≡◌, some, String, List,
}
use surgepay.Gateway.Auth.{
  invalid_api_key, stopped, passes_as, authenticate, arrives, passes_public, is_lost, call_merchant,
  is_public, MerchantContext, use_auth,
}
use surgepay.Merchant.{
  find_active_key_with_merchant, ValidateMerchantResponse, Merchant, ApiKey,
  validate_merchant_api_key,
}
use surgepay.Gateway.Interceptor.{
  texts, number, text, HeaderValue, comma_joined, set_header, fails, replays, returns, end_request,
  begin_request, headers_to_cache,
}
use surgepay.Idempotency.Tests.{Store}
use surgepay.Idempotency.{get_redis_key, create_in_progress}
use surgepay.Idempotency.Locks.{run_operations}
use surgepay.Idempotency.Tests.{by_others, store-IsRedis, attempts, vacant, store}
use surgepay.Merchant.Laws.{UsableKey}
use surgepay.Gateway.Auth.Laws.{use_auth_sound, context_for}
use surgepay.Gateway.Interceptor.Replays.{begin_request-end_request}
use surgepay.Payment.{
  Store as Payments, answered, pending, after_fraud, after_order, find_by_reference, persist,
  new_event, new_payment, conclude, create_payment, Context,
}
use surgepay.Gateway.Payments.{
  accepted, forward_payment_request, validate_body, create, Forwarded, create_through_gateway,
  GatewayBody, Surroundings,
}
use surgepay.Gateway.Payments.Laws.{create_through_gateway-Adds, Adds}
use surgepay.Gateway.Interceptor.Cached.{cached_headers}

abbrev first_key : String
first_key = get_redis_key "m" "k"

acquired_first : (create_in_progress store 100 first_key "h" "o-1" 24 vacant).1 ≡ true
unfolding create_in_progress get_redis_key
acquired_first = refl

abbrev locked_store : Store
locked_store =
    run_operations store attempts (create_in_progress store 100 first_key "h" "o-1" 24 vacant).0

abbrev digits : Number → String
digits n = "15"

abbrev sent_headers : List (String × HeaderValue)
sent_headers =
    ("date", text "today")
    ∷ ("content-length", number (whole 15))
    ∷ ("vary", texts ("Origin" ∷ "Accept" ∷ []))
    ∷ []

headers_to_cache_test :
    headers_to_cache digits sent_headers
    ≡ field "content-length" (str "15") (field "vary" (str "Origin,Accept") end)
unfolding headers_to_cache comma_joined
headers_to_cache_test = refl

begin_request-end_request_example :
    (begin_request store 204 205 206 207 "m" "k" "h" "o-4" 24 (
      run_operations store attempts (
        end_request store digits 150 "m" "k" "h" "o-1" 24
          (returns 201 sent_headers none)
          locked_store))).1
    ≡ (if "h" == "h"
        then replays 201
            (set_header "Idempotency-Replayed" (str "true") (cached_headers digits sent_headers))
            (some (obj end))
        else fails 422)
begin_request-end_request_example =
    begin_request-end_request store store-IsRedis digits 100 150 204 205 206 207 "m" "k" "h" "o-1"
      "h" "o-4" 201 24 sent_headers none attempts attempts vacant acquired_first (omega arith)
      (omega arith) (by_others _ (omega arith)) (omega arith) (by_others _ (omega arith))
      (omega arith) (omega arith)

abbrev hash_of : String → String
hash_of key = key

abbrev acme : Merchant
acme = record { merchant_id = "m"; name = "Acme"; status = "ACTIVE"; metadata = none }

abbrev key_of_acme : ApiKey
key_of_acme = record {
  id = "1";
  api_key_hash = "secret";
  active = true;
  revoked_at = none;
  last_used_at = none;
  merchant = acme;
}

abbrev api_keys : List ApiKey
api_keys =
    record key_of_acme { id = "0"; api_key_hash = "old"; revoked_at = some 5 } ∷ key_of_acme ∷ []

abbrev acme_context : MerchantContext
acme_context = record { merchant_id = "m"; merchant_name = "Acme"; permissions = nil }

abbrev payments_url : String
payments_url = "/api/v1/payments"

passed_acme :
    use_auth (call_merchant hash_of api_keys arrives) payments_url (some "secret")
    ≡ passes_as acme_context
unfolding use_auth is_public call_merchant validate_merchant_api_key find_active_key_with_merchant
    find authenticate property
passed_acme = refl

revoked_test :
    use_auth (call_merchant hash_of api_keys arrives) payments_url (some "old")
    ≡ stopped invalid_api_key
unfolding use_auth is_public call_merchant validate_merchant_api_key find_active_key_with_merchant
    find authenticate property
revoked_test = refl

public_test :
    use_auth (call_merchant hash_of api_keys is_lost) "/api/v1/health/live?x=1" none ≡ passes_public
unfolding use_auth is_public
public_test = refl

use_auth_sound_example :
    (key : String) × (r : ValidateMerchantResponse) × (some "secret" ≡ some key)
    × UsableKey hash_of key api_keys r
    × (acme_context ≡ context_for r)
use_auth_sound_example =
    use_auth_sound hash_of api_keys arrives payments_url (some "secret") acme_context passed_acme

abbrev same : String → String
same t = t

abbrev any : Forwarded → Bool
any body = true

abbrev by_upi : GatewayBody
by_upi = record {
  amount = whole 500;
  currency = "INR";
  merchant_id = "m";
  reference = none;
  order_id = some "ref-1";
  payment_method = some "UPI";
}

abbrev of_acme : Context
of_acme = record { request_id = none; correlation_id = none; merchant_id = some "m" }

abbrev no_payments : Payments
no_payments = record { payments = []; outbox = [] }

abbrev surroundings : Surroundings
surroundings = record {
  payment_id = "p-1";
  event_id = "e-1";
  order = answered "o-1";
  fraud = answered (record { approved = true; risk_score = 12 });
  transaction_accepted = true;
  seen = no_payments;
  store = no_payments;
}

created_test :
    (create_through_gateway same any of_acme surroundings by_upi).0 ≡ accepted "p-1" pending
unfolding create_through_gateway create validate_body forward_payment_request create_payment
    conclude new_payment new_event persist find_by_reference find after_order after_fraud
created_test = refl

create_through_gateway-Adds_example :
    Adds "m" no_payments (create_through_gateway same any of_acme surroundings by_upi).1
create_through_gateway-Adds_example =
    create_through_gateway-Adds same any of_acme surroundings by_upi "m" refl
