-- ===== src/Gateway/Auth.antt =====
-- apps/gateway/src/auth: merchant-client.service.ts, merchant-auth.service.ts and auth.middleware.ts.
-- A call of the merchant service is seen by its outcome; `ServiceClient` is modelled in Http.
pub mod Laws
use Prim.Native.String.{len, slice}
use surgepay.Common.{true, false, some, none}
use text.Mathlib.Text.{find?}
use surgepay.Messaging.Json.{end, bool, arr, str, property, field, Items, obj, Json}
use surgepay.Merchant.{
  inactive_merchant, validate_merchant_api_key, invalid_key, ApiKey, missing_key, valid,
  ValidateMerchantResponse, KeyCheck,
}
use surgepay.Common.{
  includes, ◌==◌, ◌-◌, ◌&&◌, ◌=ℕ◌, leb, ◌||◌, Bool, if◌then◌else◌, List, String, ℕ, Option,
}

-- What the HTTP call of the merchant service ends with: data, the status of an error response, or no
-- response at all.
pub data Call : Type 0 where
  responds : Json → Call
  refuses : ℕ → Call
  no_response : Call

-- The statuses that the client throws, with their error codes.
pub data AuthError : Type 0 where
  missing_api_key invalid_api_key merchant_disabled merchant_service_unavailable : AuthError

abbrev pub status_of : AuthError → ℕ
status_of missing_api_key = 401
status_of invalid_api_key = 401
status_of merchant_disabled = 403
status_of merchant_service_unavailable = 503

pub record MerchantContext : Type 0 where
  pub merchant_id : String
  pub merchant_name : String
  pub permissions : Items

pub data Authenticated : Type 0 where
  as_merchant : MerchantContext → Authenticated
  refused : AuthError → Authenticated

-- The shape of the response that the client checks; `webhookEnabled` is only checked.
abbrev pub context_of : Option Json → Option Json → Option Json → Option Json → Authenticated
context_of (some (str id)) (some (str name)) (some (arr permissions)) (some (bool b)) =
    as_merchant (record { merchant_id = id; merchant_name = name; permissions = permissions })
context_of _ _ _ _ = refused merchant_service_unavailable

abbrev pub read_context : Json → Authenticated
read_context (obj fields) =
    context_of (property "merchantId" fields) (property "merchantName" fields)
      (property "permissions" fields) (property "webhookEnabled" fields)
read_context _ = refused merchant_service_unavailable

abbrev pub error_for : ℕ → AuthError
error_for status =
    if status =ℕ 401
    then invalid_api_key
    else if status =ℕ 403
    then merchant_disabled
    else merchant_service_unavailable

-- `validateApiKey` and `authenticate`.
unfoldable pub authenticate : Call → Authenticated
authenticate (responds data_) = read_context data_
authenticate (refuses status) = refused (error_for status)
authenticate no_response = refused merchant_service_unavailable

-- `endsWith`
abbrev pub ends_with : String → String → Bool
ends_with text part =
    leb (len part) (len text) && slice text (len text - len part) (len text) == part

-- `originalUrl.split('?')[0]`
abbrev pub without_query : String → String
without_query url = elim (find? url "?") [ none ↦ url | some at ↦ slice url 0 at ]

-- The health probes and the API documentation.
unfoldable pub is_public : String → Bool
is_public url =
    let path = without_query url in
    ends_with path "/health"
    || ends_with path "/health/live"
    || ends_with path "/health/ready"
    || includes path "/health/"
    || includes path "/swagger"

-- What the middleware passes on: the request as it is, or with a merchant attached.
pub data Passage : Type 0 where
  passes_public : Passage
  passes_as : MerchantContext → Passage
  stopped : AuthError → Passage

abbrev pub attach : Authenticated → Passage
attach (as_merchant context) = passes_as context
attach (refused x) = stopped x

abbrev pub by_header : (String → Call) → Option String → Passage
by_header call none = stopped missing_api_key
by_header call (some key) =
    if key == "" then stopped missing_api_key else attach (authenticate (call key))

-- `use`, with the call that the middleware makes for a key.
unfoldable pub use_auth : (String → Call) → String → Option String → Passage
use_auth call url header = if is_public url then passes_public else by_header call header

-- The merchant service's answer as its controller sends it.
abbrev pub to_json : ValidateMerchantResponse → Json
to_json r = obj (
    field "merchantId" (str r.merchant_id) (
      field "merchantName" (str r.merchant_name) (
        field "status" (str r.status) (
          field "permissions" (arr r.permissions)
            (field "webhookEnabled" (bool r.webhook_enabled) end)))))

abbrev pub respond : KeyCheck → Call
respond (valid r) = responds (to_json r)
respond missing_key = refuses 401
respond invalid_key = refuses 401
respond inactive_merchant = refuses 403

-- The call of the merchant service over a link: its own answer, the status of a fault on the way, or
-- nothing.
pub data Delivery : Type 0 where
  arrives : Delivery
  faults : ℕ → Delivery
  is_lost : Delivery

unfoldable pub call_merchant : (String → String) → List ApiKey → Delivery → String → Call
call_merchant hash_api_key keys arrives key =
    respond (validate_merchant_api_key hash_api_key key keys)
call_merchant hash_api_key keys (faults status) key = refuses status
call_merchant hash_api_key keys is_lost key = no_response
