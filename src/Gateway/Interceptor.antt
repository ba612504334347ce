-- ===== src/Gateway/Interceptor.antt =====
-- apps/gateway/src/idempotency/idempotency.interceptor.ts, with idempotency-client.service.ts, over the
-- idempotency service of Idempotency. The key is the header after `trim`. The reply of the client's calls
-- is the service's own or an HTTP error; what the handler does is its outcome.
pub mod Replays
pub mod Cached
use surgepay.Errors.{truthy}
use Prim.Native.String
use surgepay.Messaging.Json.{null, Number, written, obj, Json, field, end, Fields, str}
use surgepay.Idempotency.Redis.{Commands}
use surgepay.Common.{
  List, [], ◌∷◌, ◌||◌, not, ◌=ℕ◌, none, false, ◌==◌, ltb, Bool, some, if◌then◌else◌, String, Option,
  ℕ,
}
use surgepay.Idempotency.{
  already_in_progress, key_reused, cleanup, unable_to_acquire, replay, complete, miss,
  get_redis_key, Response, check, answered, CheckPoint,
}

pub data Checked : Type 0 where
  missed : String → String → Checked
  hit : Option ℕ → Option Fields → Option Json → Checked
  check_failed : ℕ → Checked

-- The service's exceptions with their statuses; before the last command there is no answer.
abbrev pub checked_of : CheckPoint → Checked
checked_of (answered (miss owner hash)) = missed owner hash
checked_of (answered (replay status headers body)) = hit status headers body
checked_of (answered unable_to_acquire) = check_failed 500
checked_of (answered key_reused) = check_failed 422
checked_of (answered already_in_progress) = check_failed 409
checked_of _ = check_failed 500

-- `checkResult.statusCode || 200`
abbrev pub status_or_ok : Option ℕ → ℕ
status_or_ok none = 200
status_or_ok (some status) = if status =ℕ 0 then 200 else status

abbrev pub headers_or_none : Option Fields → Fields
headers_or_none none = end
headers_or_none (some headers) = headers

-- `setHeader` of the marker, which replaces a header of that name.
unfoldable pub set_header : String → Json → Fields → Fields
set_header name value end = field name value end
set_header name value (field k v rest) =
    let later = set_header name value rest in
    if k == name then field k value rest else field k v later

-- What the interceptor decides before the handler.
pub data Plan : Type 0 where
  missing_idempotency_key : Plan
  runs_unprotected : Plan
  replays : ℕ → Fields → Option Json → Plan
  runs : String → String → Plan
  fails : ℕ → Plan

abbrev pub plan_for : Checked → Plan
plan_for (missed owner hash) = runs owner hash
plan_for (hit status headers body) =
    replays (status_or_ok status)
      (set_header "Idempotency-Replayed" (str "true") (headers_or_none headers)) body
plan_for (check_failed status) = fails status

abbrev pub is_mutating : String → Bool
is_mutating method = method == "POST" || method == "PUT" || method == "PATCH" || method == "DELETE"

abbrev pub is_given : Option String → Bool
is_given none = false
is_given (some key) = not (key == "")

abbrev pub key_text : Option String → String
key_text none = ""
key_text (some key) = key

-- A value of `OutgoingHttpHeaders`.
pub data HeaderValue : Type 0 where
  text : String → HeaderValue
  number : Number → HeaderValue
  texts : List String → HeaderValue

-- The elements of an array as `String` joins them.
unfoldable pub comma_joined : List String → String
comma_joined [] = ""
comma_joined (s ∷ []) = s
comma_joined (s ∷ t ∷ ts) = let rest = comma_joined (t ∷ ts) in String.◌++◌ s (String.◌++◌ "," rest)

-- `String(value)`; `number_text` is the text of a number.
abbrev pub header_text : (Number → String) → HeaderValue → String
header_text number_text (text s) = s
header_text number_text (number n) = number_text n
header_text number_text (texts ss) = comma_joined ss

-- What the handler ends with; `res.statusCode` and the headers are those of the response.
pub data Handled : Type 0 where
  returns : ℕ → List (String × HeaderValue) → Option Json → Handled
  throws : ℕ → Handled

-- `getHeaders` names headers in lower case.
abbrev pub is_hop_by_hop : String → Bool
is_hop_by_hop name =
    name == "connection"
    || name == "keep-alive"
    || name == "transfer-encoding"
    || name == "date"
    || name == "x-powered-by"

unfoldable pub headers_to_cache : (Number → String) → List (String × HeaderValue) → Fields
headers_to_cache number_text [] = end
headers_to_cache number_text ((k, v) ∷ rest) =
    let kept = headers_to_cache number_text rest in
    if is_hop_by_hop k then kept else field k (str (header_text number_text v)) kept

-- `responseBody ?? {}`
abbrev pub body_or_empty : Option Json → Json
body_or_empty none = obj end
body_or_empty (some null) = obj end
body_or_empty (some body) = body

-- The payload of `complete`.
abbrev pub response_for :
    (Number → String) → ℕ → List (String × HeaderValue) → Option Json → Response
response_for number_text status headers body = record {
  status_code = status;
  headers = headers_to_cache number_text headers;
  body = body_or_empty body;
}

-- The controller of the idempotency service: the body arrives as JSON writes it, and `dto.body || {}`
-- goes on. Headers are an object of texts.
abbrev pub received : Response → Response
received r = record r { body = if truthy (written r.body) then written r.body else obj end }

module _ (redis : Commands) where
  -- The check of a request that carries a key and has a merchant.
  unfoldable pub begin_request :
      (at_1 at_2 at_3 at_4 : ℕ)
      → String
      → String
      → String
      → String
      → ℕ
      → redis.State
      → redis.State × Plan
  begin_request at_1 at_2 at_3 at_4 merchant_id idempotency_key hash owner ttl_hours s =
      let (t, point) =
        check redis at_1 at_2 at_3 at_4 (get_redis_key merchant_id idempotency_key) hash owner
          ttl_hours s in
      (t, plan_for (checked_of point))

  -- `intercept` before the handler.
  unfoldable pub intercept :
      (at_1 at_2 at_3 at_4 : ℕ)
      → String
      → Option String
      → Option String
      → String
      → String
      → ℕ
      → redis.State
      → redis.State × Plan
  intercept at_1 at_2 at_3 at_4 method header merchant hash owner ttl_hours s =
      if not (is_mutating method)
      then (s, runs_unprotected)
      else if not (is_given header)
      then (s, missing_idempotency_key)
      else elim merchant [
        | none ↦ (s, runs_unprotected)
        | some merchant_id ↦
            begin_request at_1 at_2 at_3 at_4 merchant_id (key_text header) hash owner ttl_hours s
      ]

  -- The call that follows the handler, where it reaches the service; its failure is only logged.
  unfoldable pub end_request :
      (Number → String)
      → ℕ
      → String
      → String
      → String
      → String
      → ℕ
      → Handled
      → redis.State
      → redis.State
  end_request number_text now merchant_id idempotency_key hash owner ttl_hours
        (returns status headers body) s =
      if ltb status 500
      then (complete redis now (get_redis_key merchant_id idempotency_key) owner hash
          (received (response_for number_text status headers body)) ttl_hours s).0
      else cleanup redis now (get_redis_key merchant_id idempotency_key) owner s
  end_request number_text now merchant_id idempotency_key hash owner ttl_hours (throws status) s =
      cleanup redis now (get_redis_key merchant_id idempotency_key) owner s
