-- ===== src/Gateway/Refusals.antt =====
-- What a client of the gateway is answered where a request does not reach its handler: the exceptions of
-- apps/gateway/src/auth, rate-limit and idempotency, those of the idempotency service behind
-- idempotency-client.service.ts, also where its Redis fails, AppValidationPipe of
-- packages/common/src/validation, and the filter. `message_of` is the message that NestJS gives to an
-- HttpException by its body.
pub mod Laws
pub mod Tests
use surgepay.Common.{ℕ, String, Bool, true, false, Option, none, some, ◌&&◌, if◌then◌else◌}
use surgepay.Messaging.Json.{
  Items, Json, null, bool, num, str, arr, obj, Fields, end, field, property,
}
use surgepay.Errors.{
  BaseError, base, Exception, http, plain, HttpError, other_class, truthy, optional,
}
use surgepay.Errors.Filter.{Scene, Verdict, judge, catch}
use surgepay.Http.Client.{
  Arrival, accepted, answered_error, no_answer, setup_error, other_error, arrival_of,
}
use surgepay.Gateway.Auth.{
  AuthError, missing_api_key, invalid_api_key, merchant_disabled, merchant_service_unavailable,
  status_of,
}

-- The failures of `check` in the idempotency service.
pub data CheckFailure : Type 0 where
  unable_to_acquire key_reused already_in_progress : CheckFailure

pub data Refusal : Type 0 where
  by_auth : AuthError → Refusal
  by_rate_limit missing_idempotency_key idempotency_filter_error : Refusal
  by_check : CheckFailure → Refusal
  check_crashed : String → Refusal
  by_validation : Items → Refusal
  check_unreachable : String → Refusal

abbrev pub body_with : String → String → Json
body_with code message = obj (field "error" (str code) (field "message" (str message) end))

-- `ValidationError` as `AppValidationPipe` throws it, with the details of what failed.
abbrev pub validation_exception : Items → BaseError
validation_exception errors = record {
  status = 400;
  code = "VALIDATION_FAILED";
  message = "Validation failed";
  details = some (arr errors);
}

module _ (message_of : Json → String) where
  -- `new HttpException(body, status)`
  abbrev pub http_exception : ℕ → Json → HttpError
  http_exception status body = record {
    class = other_class;
    status = status;
    message = message_of body;
    body = body;
    response_data = none;
  }

  unfoldable pub auth_exception : AuthError → HttpError
  auth_exception missing_api_key =
      http_exception 401 (body_with "INVALID_API_KEY" "Missing API key")
  auth_exception invalid_api_key =
      http_exception 401 (body_with "INVALID_API_KEY" "Invalid API key")
  auth_exception merchant_disabled =
      http_exception 403 (body_with "MERCHANT_DISABLED" "Merchant status is inactive")
  auth_exception merchant_service_unavailable =
      http_exception 503 (str "Merchant Service is unavailable")

  -- What the idempotency service throws.
  unfoldable pub check_exception : CheckFailure → HttpError
  check_exception unable_to_acquire =
      http_exception 500 (body_with "INTERNAL_SERVER_ERROR" "Unable to acquire idempotency lock")
  check_exception key_reused =
      http_exception 422
        (body_with "IDEMPOTENCY_CONFLICT" "IDEMPOTENCY_KEY_REUSED_WITH_DIFFERENT_REQUEST")
  check_exception already_in_progress =
      http_exception 409 (obj (field "error" (str "REQUEST_ALREADY_IN_PROGRESS") end))

  abbrev pub is_false : Option Json → Bool
  is_false (some (bool false)) = true
  is_false _ = false

  abbrev pub inner_body : Fields → Json
  inner_body e = obj (
      optional "error" (property "code" e)
        (optional "message" (property "message" e) (optional "details" (property "details" e) end)))

  -- `responseData.error`, where it is an object.
  abbrev pub error_body : Json → Fields → Option Json → Json
  error_body data_ fs (some (obj e)) =
      if is_false (property "success" fs) then inner_body e else data_
  error_body data_ fs (some (arr vs)) = if is_false (property "success" fs) then obj end else data_
  error_body data_ fs _ = data_

  abbrev pub relayed_body : Json → Json
  relayed_body (obj fs) = error_body (obj fs) fs (property "error" fs)
  relayed_body data_ = data_

  abbrev pub service_error : ℕ → String → HttpError
  service_error status message =
      http_exception status (body_with "IDEMPOTENCY_SERVICE_ERROR" message)

  -- `handleAxiosError` of a failed check; an accepted call throws nothing.
  unfoldable pub handle_axios_error : Arrival → Option HttpError
  handle_axios_error (accepted status data_) = none
  handle_axios_error (answered_error status data_) = some (
      if truthy data_
      then http_exception status (relayed_body data_)
      else service_error status "Idempotency Service error during check")
  handle_axios_error (no_answer code message) = some (service_error 500 message)
  handle_axios_error (setup_error message) = some (service_error 500 message)
  handle_axios_error (other_error message) = some (service_error 500 message)

  module _ (display : Json → String) where
    abbrev pub judged : Option HttpError → Option Verdict
    judged none = none
    judged (some e) = some (judge display (http e))

    -- What the client is told; `at` is the request as the idempotency service sees it.
    unfoldable pub refusal_verdict : Scene → Refusal → Option Verdict
    refusal_verdict at (by_auth x) = judged (some (auth_exception x))
    refusal_verdict at by_rate_limit = judged (
        some (http_exception 429 (body_with "RATE_LIMIT_EXCEEDED" "Merchant rate limit exceeded.")))
    refusal_verdict at missing_idempotency_key = judged (
        some (
          http_exception 400
            (body_with "MISSING_IDEMPOTENCY_KEY" "Missing or empty Idempotency-Key header")))
    refusal_verdict at idempotency_filter_error = judged (
        some (
          http_exception 500
            (body_with "IDEMPOTENCY_FILTER_ERROR" "Failed to process request idempotency")))
    refusal_verdict at (by_check x) =
        judged (handle_axios_error (arrival_of (catch display at (http (check_exception x)))))
    refusal_verdict at (check_crashed message) =
        judged (handle_axios_error (arrival_of (catch display at (plain message))))
    refusal_verdict at (by_validation errors) =
        some (judge display (base (validation_exception errors)))
    refusal_verdict at (check_unreachable message) =
        judged (handle_axios_error (no_answer none message))
