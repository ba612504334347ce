-- ===== src/Gateway/Refusals/Laws.antt =====
-- The statuses, codes and messages of the refusals.
use surgepay.Common.{ℕ, String, ◌==◌, false, Option, none, some, ◌≡◌, refl}
use surgepay.Messaging.Json.{arr, Json, property}
use surgepay.Errors.{create_error_response}
use surgepay.Errors.Filter.{Scene, Verdict, judge, judge_object, catch}
use surgepay.Gateway.Auth.{
  missing_api_key, invalid_api_key, merchant_disabled, merchant_service_unavailable,
}
use surgepay.Errors.Filter.{conflict_code}
use surgepay.Http.Client.{answered_error}
use surgepay.Gateway.Refusals.{
  by_validation, check_crashed, judged, Refusal, by_auth, by_rate_limit, missing_idempotency_key,
  idempotency_filter_error, by_check, check_unreachable, unable_to_acquire, key_reused,
  already_in_progress, refusal_verdict, auth_exception, check_exception, handle_axios_error,
}

abbrev answered_with : ℕ → String → String → Verdict
answered_with status code message = record {
  status = status;
  code = code;
  message = message;
  validation_errors = none;
  metadata = none;
}

-- What the client is told of each refusal.
abbrev pub told : Refusal → Verdict
told (by_auth missing_api_key) = answered_with 401 "INVALID_API_KEY" "Missing API key"
told (by_auth invalid_api_key) = answered_with 401 "INVALID_API_KEY" "Invalid API key"
told (by_auth merchant_disabled) =
    answered_with 403 "MERCHANT_DISABLED" "Merchant status is inactive"
told (by_auth merchant_service_unavailable) =
    answered_with 503 "INTERNAL_ERROR" "Merchant Service is unavailable"
told by_rate_limit = answered_with 429 "RATE_LIMIT_EXCEEDED" "Merchant rate limit exceeded."
told missing_idempotency_key =
    answered_with 400 "MISSING_IDEMPOTENCY_KEY" "Missing or empty Idempotency-Key header"
told idempotency_filter_error =
    answered_with 500 "IDEMPOTENCY_FILTER_ERROR" "Failed to process request idempotency"
told (by_check unable_to_acquire) =
    answered_with 500 "INTERNAL_SERVER_ERROR" "Unable to acquire idempotency lock"
told (by_check key_reused) =
    answered_with 422 "IDEMPOTENCY_CONFLICT" "IDEMPOTENCY_KEY_REUSED_WITH_DIFFERENT_REQUEST"
told (by_check already_in_progress) =
    answered_with 409 "IDEMPOTENCY_CONFLICT"
      "An identical request with this Idempotency-Key is already in progress"
told (check_crashed message) = answered_with 500 "INTERNAL_ERROR" message
told (by_validation errors) = record (answered_with 400 "VALIDATION_FAILED" "Validation failed") {
  validation_errors = some (arr errors);
}
told (check_unreachable message) = answered_with 500 "IDEMPOTENCY_SERVICE_ERROR" message

-- A failure of the idempotency service with neither validation errors nor metadata, relayed.
failure_relayed :
    (message_of display : Json → String) (status : ℕ) (code message timestamp path : String)
    (correlation request : Option String)
    → (code == "") ≡ false
    → judged message_of display (
        handle_axios_error message_of (
          answered_error status (
            create_error_response (record {
              code = code;
              message = message;
              status = status;
              timestamp = timestamp;
              path = path;
              correlation_id = correlation;
              request_id = request;
              validation_errors = none;
              metadata = none;
            }))))
      ≡ some (answered_with status (conflict_code code) message)
unfolding handle_axios_error judge judge_object property create_error_response
failure_relayed message_of display status code message timestamp path none none h = rw h refl
failure_relayed message_of display status code message timestamp path none (some r) h = rw h refl
failure_relayed message_of display status code message timestamp path (some c) none h = rw h refl
failure_relayed message_of display status code message timestamp path (some c) (some r) h =
    rw h refl

-- Each refusal of the authentication, the rate limit, the idempotency check and the validation of the body
-- answers with one status, code and message, whatever text NestJS gives to an exception and whatever the
-- request was. A reused key and a request in progress both get the code IDEMPOTENCY_CONFLICT, through the
-- filter of the idempotency service, the client and the filter of the gateway; a failure of its Redis
-- gets 500 with the text of the error, and a body that is refused 400 with what failed.
pub refusal_verdict_lem :
    (message_of display : Json → String) (at : Scene) (x : Refusal)
    → refusal_verdict message_of display at x ≡ some (told x)
unfolding refusal_verdict auth_exception check_exception handle_axios_error judge judge_object catch
    property
refusal_verdict_lem message_of display at (by_auth missing_api_key) = refl
refusal_verdict_lem message_of display at (by_auth invalid_api_key) = refl
refusal_verdict_lem message_of display at (by_auth merchant_disabled) = refl
refusal_verdict_lem message_of display at (by_auth merchant_service_unavailable) = refl
refusal_verdict_lem message_of display at by_rate_limit = refl
refusal_verdict_lem message_of display at missing_idempotency_key = refl
refusal_verdict_lem message_of display at idempotency_filter_error = refl
refusal_verdict_lem message_of display at (by_check unable_to_acquire) =
    failure_relayed message_of display _ _ _ at.timestamp at.path _ _ refl
refusal_verdict_lem message_of display at (by_check key_reused) =
    failure_relayed message_of display _ _ _ at.timestamp at.path _ _ refl
refusal_verdict_lem message_of display at (by_check already_in_progress) =
    failure_relayed message_of display _ _ _ at.timestamp at.path _ _ refl
refusal_verdict_lem message_of display at (check_crashed message) =
    failure_relayed message_of display _ _ _ at.timestamp at.path _ _ refl
refusal_verdict_lem message_of display at (by_validation errors) = refl
refusal_verdict_lem message_of display at (check_unreachable message) = refl
