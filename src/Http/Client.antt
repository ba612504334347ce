-- ===== src/Http/Client.antt =====
-- packages/common/http/src: http-client.ts, interceptors/response.interceptor.ts and errors/index.ts. What
-- axios comes to is an `Arrival`; the agents, the log lines and the times are left out. The names of
-- HTTP statuses, the text of a number and the JSON text of a value are parameters.
pub mod Laws
use surgepay.Common.{
  includes, ℕ, ◌-◌, String, Bool, Option, none, some, true, false, if◌then◌else◌, ◌==◌, ◌||◌, ◌&&◌,
  leb, ltb, ◌⊎◌, inl, inr,
}
use surgepay.Messaging.Json.{Json, num, str, obj, Fields, end, field, whole}
use surgepay.Errors.{
  Exception, http, HttpClass, request_timeout, service_unavailable, downstream_response, HttpError,
}
use surgepay.Errors.Filter.{Response}
use surgepay.Http.{Attempt, resolved, rejected, execute}
use Prim.Native.String.{◌++◌}
use mathlib.Core.Option

-- How a call of axios ends: with a response that it accepts, or with an error that carries a response,
-- a request without one (with its code and message), or neither; or with another error.
pub data Arrival : Type 0 where
  accepted : ℕ → Json → Arrival
  answered_error : ℕ → Json → Arrival
  no_answer : Option String → String → Arrival
  setup_error : String → Arrival
  other_error : String → Arrival

-- What the retry policy sees of it.
abbrev pub attempt_of : Arrival → Attempt
attempt_of (accepted status data_) = resolved status
attempt_of (answered_error status data_) = rejected (some status)
attempt_of _ = rejected none

-- axios accepts the statuses from 200 to 299.
abbrev pub is_success : ℕ → Bool
is_success status = leb 200 status && ltb status 300

abbrev pub arrival_of : Response → Arrival
arrival_of r =
    if is_success r.status then accepted r.status r.body else answered_error r.status r.body

pub record Target : Type 0 where
  pub service : String
  pub method : String
  pub url : String
  pub timeout : ℕ

abbrev pub name_or : Option String → String → String
name_or none other = other
name_or (some s) other = if s == "" then other else s

-- `code === 'ETIMEDOUT' || code === 'ECONNABORTED' || message.includes('timeout')`
abbrev pub is_code : Option String → String → Bool
is_code none s = false
is_code (some code) s = code == s

abbrev pub is_timeout : Option String → String → Bool
is_timeout code message =
    is_code code "ETIMEDOUT" || is_code code "ECONNABORTED" || includes message "timeout"

module _ (status_name : ℕ → Option String) (number_text : ℕ → String)
    (json_text : Json → String) where
  -- `InternalServiceException`
  abbrev pub internal_service_exception : HttpClass → String → ℕ → Fields → Option Json → HttpError
  internal_service_exception class message status details response_data = record {
    class = class;
    status = status;
    message = message;
    body = obj (
        field "statusCode" (num (whole status)) (
          field "message" (str message) (
            field "error" (str (name_or (status_name status) "InternalServiceError"))
              (field "details" (obj details) end))));
    response_data = response_data;
  }

  abbrev pub details_of : Target → String → Fields → Fields
  details_of t original rest = field "service" (str t.service) (
      field "method" (str t.method)
        (field "url" (str t.url) (field "originalError" (str original) rest)))

  abbrev pub unavailable_exception : Target → String → String → HttpError
  unavailable_exception t message original =
      internal_service_exception service_unavailable message 503 (details_of t original end) none

  abbrev pub timeout_exception : Target → String → HttpError
  timeout_exception t original =
      internal_service_exception request_timeout
        ("Request to [" ++ (t.service ++ ("] timed out after " ++ (number_text t.timeout ++ "ms"))))
        504 (details_of t original end) none

  abbrev pub text_of_data : Json → String
  text_of_data (str s) = s
  text_of_data data_ = json_text data_

  abbrev pub downstream_exception : Target → ℕ → Json → HttpError
  downstream_exception t status data_ =
      internal_service_exception downstream_response
        ("Downstream service [" ++ (t.service ++ ("] returned status code " ++ number_text status)))
        status (details_of t (text_of_data data_) (field "statusCode" (num (whole status)) end))
        (some data_)

  -- `translateAndLogFailure`
  unfoldable pub translate_failure : Target → Arrival → Json ⊎ HttpError
  translate_failure t (accepted status data_) = inl data_
  translate_failure t (answered_error status data_) = inr (downstream_exception t status data_)
  translate_failure t (no_answer code message) = inr (
      if is_timeout code message
      then timeout_exception t message
      else unavailable_exception t
          ("Service ["
            ++ (t.service
                ++ ("] is unavailable (network error: " ++ (name_or code "UNKNOWN" ++ ")"))))
          message)
  translate_failure t (setup_error message) = inr (
      unavailable_exception t ("Request setup error to [" ++ (t.service ++ ("]: " ++ message)))
        message)
  translate_failure t (other_error message) =
      inr (
        unavailable_exception t ("Request error to [" ++ (t.service ++ ("]: " ++ message))) message)

  -- `request`: the loop of the retry policy keeps the answer of its last call. The result comes with the
  -- number of calls.
  abbrev pub settle : Target → (ℕ → Arrival) → Attempt × ℕ → (Json ⊎ HttpError) × ℕ
  settle t calls (kept, count) = (translate_failure t (calls (count - 1)), count)

  unfoldable pub request : ℕ → Bool → Target → (ℕ → Arrival) → Option ((Json ⊎ HttpError) × ℕ)
  request max_attempts force_retry t calls =
      Option.map (settle t calls)
        (execute max_attempts t.method force_retry (λ n. attempt_of (calls n)))
