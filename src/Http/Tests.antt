-- ===== src/Http/Tests.antt =====
-- Requests that fail twice and then succeed.
use surgepay.Errors.Domain
use surgepay.Http.{resolved, rejected, is_idempotent, attempts_loop, execute, Attempt}
use surgepay.Http.Laws.{each_of, is_transient}
use surgepay.Common.{
  true, ◌⊎◌, ◌&&◌, suc, none, Option, ◌≤◌, String, refl, some, ◌||◌, ◌≡◌, ltb, if◌then◌else◌, false,
  ℕ,
}
use surgepay.Errors.{base, http, Exception}
use surgepay.Http.Client.{
  attempt_of, translate_failure, accepted, downstream_exception, request, no_answer, Arrival,
  Target,
}
use surgepay.Errors.Filter.{conflict_code, catch, Scene, judge}
use surgepay.Messaging.Json.{whole, null, Json}
use surgepay.Http.Client.Laws.{request_lem, judge-catch}

abbrev answers : ℕ → Attempt
answers n = if ltb n 2 then rejected (some 503) else resolved 7

retries_test :
    (execute 3 "GET" false answers ≡ some (resolved 7, 3))
    × (execute 1 "GET" false answers ≡ some (rejected (some 503), 2))
unfolding execute attempts_loop
retries_test = (refl, refl)

abbrev no_name : ℕ → Option String
no_name status = none

abbrev no_text : ℕ → String
no_text n = "n"

abbrev json_text : Json → String
json_text data_ = "{}"

abbrev orders : Target
orders = record { service = "order-service"; method = "GET"; url = "/orders"; timeout = 2000 }

abbrev calls : ℕ → Arrival
calls n = if ltb n 2 then no_answer (some "ECONNRESET") "reset" else accepted 200 null

request_lem_example :
    (last : ℕ) × (last ≤ 3)
    × (request no_name no_text json_text 3 false orders calls
        ≡ some (translate_failure no_name no_text json_text orders (calls last), suc last))
    × (each_of (λ n. is_transient (attempt_of (calls n)) && (false || is_idempotent "GET")) 0 last
        ≡ true)
    × (((is_transient (attempt_of (calls last)) && (false || is_idempotent "GET")) ≡ false)
        ⊎ (last ≡ 3))
request_lem_example = request_lem no_name no_text json_text 3 false orders calls

abbrev scene : Scene
scene = record {
  timestamp = "2026-01-01T00:00:00Z";
  path = "/api/v1/payments";
  context_correlation_id = none;
  context_request_id = some "r-1";
  header_correlation_id = none;
  header_request_id = none;
}

abbrev rejection : Exception
rejection = base (Domain.fraud_rejected "m" (whole 500) "INR" 90 (some "UNSUPPORTED_CURRENCY"))

rejection_test : (catch json_text scene rejection).status ≡ 403
unfolding catch judge Domain.fraud_rejected
rejection_test = refl

judge-catch_example :
    judge json_text (
      http (
        downstream_exception no_name no_text json_text orders
          (catch json_text scene rejection).status
          (catch json_text scene rejection).body))
    ≡ record {
      status = (judge json_text rejection).status;
      code = conflict_code (judge json_text rejection).code;
      message = (judge json_text rejection).message;
      validation_errors = none;
      metadata = none;
    }
judge-catch_example = judge-catch no_name no_text json_text json_text scene orders rejection
