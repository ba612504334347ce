-- ===== src/Gateway/Refusals/Tests.antt =====
-- The refusal of a request that is in progress.
use surgepay.Messaging.Json.{Json}
use surgepay.Errors.Filter.{Scene}
use surgepay.Gateway.Refusals.{already_in_progress, by_check, refusal_verdict}
use surgepay.Common.{◌≡◌, none, some, String}
use surgepay.Gateway.Refusals.Laws.{refusal_verdict_lem, told}

abbrev no_message : Json → String
no_message body = "Http Exception"

abbrev display : Json → String
display data_ = "{}"

abbrev scene : Scene
scene = record {
  timestamp = "2026-01-01T00:00:00Z";
  path = "/api/v1/internal/idempotency/check";
  context_correlation_id = some "c-1";
  context_request_id = none;
  header_correlation_id = none;
  header_request_id = some "r-1";
}

refusal_verdict_lem_example :
    refusal_verdict no_message display scene (by_check already_in_progress)
    ≡ some (told (by_check already_in_progress))
refusal_verdict_lem_example =
    refusal_verdict_lem no_message display scene (by_check already_in_progress)
