-- ===== src/Errors/Filter.antt =====
-- packages/common/src/logger/exception-logging.filter.ts: `catch`. The log lines are left out. `display`
-- is the text of a JSON value that is no text.
use surgepay.Common.{
  either_text, ℕ, String, Bool, Option, none, some, true, false, if◌then◌else◌, ◌==◌, ◌=ℕ◌, ◌||◌,
  ◌&&◌,
}
use surgepay.Messaging.Json.{Json, null, str, arr, obj, Fields, end, Items, nil, cons, property}
use surgepay.Errors.{
  Exception, base, http, plain, non_error, BaseError, HttpError, or_json, create_error_response,
}
use Prim.Native.String.{◌++◌}

-- The variables of `catch`.
pub record Verdict : Type 0 where
  pub status : ℕ
  pub code : String
  pub message : String
  pub validation_errors : Option Json
  pub metadata : Option Json

abbrev pub is_array : Option Json → Bool
is_array (some (arr vs)) = true
is_array _ = false

-- A value that is truthy and whose `typeof` is object.
abbrev pub object_only : Option Json → Option Json
object_only (some (arr vs)) = some (arr vs)
object_only (some (obj fs)) = some (obj fs)
object_only _ = none

abbrev pub array_only : Option Json → Option Json
array_only (some (arr vs)) = some (arr vs)
array_only _ = none

abbrev pub public_code : String → String
public_code code = if code == "FRAUD_REJECTED" then "PAYMENT_BLOCKED" else code

abbrev pub judge_base : BaseError → Verdict
judge_base e =
    let invalid = public_code e.code == "VALIDATION_FAILED" && is_array e.details in
    record {
      status = e.status;
      code = public_code e.code;
      message = e.message;
      validation_errors = if invalid then e.details else none;
      metadata = if invalid then none else object_only e.details;
    }

abbrev pub is_platform_code : String → Bool
is_platform_code s =
    s == "INVALID_API_KEY"
    || s == "MERCHANT_DISABLED"
    || s == "RATE_LIMIT_EXCEEDED"
    || s == "MISSING_IDEMPOTENCY_KEY"
    || s == "IDEMPOTENCY_CONFLICT"
    || s == "INVALID_REQUEST"
    || s == "VALIDATION_FAILED"
    || s == "INTERNAL_ERROR"
    || s == "PAYMENT_BLOCKED"

abbrev pub code_for_status : ℕ → String
code_for_status status =
    if status =ℕ 401
    then "INVALID_API_KEY"
    else if status =ℕ 403
    then "MERCHANT_DISABLED"
    else if status =ℕ 429
    then "RATE_LIMIT_EXCEEDED"
    else if status =ℕ 400
    then "INVALID_REQUEST"
    else if (status =ℕ 409) || (status =ℕ 422)
    then "IDEMPOTENCY_CONFLICT"
    else "INTERNAL_ERROR"

-- `rawError`: an object stands for its `code`.
abbrev pub inner_code : Option Json → Option Json
inner_code (some (obj fs)) = property "code" fs
inner_code (some (arr vs)) = none
inner_code other = other

abbrev pub code_of_message : ℕ → Option Json → String
code_of_message status (some (str s)) = if is_platform_code s then s else code_for_status status
code_of_message status _ = code_for_status status

-- The code of a text, and the message that it brings.
abbrev pub conflict_code : String → String
conflict_code s = if s == "REQUEST_ALREADY_IN_PROGRESS" then "IDEMPOTENCY_CONFLICT" else s

abbrev pub conflict_message : String → String → String
conflict_message s message =
    if s == "REQUEST_ALREADY_IN_PROGRESS"
    then "An identical request with this Idempotency-Key is already in progress"
    else message

abbrev pub code_from : ℕ → Option Json → Option Json → String
code_from status (some (str s)) message = conflict_code s
code_from status _ message = code_of_message status message

abbrev pub message_from : Option Json → String → String
message_from (some (str s)) message = conflict_message s message
message_from _ message = message

abbrev pub message_in : Option Json → Option Json
message_in (some (obj fs)) = property "message" fs
message_in _ = none

-- `extractedMessage`
abbrev pub extracted : Option Json → Option Json → Option Json
extracted error message = elim (message_in error) [ some (str s) ↦ some (str s) | _ ↦ message ]

module _ (display : Json → String) where
  abbrev pub item_text : Json → String
  item_text (str s) = s
  item_text null = ""
  item_text other = display other

  -- `join(', ')`
  unfoldable pub join_messages : Items → String
  join_messages nil = ""
  join_messages (cons v nil) = item_text v
  join_messages (cons v (cons w vs)) =
      let rest = join_messages (cons w vs) in item_text v ++ (", " ++ rest)

  abbrev pub final_message : Option Json → String → String
  final_message (some (str s)) message = s
  final_message (some (arr vs)) message = join_messages vs
  final_message _ message = message

  -- The branch of a body that is an object.
  unfoldable pub judge_object : ℕ → String → Fields → Verdict
  judge_object status message fs =
      let raw = inner_code (or_json (property "error" fs) (property "code" fs)) in
      record {
        status = status;
        code = code_from status raw (property "message" fs);
        message =
            final_message (extracted (property "error" fs) (property "message" fs))
              (message_from raw message);
        validation_errors = array_only (property "validationErrors" fs);
        metadata = object_only (property "metadata" fs);
      }

  abbrev pub internal : ℕ → String → Verdict
  internal status message = record {
    status = status;
    code = "INTERNAL_ERROR";
    message = message;
    validation_errors = none;
    metadata = none;
  }

  abbrev pub judge_body : ℕ → String → Json → Verdict
  judge_body status message (obj fs) = judge_object status message fs
  judge_body status message (arr vs) = judge_object status message end
  judge_body status message (str s) = internal status s
  judge_body status message _ = internal status message

  -- `responseData` takes the place of the body where there is one.
  abbrev pub body_of : HttpError → Json
  body_of e = elim (or_json e.response_data none) [ some data_ ↦ data_ | none ↦ e.body ]

  unfoldable pub judge : Exception → Verdict
  judge (base e) = judge_base e
  judge (http e) = judge_body e.status e.message (body_of e)
  judge (plain message) = internal 500 message
  judge non_error = internal 500 "Internal server error"

-- What the filter reads of the request and its context.
pub record Scene : Type 0 where
  pub timestamp : String
  pub path : String
  pub context_correlation_id : Option String
  pub context_request_id : Option String
  pub header_correlation_id : Option String
  pub header_request_id : Option String

pub record Response : Type 0 where
  pub status : ℕ
  pub body : Json

abbrev pub respond : Scene → Verdict → Response
respond at v = record {
  status = v.status;
  body = create_error_response (record {
    code = v.code;
    message = v.message;
    status = v.status;
    timestamp = at.timestamp;
    path = at.path;
    correlation_id = either_text at.context_correlation_id at.header_correlation_id;
    request_id = either_text at.context_request_id at.header_request_id;
    validation_errors = v.validation_errors;
    metadata = v.metadata;
  });
}

unfoldable pub catch : (Json → String) → Scene → Exception → Response
catch display at x = respond at (judge display x)
