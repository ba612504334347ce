-- ===== src/Errors.antt =====
-- packages/common/src/errors, packages/common/src/response and packages/contracts/src/errors: the
-- exceptions that the services throw, and the body of an error response. `Errors.Filter` is the filter
-- that makes the one of the other. Causes and stack traces are left out.
pub mod Domain
pub mod Filter
use surgepay.Common.{
  ℕ, zero, suc, String, Bool, Option, none, some, true, false, not, if◌then◌else◌, ◌==◌,
}
use surgepay.Messaging.Json.{
  Json, null, bool, num, str, arr, obj, Fields, end, field, whole, nan, Number,
}

-- A subclass of BaseError, with the status, the code and the details that it is constructed with.
pub record BaseError : Type 0 where
  pub status : ℕ
  pub code : String
  pub message : String
  pub details : Option Json

-- The subclasses of HttpException that the code tells apart.
pub data HttpClass : Type 0 where
  request_timeout service_unavailable downstream_response other_class : HttpClass

-- `body` is `getResponse()`; `response_data` is the property of a downstream response.
pub record HttpError : Type 0 where
  pub class : HttpClass
  pub status : ℕ
  pub message : String
  pub body : Json
  pub response_data : Option Json

-- What a handler can throw.
pub data Exception : Type 0 where
  base : BaseError → Exception
  http : HttpError → Exception
  plain : String → Exception
  non_error : Exception

-- A value as a condition.
abbrev pub truthy_number : Number → Bool
truthy_number (whole zero) = false
truthy_number (whole (suc n)) = true
truthy_number nan = false
truthy_number _ = true

abbrev pub truthy : Json → Bool
truthy null = false
truthy (bool b) = b
truthy (num n) = truthy_number n
truthy (str s) = not (s == "")
truthy (arr vs) = true
truthy (obj fs) = true

-- `v || w`, where a missing value is `undefined`.
abbrev pub or_json : Option Json → Option Json → Option Json
or_json none w = w
or_json (some v) w = if truthy v then some v else w

-- The properties of a value whose `typeof` is object; an array has none of the names that are read.
abbrev pub fields_in : Json → Option Fields
fields_in (obj fs) = some fs
fields_in (arr vs) = some end
fields_in _ = none

-- An optional property: JSON does not write what is `undefined`.
abbrev pub optional : String → Option Json → Fields → Fields
optional name none rest = rest
optional name (some v) rest = field name v rest

abbrev pub text_of : Option String → Option Json
text_of none = none
text_of (some s) = some (str s)

pub record ErrorDetail : Type 0 where
  pub code : String
  pub message : String
  pub status : ℕ
  pub timestamp : String
  pub path : String
  pub correlation_id : Option String
  pub request_id : Option String
  pub validation_errors : Option Json
  pub metadata : Option Json

-- `createErrorResponse`, as JSON writes it.
unfoldable pub create_error_response : ErrorDetail → Json
create_error_response d = obj (
    field "success" (bool false) (
      field "error"
        (obj (
          field "code" (str d.code) (
            field "message" (str d.message) (
              field "status" (num (whole d.status)) (
                field "timestamp" (str d.timestamp) (
                  field "path" (str d.path) (
                    optional "correlationId" (text_of d.correlation_id) (
                      optional "requestId" (text_of d.request_id) (
                        optional "validationErrors" d.validation_errors
                          (optional "metadata" d.metadata end))))))))))
        end))
