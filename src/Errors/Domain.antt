-- ===== src/Errors/Domain.antt =====
-- The exceptions of packages/common/src/errors, as their constructors make them. The text of a number is
-- a parameter.
use surgepay.Common.{ℕ, String, Option, none, some, if◌then◌else◌, ◌==◌}
use surgepay.Messaging.Json.{Json, num, str, obj, Fields, end, field, whole, Number}
use surgepay.Errors.{BaseError, optional, text_of}
use Prim.Native.String.{◌++◌}

-- `DomainException`
abbrev pub domain_exception : ℕ → String → String → Fields → BaseError
domain_exception status code message metadata = record {
  status = status;
  code = code;
  message = message;
  details = some (obj metadata);
}

unfoldable pub order_not_found : String → BaseError
order_not_found ref =
    domain_exception 404 "ORDER_NOT_FOUND" ("Order with reference '" ++ (ref ++ "' not found."))
      (field "reference" (str ref) end)

unfoldable pub order_already_paid : String → BaseError
order_already_paid ref =
    domain_exception 409 "ORDER_ALREADY_PAID"
      ("Order with reference '" ++ (ref ++ "' is already paid.")) (field "reference" (str ref) end)

unfoldable pub merchant_ownership : String → String → BaseError
merchant_ownership ref merchant =
    domain_exception 403 "ORDER_MERCHANT_MISMATCH" "Merchant does not own this order"
      (field "reference" (str ref) (field "merchantId" (str merchant) end))

unfoldable pub order_currency_mismatch : String → String → String → BaseError
order_currency_mismatch ref expected requested =
    domain_exception 422 "ORDER_CURRENCY_MISMATCH"
      ("Currency mismatch: expected " ++ (expected ++ (", requested " ++ (requested ++ "."))))
      (field "reference" (str ref)
        (field "expectedCurrency" (str expected) (field "requestedCurrency" (str requested) end)))

unfoldable pub duplicate_payment_reference : String → String → BaseError
duplicate_payment_reference merchant ref =
    domain_exception 409 "DUPLICATE_PAYMENT_REFERENCE" "Payment reference already exists."
      (field "merchantId" (str merchant) (field "reference" (str ref) end))

unfoldable pub payment_not_found : String → BaseError
payment_not_found id =
    domain_exception 404 "PAYMENT_NOT_FOUND" ("Payment with ID " ++ (id ++ " not found."))
      (field "paymentId" (str id) end)

unfoldable pub payment_already_completed : String → BaseError
payment_already_completed id =
    domain_exception 409 "PAYMENT_ALREADY_COMPLETED"
      ("Payment with ID " ++ (id ++ " is already completed.")) (field "paymentId" (str id) end)

unfoldable pub invalid_payment_state_transition :
    String → String → String → Option String → BaseError
invalid_payment_state_transition id current attempted reason =
    domain_exception 422 "INVALID_PAYMENT_STATE_TRANSITION"
      ("Invalid payment state transition for payment "
        ++ (id
            ++ (": cannot transition from "
                ++ (current ++ (" to " ++ (attempted ++ ("." ++ because reason)))))))
      (field "paymentId" (str id) (
        field "currentStatus" (str current)
          (field "attemptedStatus" (str attempted) (optional "reason" (text_of reason) end))))
  where
    because : Option String → String
    because none = ""
    because (some why) = if why == "" then "" else " Reason: " ++ why

-- `errors` of a failed validation.
unfoldable pub payment_validation : String → Option Json → BaseError
payment_validation message errors =
    domain_exception 400 "PAYMENT_VALIDATION_FAILED" message (optional "errors" errors end)

unfoldable pub fraud_rejected : String → Number → String → ℕ → Option String → BaseError
fraud_rejected merchant amount currency risk_score reason =
    domain_exception 403 "FRAUD_REJECTED" "Payment rejected by fraud rules" (
      field "merchantId" (str merchant) (
        field "amount" (num amount) (
          field "currency" (str currency)
            (field "riskScore" (num (whole risk_score)) (optional "reason" (text_of reason) end)))))

module _ (number_text : Number → String) where
  unfoldable pub order_amount_mismatch : String → Number → Number → BaseError
  order_amount_mismatch ref expected requested =
      domain_exception 422 "ORDER_AMOUNT_MISMATCH"
        ("Amount mismatch: Order amount is "
          ++ (number_text expected ++ (", requested amount is " ++ (number_text requested ++ "."))))
        (field "reference" (str ref)
          (field "expectedAmount" (num expected) (field "requestedAmount" (num requested) end)))
