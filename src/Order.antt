-- ===== src/Order.antt =====
-- apps/order-service/src: order.service.ts, order.repository.ts and order.entity.ts. An amount of a
-- request is a JavaScript number, that of a stored order an `Int` column, which is taken to hold no
-- negative number. `String.prototype.toUpperCase` is a parameter.
pub mod Laws
pub mod Tests
use surgepay.Messaging.Json.{Number}
use surgepay.Messaging.Serializer.{is_equal}
use surgepay.Common.{
  update_where, [], ◌∷◌, ◌&&◌, ◌++◌, none, not, ◌==◌, find, Bool, some, if◌then◌else◌, String, ℕ,
  List, Option,
}

pub data OrderStatus : Type 0 where
  created paid cancelled refunded : OrderStatus

pub record Order : Type 0 where
  pub id : String
  pub merchant_id : String
  pub amount : ℕ
  pub currency : String
  pub status : OrderStatus
  pub reference : String

-- The exceptions of `validateOrder`.
pub data OrderError : Type 0 where
  merchant_ownership order_not_found amount_mismatch currency_mismatch : OrderError
  order_cancelled order_refunded order_already_paid : OrderError

pub data Validation : Type 0 where
  valid : Order → Validation
  invalid : OrderError → Validation

-- The HTTP status that each exception is constructed with.
unfoldable pub status_code : OrderError → ℕ
status_code merchant_ownership = 403
status_code order_not_found = 404
status_code amount_mismatch = 422
status_code currency_mismatch = 422
status_code _ = 409

abbrev pub owned_by : String → String → Order → Bool
owned_by merchant ref o = o.merchant_id == merchant && o.reference == ref

unfoldable pub find_by_merchant_and_reference : List Order → String → String → Option Order
find_by_merchant_and_reference t merchant ref = find (owned_by merchant ref) t

unfoldable pub find_by_reference_only : List Order → String → Option Order
find_by_reference_only t ref = find (λ o. o.reference == ref) t

abbrev pub judge_status : Order → OrderStatus → Validation
judge_status o created = valid o
judge_status o cancelled = invalid order_cancelled
judge_status o refunded = invalid order_refunded
judge_status o paid = invalid order_already_paid

abbrev pub judge_missing : Option Order → Validation
judge_missing none = invalid order_not_found
judge_missing (some o) = invalid merchant_ownership

module _ (to_upper : String → String) where
  abbrev pub judge_order : String → Number → String → Order → Validation
  judge_order merchant requested unit o =
      if not (o.merchant_id == merchant)
      then invalid merchant_ownership
      else if not (is_equal requested o.amount)
      then invalid amount_mismatch
      else if not (to_upper o.currency == to_upper unit)
      then invalid currency_mismatch
      else judge_status o o.status

  unfoldable pub validate_order : List Order → String → String → Number → String → Validation
  validate_order t merchant ref requested unit =
      elim (find_by_merchant_and_reference t merchant ref) [
        | none ↦ judge_missing (find_by_reference_only t ref)
        | some o ↦ judge_order merchant requested unit o
      ]

-- `OrderEntity.transitionTo`, `none` where it throws.
unfoldable pub transition_to : OrderStatus → OrderStatus → Option OrderStatus
transition_to created created = some created
transition_to created paid = some paid
transition_to created cancelled = some cancelled
transition_to created refunded = none
transition_to paid paid = some paid
transition_to paid refunded = some refunded
transition_to paid _ = none
transition_to cancelled cancelled = some cancelled
transition_to cancelled _ = none
transition_to refunded refunded = some refunded
transition_to refunded _ = none

-- `createOrder`, `none` for the conflict; the id is the one that `randomUUID` draws.
unfoldable pub create_order :
    String → List Order → String → ℕ → String → String → Option (List Order)
create_order drawn t merchant price unit ref =
    elim (find_by_merchant_and_reference t merchant ref) [
      | some _ ↦ none
      | none ↦ some (
          t
          ++ record {
            id = drawn;
            merchant_id = merchant;
            amount = price;
            currency = unit;
            status = created;
            reference = ref;
          }
            ∷ [])
    ]

-- `OrderRepository.findById` and `getOrder`.
unfoldable pub find_by_id : List Order → String → Option Order
find_by_id t id = find (λ o. o.id == id) t

-- `OrderRepository.updateStatus`, `none` where there is no such row.
unfoldable pub update_status : List Order → String → OrderStatus → Option (List Order)
update_status t id status = elim (find_by_id t id) [
  | none ↦ none
  | some o ↦ some (update_where (λ r. r.id == id) (λ r. record r { status = status }) t)
]
