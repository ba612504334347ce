-- ===== src/Payment/Status.antt =====
-- The status of a stored payment: `transitionTo` of payment.entity.ts and `updateStatus` of
-- payment.repository.ts in apps/payment-service/src.
use surgepay.Common.{Bool, String, Option, none, some, List, find, update_where, ◌==◌}
use surgepay.Payment.{Payment, PaymentStatus, transition}

-- `none` where the state machine throws; the entity is left as it was.
unfoldable pub transition_to : PaymentStatus → Payment → Option Payment
transition_to status p = elim (transition p.status status) [
  | none ↦ none
  | some s ↦ some (record p { status = s })
]

abbrev pub is_payment : String → Payment → Bool
is_payment id p = p.id == id

-- `none` where there is no such row; the new status is not checked.
unfoldable pub update_status : String → PaymentStatus → List Payment → Option (List Payment)
update_status id status t = elim (find (is_payment id) t) [
  | none ↦ none
  | some p ↦ some (update_where (is_payment id) (λ r. record r { status = status }) t)
]
