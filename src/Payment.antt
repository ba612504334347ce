-- ===== src/Payment.antt =====
-- apps/payment-service/src: payment-state-machine.ts, payment.entity.ts, payment.repository.ts and
-- `createPayment` of payment.service.ts with its transaction over the payments and the outbox. The
-- two services it calls are seen as `Reply`: what the HTTP client resolves to or throws. The ids that
-- `randomUUID` draws, `trim` and the answer of the database are arguments. The trace headers and the
-- time stamps of a row are left out.
pub mod Machine
pub mod Laws
pub mod Checkout
pub mod Services
pub mod Status
pub mod Events
pub mod Tests
use surgepay.Messaging.Json.{Number}
use surgepay.Common.{
  [], ◌||◌, ◌∷◌, inl, false, ◌&&◌, inr, ◌++◌, ◌=ℕ◌, find, ◌==◌, if◌then◌else◌, true, ◌⊎◌, none,
  some, ℕ, Bool, List, Option, String,
}

pub data PaymentStatus : Type 0 where
  pending processing completed failed : PaymentStatus

abbrev pub allows : PaymentStatus → PaymentStatus → Bool
allows pending processing = true
allows processing completed = true
allows processing failed = true
allows _ _ = false

-- `PaymentStateMachine.transition`, `none` where it throws.
unfoldable pub transition : PaymentStatus → PaymentStatus → Option PaymentStatus
transition current attempted = if allows current attempted then some attempted else none

pub record Payment : Type 0 where
  pub id : String
  pub merchant_id : String
  pub amount : Number
  pub currency : String
  pub status : PaymentStatus
  pub reference : String
  pub request_id : String
  pub correlation_id : String
  pub causation_id : String
  pub created_by : String

-- The outbox row of a new payment, PENDING with no retry, and the fields of its payload.
pub record PaymentEvent : Type 0 where
  pub id : String
  pub aggregate_id : String
  pub event_type : String
  pub request_id : String
  pub correlation_id : String
  pub causation_id : String
  pub payment_id : String
  pub amount : Number
  pub currency : String
  pub merchant_id : String
  pub order_id : String
  pub payment_method : String

pub record Store : Type 0 where
  pub payments : List Payment
  pub outbox : List PaymentEvent

-- What a call of another service comes to; `downstream` carries the HTTP status.
pub data Reply {ℓ} (A : Type ℓ) : Type ℓ where
  answered : A → Reply A
  timed_out unavailable : Reply A
  downstream : ℕ → Reply A
  unexpected : Reply A

pub record FraudAnswer : Type 0 where
  pub approved : Bool
  pub risk_score : ℕ

pub data PaymentError : Type 0 where
  duplicate_reference : PaymentError
  order_timed_out order_unavailable order_not_found order_amount_mismatch : PaymentError
  order_already_paid order_failure order_unexpected : PaymentError
  fraud_rejected fraud_timed_out fraud_unavailable fraud_unexpected : PaymentError
  database_failure : PaymentError

pub data Outcome : Type 0 where
  created : Payment → Outcome
  thrown : PaymentError → Outcome

pub record Request : Type 0 where
  pub amount : Number
  pub currency : String
  pub reference : String
  pub payment_method : Option String

pub record Context : Type 0 where
  pub request_id : Option String
  pub correlation_id : Option String
  pub merchant_id : Option String

-- `value || fallback`
abbrev pub or_else : Option String → String → String
or_else none fallback = fallback
or_else (some s) fallback = if s == "" then fallback else s

abbrev pub has_reference : String → String → Payment → Bool
has_reference merchant ref p = p.merchant_id == merchant && p.reference == ref

unfoldable pub find_by_reference : List Payment → String → String → Option Payment
find_by_reference t merchant ref = find (has_reference merchant ref) t

-- The catch block of the order validation, by the status of a downstream response.
abbrev pub order_status_error : ℕ → PaymentError
order_status_error status =
    if (status =ℕ 404) || (status =ℕ 403)
    then order_not_found
    else if status =ℕ 422
    then order_amount_mismatch
    else if status =ℕ 409
    then order_already_paid
    else order_failure

abbrev pub fraud_status_error : ℕ → PaymentError
fraud_status_error status = if status =ℕ 403 then fraud_rejected else fraud_unavailable

-- The error of the order validation, or the order's id.
unfoldable pub after_order : Reply String → PaymentError ⊎ String
after_order (answered order_id) = inr order_id
after_order timed_out = inl order_timed_out
after_order unavailable = inl order_unavailable
after_order (downstream status) = inl (order_status_error status)
after_order unexpected = inl order_unexpected

unfoldable pub after_fraud : Reply FraudAnswer → Option PaymentError
after_fraud (answered a) = if a.approved then none else some fraud_rejected
after_fraud timed_out = some fraud_timed_out
after_fraud unavailable = some fraud_unavailable
after_fraud (downstream status) = some (fraud_status_error status)
after_fraud unexpected = some fraud_unexpected

-- The transaction: both rows or none. It fails on a reference that is taken by now, and where the
-- database does not accept it.
unfoldable pub persist : Bool → Payment → PaymentEvent → Store → Option Store
persist false p e s = none
persist true p e s = elim (find_by_reference s.payments p.merchant_id p.reference) [
  | some _ ↦ none
  | none ↦ some (record { payments = s.payments ++ p ∷ []; outbox = s.outbox ++ e ∷ [] })
]

-- `PaymentEntity.create`
unfoldable pub new_payment : (String → String) → String → Context → Request → String → Payment
new_payment trim drawn c r merchant = record {
  id = drawn;
  merchant_id = merchant;
  amount = r.amount;
  currency = r.currency;
  status = pending;
  reference = trim r.reference;
  request_id = or_else c.request_id "N/A";
  correlation_id = or_else c.correlation_id "N/A";
  causation_id = or_else c.request_id (or_else c.correlation_id "N/A");
  created_by = or_else c.merchant_id "MERCHANT";
}

-- `OutboxEventEntity.create` as `createPayment` calls it.
unfoldable pub new_event : String → Payment → String → Option String → PaymentEvent
new_event drawn p order method = record {
  id = drawn;
  aggregate_id = p.id;
  event_type = "PaymentInitiated";
  request_id = p.request_id;
  correlation_id = p.correlation_id;
  causation_id = p.causation_id;
  payment_id = p.id;
  amount = p.amount;
  currency = p.currency;
  merchant_id = p.merchant_id;
  order_id = order;
  payment_method = or_else method "card";
}

abbrev pub finish : Payment → Store → Option Store → Outcome × Store
finish p s none = (thrown database_failure, s)
finish p s (some after) = (created p, after)

module _ (trim : String → String) (payment_id event_id : String) where
  -- From the answers of the two services on; `s` is the state that the transaction meets.
  unfoldable pub conclude :
      Context
      → Request
      → String
      → PaymentError ⊎ String
      → Option PaymentError
      → Bool
      → Store
      → Outcome × Store
  conclude c r merchant (inl x) fraud accepted s = (thrown x, s)
  conclude c r merchant (inr order) (some x) accepted s = (thrown x, s)
  conclude c r merchant (inr order) none accepted s =
      let p = new_payment trim payment_id c r merchant in
      finish p s (persist accepted p (new_event event_id p order r.payment_method) s)

  -- `seen` is the state that the first look for the reference meets; the calls of the services come
  -- between it and the transaction.
  unfoldable pub create_payment :
      Context
      → Request
      → String
      → Reply String
      → Reply FraudAnswer
      → Bool
      → Store
      → Store
      → Outcome × Store
  create_payment c r merchant order fraud accepted seen s =
      elim (find_by_reference seen.payments merchant (trim r.reference)) [
        | some _ ↦ (thrown duplicate_reference, s)
        | none ↦ conclude c r merchant (after_order order) (after_fraud fraud) accepted s
      ]
