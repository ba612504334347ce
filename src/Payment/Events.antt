-- ===== src/Payment/Events.antt =====
-- The event of a payment as a row of the outbox: `OutboxEventEntity.create` of
-- apps/payment-service/src/entities/outbox-event.entity.ts with the payload of `createPayment`, and
-- apps/payment-service/src/repositories/outbox.repository.ts over the table of Outbox.Repository. Trace
-- headers and the columns that the relay does not read are left out.
pub mod Arrival
pub mod Blank
pub mod Poison
pub mod Tests
use surgepay.Common.{
  ℕ, ◌+◌, String, Bool, Option, none, some, List, [], ◌∷◌, ◌++◌, ◌==◌, ◌||◌, if◌then◌else◌, find,
  take, keep, update_where,
}
use surgepay.Messaging.Json.{Json, num, str, obj, Fields, end, field, whole, written}
use surgepay.Outbox.Repository.{
  OutboxEvent, Outbox, pending, retrying, published, failed, status_eq, has_id, by_age,
}
use surgepay.Payment.{PaymentEvent}

-- `eventPayload`
abbrev pub event_payload : PaymentEvent → Json
event_payload e = obj (
    field "paymentId" (str e.payment_id) (
      field "amount" (num e.amount) (
        field "currency" (str e.currency) (
          field "merchantId" (str e.merchant_id) (
            field "orderId" (str e.order_id) (field "paymentMethod" (str e.payment_method) end))))))

-- The envelope, stamped with a time.
unfoldable pub envelope_json : String → PaymentEvent → Json
envelope_json timestamp e = obj (
    field "eventId" (str e.id) (
      field "eventType" (str e.event_type) (
        field "version" (num (whole 1)) (
          field "correlationId" (str e.correlation_id) (
            field "causationId" (str e.causation_id) (
              field "sagaId" (str e.correlation_id) (
                field "requestId" (str e.request_id)
                  (field "timestamp" (str timestamp) (field "payload" (event_payload e) end)))))))))

-- The row that `save` inserts; a JSON column holds what JSON writes of a value.
unfoldable pub row_of : ℕ → String → PaymentEvent → OutboxEvent
row_of now timestamp e = record {
  id = e.id;
  aggregate_id = e.aggregate_id;
  event_type = e.event_type;
  payload = written (envelope_json timestamp e);
  correlation_id = e.correlation_id;
  status = pending;
  created_at = now;
  published_at = none;
  retry_count = 0;
  partition = none;
  offset = none;
  last_attempt_at = none;
}

unfoldable pub save : ℕ → String → PaymentEvent → Outbox → Outbox
save now timestamp e t = t ++ row_of now timestamp e ∷ []

abbrev pub is_waiting : OutboxEvent → Bool
is_waiting r = status_eq r.status pending || status_eq r.status retrying

unfoldable pub find_pending : ℕ → Outbox → List OutboxEvent
find_pending limit t = take limit (by_age (keep is_waiting t))

-- An update by id throws where there is no such row.
abbrev pub update_by_id : String → (OutboxEvent → OutboxEvent) → Outbox → Option Outbox
update_by_id id f t = elim (find (has_id id) t) [
  | none ↦ none
  | some r ↦ some (update_where (has_id id) f t)
]

unfoldable pub mark_published : ℕ → String → Outbox → Option Outbox
mark_published now id t =
    update_by_id id (λ r. record r { status = published; published_at = some now }) t

unfoldable pub increment_retry : String → Outbox → Option Outbox
increment_retry id t =
    update_by_id id (λ r. record r { status = retrying; retry_count = r.retry_count + 1 }) t

unfoldable pub mark_failed : String → Outbox → Option Outbox
mark_failed id t = update_by_id id (λ r. record r { status = failed }) t
