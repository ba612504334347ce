-- ===== src/Messaging/Inbox.antt =====
-- packages/common/src/messaging/inbox.repository.ts, over the table `InboxEvent` of the order
-- service (apps/order-service/src/prisma/order.prisma). The table is a list of rows. The columns
-- that are copied from the envelope and never read back by the program (`payload`, `eventType`,
-- `correlationId`, `causationId`, `sagaId`, `timestamp`, `version`) are left out of the row.
pub mod Laws
pub mod Moves
use surgepay.Common.{
  ℕ, String, Bool, true, false, ◌&&◌, Option, none, some, List, [], ◌∷◌, ◌++◌, ltb, find, count,
  update_where, ◌==◌, if◌then◌else◌,
}

pub data InboxStatus : Type 0 where
  received processing processed failed retrying dlq_sent : InboxStatus

pub record InboxEvent : Type 0 where
  pub event_id : String
  pub consumer : String
  pub status : InboxStatus
  pub received_at : ℕ
  pub processed_at : Option ℕ
  pub retry_count : ℕ

abbrev pub Inbox : Type 0
Inbox = List InboxEvent

-- What a rejected call carries: Prisma's P2002 and P2025, the consumer's own exception, or another.
pub data Error : Type 0 where
  unique_constraint record_not_found in_progress : Error
  failure : ℕ → Error

pub data Result {ℓ} (A : Type ℓ) : Type ℓ where
  ok : A → Result A
  err : Error → Result A

abbrev pub status_eq : InboxStatus → InboxStatus → Bool
status_eq received received = true
status_eq processing processing = true
status_eq processed processed = true
status_eq failed failed = true
status_eq retrying retrying = true
status_eq dlq_sent dlq_sent = true
status_eq _ _ = false

-- `status: { in: statuses }`
abbrev pub is_in : InboxStatus → List InboxStatus → Bool
is_in s [] = false
is_in s (t ∷ ts) = if status_eq s t then true else is_in s ts

-- The where clause on the unique index `[consumer, eventId]`.
abbrev pub has_key : String → String → InboxEvent → Bool
has_key event_id consumer r = r.consumer == consumer && r.event_id == event_id

abbrev pub set_status : InboxStatus → InboxEvent → InboxEvent
set_status s r = record r { status = s }

unfoldable pub find_by_event_id_and_consumer : Inbox → String → String → Option InboxEvent
find_by_event_id_and_consumer t event_id consumer = find (has_key event_id consumer) t

abbrev pub new_event : ℕ → String → String → InboxEvent
new_event now id consumer_id = record {
  event_id = id;
  consumer = consumer_id;
  status = received;
  received_at = now;
  processed_at = none;
  retry_count = 0;
}

-- The unique index rejects a second row of the same key.
unfoldable pub record_received : ℕ → Inbox → String → String → Result Inbox
record_received now t event_id consumer = elim (find (has_key event_id consumer) t) [
  | none ↦ ok (t ++ new_event now event_id consumer ∷ [])
  | some _ ↦ err unique_constraint
]

-- The where clause of the `updateMany` of `transitionStatus` and `prepareForReplay`.
abbrev pub has_status : String → String → List InboxStatus → InboxEvent → Bool
has_status event_id consumer from r = has_key event_id consumer r && is_in r.status from

-- The `updateMany` of `transitionStatus`: the new table and `result.count`.
unfoldable pub transition_status :
    Inbox → String → String → List InboxStatus → InboxStatus → Inbox × ℕ
transition_status t event_id consumer from to =
    let matching = has_status event_id consumer from in
    (update_where matching (set_status to) t, count matching t)

abbrev pub or_keep : Option ℕ → ℕ → ℕ
or_keep none old = old
or_keep (some n) old = n

-- `processedAt: undefined` and `retryCount: undefined` leave the columns alone.
abbrev pub write_status : ℕ → InboxStatus → Option ℕ → InboxEvent → InboxEvent
write_status now s retry r = record r {
  status = s;
  processed_at = if status_eq s processed then some now else r.processed_at;
  retry_count = or_keep retry r.retry_count;
}

unfoldable pub update_status : ℕ → Inbox → String → String → InboxStatus → Option ℕ → Result Inbox
update_status now t event_id consumer s retry = elim (find (has_key event_id consumer) t) [
  | none ↦ err record_not_found
  | some _ ↦ ok (update_where (has_key event_id consumer) (write_status now s retry) t)
]

abbrev pub reset_for_replay : InboxEvent → InboxEvent
reset_for_replay r = record r { status = retrying; retry_count = 0 }

unfoldable pub prepare_for_replay : Inbox → String → String → Inbox × Bool
prepare_for_replay t event_id consumer =
    let matching = has_status event_id consumer (dlq_sent ∷ []) in
    (update_where matching reset_for_replay t, ltb 0 (count matching t))

unfoldable pub count_dlq_depth : Inbox → String → ℕ
count_dlq_depth t consumer = count (λ r. r.consumer == consumer && status_eq r.status dlq_sent) t
