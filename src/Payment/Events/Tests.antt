-- ===== src/Payment/Events/Tests.antt =====
-- The event of one payment, and one of a client whose correlation id is a no-break space.
use surgepay.Payment.{new_event, PaymentEvent, Context, new_payment, Request}
use surgepay.Messaging.Serializer.{Registry}
use surgepay.Outbox.Repository.{insert_by_age, by_age, Outbox}
use surgepay.Common.{
  All, keep, true, ◌++◌, refl, ◌≡◌, map, find, ◌==◌, [], Bool, some, none, ◌∷◌, List, String,
}
use surgepay.Payment.Events.{row_of, save, find_pending, mark_failed}
use surgepay.Context.{header, Headers}
use surgepay.Messaging.Producer.{acknowledged, Answer, TopicMessages}
use surgepay.Messaging.Json.{Buffer, whole, is_blank}
use surgepay.Payment.Events.Arrival.{new_event-Arrives, Creation, IsComplete, ReadsBack, row_for}
use surgepay.Outbox.Publisher.{publish_events}
use surgepay.Payment.Events.Poison.{blank_header_fails_batch, event_for}
use surgepay.Context.Tests.{wire, arrive, no_trace}
use surgepay.Outbox.Publisher.Places.{is_rejected}
use surgepay.Context.Hops.{is_sendable}

abbrev is_date : String → Bool
is_date s = s == "2026-01-01T00:00:00Z"

abbrev no_upgrade : Registry
no_upgrade kind version = none

abbrev same : String → String
same s = s

abbrev request_body : Request
request_body = record {
  amount = whole 500;
  currency = "INR";
  reference = "ref-1";
  payment_method = none;
}

abbrev with_ids : Context
with_ids = record { request_id = some "r-1"; correlation_id = some "c-1"; merchant_id = some "m" }

abbrev event_of : Context → PaymentEvent
event_of c = new_event "e-1" (new_payment same "p-1" c request_body "m") "o-1" none

abbrev accepting : List TopicMessages → Answer
accepting messages = acknowledged []

abbrev creation : String → String → Creation
creation payment event = record {
  created_at = 7;
  timestamp = "2026-01-01T00:00:00Z";
  payment_id = payment;
  event_id = event;
  context = with_ids;
  request = request_body;
  merchant = "m";
  order = "o-1";
}

complete : (payment : String) → IsComplete is_date (creation payment "e-1")
unfolding is_blank
complete payment = record {
  event_id = refl;
  correlation_id = refl;
  causation_id = refl;
  stamp = refl;
  date = refl;
}

new_event-Arrives_example :
    (value : Creation → Buffer) × ((publish_events is_date accepting
        (map (row_for same) (creation "p-1" "e-1" ∷ creation "p-2" "e-1" ∷ []))).0
      ≡ record {
        topic = "payments.initiated";
        messages =
            map
              (λ y. record { key = y.payment_id; value = value y })
              (creation "p-1" "e-1" ∷ creation "p-2" "e-1" ∷ []);
      }
        ∷ [])
    × All
        (ReadsBack same is_date no_upgrade 0 value)
        (creation "p-1" "e-1" ∷ creation "p-2" "e-1" ∷ [])
new_event-Arrives_example =
    new_event-Arrives same is_date no_upgrade 0 accepting (creation "p-1" "e-1")
      (creation "p-2" "e-1" ∷ []) (complete "p-1", (complete "p-2", tt))

-- The rows that wait, the oldest first, and an update by a missing id.
abbrev rows : Outbox
rows = save 9 "t" (event_of with_ids) (save 7 "t" (record (event_of with_ids) { id = "e-0" }) [])

find_pending_test : map (λ r. r.id) (find_pending 1 rows) ≡ "e-0" ∷ []
unfolding find_pending save row_of new_event by_age keep insert_by_age
find_pending_test = refl

mark_failed_test : mark_failed "e-9" rows ≡ none
unfolding mark_failed save row_of new_event find
mark_failed_test = refl

abbrev blank_header : Headers
blank_header = ("x-correlation-id", "\u{a0}") ∷ []

blank_header_fails_batch_example :
    let row = row_of 7 "2026-01-01T00:00:00Z" (
      event_for no_trace arrive
        (("r", "c") ∷ [])
        ("r-0", "c-0")
        blank_header
        same
        "p-1"
        "e-1"
        request_body
        "m"
        "o-1") in
    ((publish_events is_date accepting ([] ++ row ∷ [])).0 ≡ [])
    × (is_rejected (publish_events is_date accepting ([] ++ row ∷ [])).1 ≡ true)
unfolding header is_blank is_sendable
blank_header_fails_batch_example =
    blank_header_fails_batch no_trace arrive wire (("r", "c") ∷ []) ("r-0", "c-0") blank_header
      "\u{a0}" same "p-1" "e-1" request_body "m" "o-1" is_date "2026-01-01T00:00:00Z" accepting []
      [] 7 refl refl refl refl
