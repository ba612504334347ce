-- ===== src/Outbox/Publisher.antt =====
-- apps/outbox-relay/src/publisher.ts: from outbox events to the producer, and from its places back
-- to the rows. The producer is `publish_batch` of Messaging/Producer. Of an exception
-- its class and the event and topic of its context are kept; trace headers are left out.
pub mod Places
-- `EnvelopeMismatchException`, or `OutboxPublicationException` with its event id and topic.
use surgepay.Outbox.Repository.{Metadata, OutboxEvent}
use surgepay.Messaging.Producer.{
  send_failed, unserializable, publish, offset_text, publish_batch, Answer, sent, RecordMetadata,
  TopicMessages, Sending, Located, BatchPublishItem,
}
use surgepay.Common.{
  map, none, find, true, ◌==◌, ℕ, some, false, [], Bool, ◌∷◌, Option, if◌then◌else◌, ◌∷◌, List,
  String,
}
use surgepay.Messaging.Json.{property, obj, arr, str, Json}
use surgepay.Messaging.Topics.{topic_of}

pub data PublicationError : Type 0 where
  envelope_mismatch : PublicationError
  outbox_publication : String → String → PublicationError

pub data Publication {ℓ} (A : Type ℓ) : Type ℓ where
  delivered : A → Publication A
  rejected : PublicationError → Publication A

-- `envelope && typeof envelope === 'object'`
abbrev pub is_object : Json → Bool
is_object (arr _) = true
is_object (obj _) = true
is_object _ = false

abbrev pub item_for : OutboxEvent → String → BatchPublishItem
item_for e topic = record { topic = topic; key = e.aggregate_id; event = e.payload }

abbrev pub item_at : OutboxEvent → Option String → Publication BatchPublishItem
item_at e none = rejected (outbox_publication e.id "")
item_at e (some topic) = delivered (item_for e topic)

unfoldable pub item_of : OutboxEvent → Publication BatchPublishItem
item_of e =
    if is_object e.payload then item_at e (topic_of e.event_type) else rejected envelope_mismatch

abbrev pub also :
    Publication BatchPublishItem
    → Publication (List BatchPublishItem)
    → Publication (List BatchPublishItem)
also (rejected x) rest = rejected x
also (delivered item) (rejected x) = rejected x
also (delivered item) (delivered items) = delivered (item ∷ items)

-- The map at the head of `publishBatch`, which the first unfit event ends.
unfoldable pub items_of : List OutboxEvent → Publication (List BatchPublishItem)
items_of [] = delivered []
items_of (e ∷ es) = also (item_of e) (items_of es)

abbrev pub event_id_is : String → Json → Bool
event_id_is key (str s) = s == key
event_id_is key _ = false

abbrev pub named : String → Option Json → Bool
named key none = false
named key (some j) = event_id_is key j

abbrev pub event_id_in : String → Json → Bool
event_id_in key (obj fields) = named key (property "eventId" fields)
event_id_in key _ = false

-- `envelope && envelope.eventId === meta.eventId`
abbrev pub carries : String → OutboxEvent → Bool
carries key e = event_id_in key e.payload

abbrev pub id_or : String → Option OutboxEvent → String
id_or key none = key
id_or key (some e) = e.id

unfoldable pub metadata_of : List OutboxEvent → Located → Metadata
metadata_of events place = record {
  id = id_or place.event_id (find (carries place.event_id) events);
  partition = place.partition;
  offset = place.offset;
}

-- The context of a failed batch names its first event.
abbrev pub batch_error : List OutboxEvent → List BatchPublishItem → PublicationError
batch_error (e ∷ _) (item ∷ _) = outbox_publication e.id item.topic
batch_error _ _ = outbox_publication "unknown" "unknown"

abbrev pub conclude_batch :
    List OutboxEvent → List BatchPublishItem → Sending (List Located) → Publication (List Metadata)
conclude_batch events items (sent places) = delivered (map (metadata_of events) places)
conclude_batch events items (unserializable _) = rejected (batch_error events items)
conclude_batch events items (send_failed _) = rejected (batch_error events items)

module _ (is_date : String → Bool) where
  abbrev pub send_items :
      (List TopicMessages → Answer)
      → List OutboxEvent
      → Publication (List BatchPublishItem)
      → List TopicMessages × Publication (List Metadata)
  send_items broker events (rejected x) = ([], rejected x)
  send_items broker events (delivered items) =
      let (messages, sending) = publish_batch is_date broker items in
      (messages, conclude_batch events items sending)

  -- `KafkaOutboxPublisher.publishBatch`: what the broker is handed, and the result.
  unfoldable pub publish_events :
      (List TopicMessages → Answer)
      → List OutboxEvent
      → List TopicMessages × Publication (List Metadata)
  publish_events broker events = send_items broker events (items_of events)
