-- ===== src/Messaging/Producer.antt =====
-- packages/common/src/messaging/producer.ts. The broker is seen by its answer to `send` and
-- `sendBatch`; what is handed to it is part of the result. Tracing, the headers and the metrics are
-- left out.
pub mod Batches
use surgepay.Messaging.Json.{Json, Buffer}
use surgepay.Messaging.Serializer.{
  Envelope, Decoded, SerializationError, ◌>>=◌, serialize, validate_envelope,
}
use surgepay.Common.{
  ◌++◌, if◌then◌else◌, ◌==◌, none, [], ◌∷◌, ◌∷◌, map, find, some, Bool, ℕ, List, String, Option,
}

-- `RecordMetadata` of KafkaJS; an absent offset is `none`.
pub record RecordMetadata : Type 0 where
  pub topic_name : String
  pub partition : ℕ
  pub offset : Option String

pub record BatchPublishItem : Type 0 where
  pub topic : String
  pub key : String
  pub event : Json

pub record Message : Type 0 where
  pub key : String
  pub value : Buffer

pub record TopicMessages : Type 0 where
  pub topic : String
  pub messages : List Message

-- How the broker answers: metadata, or a failure, which may be reported although it took the messages.
pub data Answer : Type 0 where
  acknowledged : List RecordMetadata → Answer
  failed : ℕ → Answer

pub data Sending {ℓ} (A : Type ℓ) : Type ℓ where
  sent : A → Sending A
  unserializable : SerializationError → Sending A
  send_failed : ℕ → Sending A

pub record Prepared : Type 0 where
  pub topic : String
  pub message : Message

-- `messagesByTopic`: topics in the order of their first message.
unfoldable pub add_message : Prepared → List TopicMessages → List TopicMessages
add_message p [] = record { topic = p.topic; messages = p.message ∷ [] } ∷ []
add_message p (g ∷ gs) =
    if g.topic == p.topic
    then record g { messages = g.messages ++ p.message ∷ [] } ∷ gs
    else g ∷ add_message p gs

unfoldable pub group_onto : List TopicMessages → List Prepared → List TopicMessages
group_onto gs [] = gs
group_onto gs (p ∷ ps) = group_onto (add_message p gs) ps

unfoldable pub messages_by_topic : List Prepared → List TopicMessages
messages_by_topic = group_onto []

-- The place of an event, as the result of `publishBatch` names it.
pub record Located : Type 0 where
  pub event_id : String
  pub partition : ℕ
  pub offset : String

abbrev pub has_topic : String → RecordMetadata → Bool
has_topic topic m = m.topic_name == topic

abbrev pub partition_of : Option RecordMetadata → ℕ
partition_of none = 0
partition_of (some m) = m.partition

abbrev pub offset_text : Option String → String
offset_text none = "0"
offset_text (some text) = text

abbrev pub offset_of : Option RecordMetadata → String
offset_of none = "0"
offset_of (some m) = offset_text m.offset

abbrev pub locate : List RecordMetadata → String → String → Located
locate metadata topic id = record {
  event_id = id;
  partition = partition_of (find (has_topic topic) metadata);
  offset = offset_of (find (has_topic topic) metadata);
}

-- An item whose event was serialized, with the event's id.
pub record Ready : Type 0 where
  pub event_id : String
  pub prepared : Prepared

abbrev pub locate_ready : List RecordMetadata → Ready → Located
locate_ready metadata x = locate metadata x.prepared.topic x.event_id

-- What the code makes of the broker's answer.
abbrev pub locate_all : List Ready → Answer → Sending (List Located)
locate_all xs (failed e) = send_failed e
locate_all xs (acknowledged metadata) = sent (map (locate_ready metadata) xs)

abbrev pub ready_with : BatchPublishItem → Envelope → Buffer → Ready
ready_with item e bytes = record {
  event_id = e.event_id;
  prepared = record { topic = item.topic; message = record { key = item.key; value = bytes } };
}

module _ (is_date : String → Bool) where
  -- `EventSerializer.serialize` and the `eventId` of the same object, which validation has read.
  unfoldable pub prepare : BatchPublishItem → Decoded Ready
  prepare item = do
    bytes ← serialize is_date item.event
    e ← validate_envelope is_date item.event
    Decoded.ok (ready_with item e bytes)

  -- The first loop of `publishBatch`, which the first event that does not serialize ends.
  unfoldable pub prepare_all : List BatchPublishItem → Decoded (List Ready)
  prepare_all [] = Decoded.ok []
  prepare_all (item ∷ items) = do x ← prepare item; xs ← prepare_all items; Decoded.ok (x ∷ xs)

  abbrev pub dispatch :
      (List TopicMessages → Answer)
      → Decoded (List Ready)
      → List TopicMessages × Sending (List Located)
  dispatch broker (Decoded.err x) = ([], unserializable x)
  dispatch broker (Decoded.ok xs) =
      let grouped = messages_by_topic (map (λ x. x.prepared) xs) in
      (grouped, locate_all xs (broker grouped))

  -- What is handed to the broker, nothing where an event does not serialize, and the result.
  unfoldable pub publish_batch :
      (List TopicMessages → Answer)
      → List BatchPublishItem
      → List TopicMessages × Sending (List Located)
  publish_batch broker items = dispatch broker (prepare_all items)

  abbrev pub after_send : Answer → Sending (List RecordMetadata)
  after_send (acknowledged metadata) = sent metadata
  after_send (failed e) = send_failed e

  abbrev pub send_one :
      (TopicMessages → Answer)
      → String
      → String
      → Decoded Buffer
      → List TopicMessages × Sending (List RecordMetadata)
  send_one broker topic key (Decoded.err x) = ([], unserializable x)
  send_one broker topic key (Decoded.ok bytes) =
      let message : TopicMessages = record {
        topic = topic;
        messages = record { key = key; value = bytes } ∷ [];
      } in
      (message ∷ [], after_send (broker message))

  unfoldable pub publish :
      (TopicMessages → Answer)
      → String
      → String
      → Json
      → List TopicMessages × Sending (List RecordMetadata)
  publish broker topic key event = send_one broker topic key (serialize is_date event)
