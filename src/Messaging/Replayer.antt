-- ===== src/Messaging/Replayer.antt =====
-- packages/common/src/messaging/dead-letter.replayer.ts. The record is what an operator hands in, so
-- its event is an object of unknown shape, or missing; error messages are left out.
pub mod Laws
use surgepay.Common.{none, [], some, Option, ℕ, List, Bool, String}
use surgepay.Messaging.Producer.{
  send_failed, publish, unserializable, Answer, sent, TopicMessages, RecordMetadata, Sending,
}
use surgepay.Messaging.Serializer.{
  err, deserialize, to_fields, ok, serialize, Envelope, Decoded, Registry,
}
use surgepay.Messaging.Json.{obj, Buffer, Json}
use surgepay.Messaging.Topics.{topic_of}

pub data Replayed : Type 0 where
  replayed : Replayed
  missing_event : Replayed
  invalid_envelope : Replayed
  unknown_topic : String → Replayed
  publish_failed : Replayed

abbrev pub outcome_of : Sending (List RecordMetadata) → Replayed
outcome_of (sent metadata) = replayed
outcome_of (unserializable x) = publish_failed
outcome_of (send_failed e) = publish_failed

module _ (is_date : String → Bool) where
  -- The validated envelope published again under its own id as the key.
  unfoldable pub republish :
      (TopicMessages → Answer) → Envelope → String → List TopicMessages × Replayed
  republish broker e topic =
      let (messages, sending) = publish is_date broker topic e.event_id (obj (to_fields e)) in
      (messages, outcome_of sending)

  abbrev pub route :
      (TopicMessages → Answer) → Envelope → Option String → List TopicMessages × Replayed
  route broker e none = ([], unknown_topic e.event_type)
  route broker e (some topic) = republish broker e topic

  abbrev pub routed :
      (TopicMessages → Answer) → Option (Decoded Envelope) → List TopicMessages × Replayed
  routed broker (some (ok e)) = route broker e (topic_of e.event_type)
  routed broker _ = ([], invalid_envelope)

  abbrev pub reread : Registry → ℕ → Decoded Buffer → Option (Decoded Envelope)
  reread get_upgrade fuel (ok b) = deserialize is_date get_upgrade fuel b
  reread get_upgrade fuel (err x) = some (err x)

  -- `replay`: what the broker is handed, and the result.
  unfoldable pub replay :
      Registry → ℕ → (TopicMessages → Answer) → Option Json → List TopicMessages × Replayed
  replay get_upgrade fuel broker none = ([], missing_event)
  replay get_upgrade fuel broker (some event) =
      routed broker (reread get_upgrade fuel (serialize is_date event))
