-- ===== src/Payment/Events/Arrival.antt =====
-- The way of a payment's event from the outbox row to the consumer.
use surgepay.Common.{
  append_assoc, All-map, eq_refl, append-nil, ◌++◌, map, All, ℕ, String, Bool, true, false, some,
  List, [], ◌∷◌, ◌≡◌, refl, ◌∙◌, sym, ap,
}
use surgepay.Messaging.Json.{
  end, written_number, str, field, Json, Buffer, stringify, obj, property, written, written_fields,
  is_blank, whole,
}
use surgepay.Messaging.Serializer.{
  Envelope, Registry, ok, serialize, deserialize, validate_envelope, validate_fields, to_fields,
}
use surgepay.Messaging.Serializer.Laws.{deserialize-serialize}
use surgepay.Messaging.Replayer.Laws.{written_twice}
use surgepay.Messaging.Producer.{
  publish_batch, messages_by_topic, add_message, group_onto, Ready, prepare_all, prepare, Message,
  BatchPublishItem, Answer, TopicMessages,
}
use surgepay.Messaging.Topics.{topic_of}
use surgepay.Outbox.Publisher.{publish_events, delivered, item_for, items_of, item_of}
use surgepay.Payment.{or_else, PaymentEvent, new_event, new_payment, Context, Request}
use surgepay.Payment.Events.{row_of, envelope_json, event_payload}
use surgepay.Outbox.Repository.{OutboxEvent}

-- The envelope that a consumer is to read.
abbrev pub envelope_of : String → PaymentEvent → Envelope
envelope_of timestamp e = record {
  event_id = e.id;
  event_type = e.event_type;
  correlation_id = e.correlation_id;
  causation_id = e.causation_id;
  saga_id = e.correlation_id;
  timestamp = timestamp;
  version = whole 1;
  payload = some (written (event_payload e));
}

-- A payment that was created, with what its event is made of.
pub record Creation : Type 0 where
  pub created_at : ℕ
  pub timestamp : String
  pub payment_id : String
  pub event_id : String
  pub context : Context
  pub request : Request
  pub merchant : String
  pub order : String

-- The envelope with the data of the payment, field by field.
abbrev pub initiated : Creation → Envelope
initiated x = record {
  event_id = x.event_id;
  event_type = "PaymentInitiated";
  correlation_id = or_else x.context.correlation_id "N/A";
  causation_id = or_else x.context.request_id (or_else x.context.correlation_id "N/A");
  saga_id = or_else x.context.correlation_id "N/A";
  timestamp = x.timestamp;
  version = whole 1;
  payload = some (
      obj (
        field "paymentId" (str x.payment_id) (
          field "amount" (written_number x.request.amount) (
            field "currency" (str x.request.currency) (
              field "merchantId" (str x.merchant) (
                field "orderId" (str x.order)
                  (field "paymentMethod" (str (or_else x.request.payment_method "card")) end)))))));
}

-- What the serializer asks of it.
pub record IsComplete (is_date : String → Bool) (x : Creation) : Type 0 where
  pub event_id : is_blank x.event_id ≡ false
  pub correlation_id : is_blank (or_else x.context.correlation_id "N/A") ≡ false
  pub causation_id :
      is_blank (or_else x.context.request_id (or_else x.context.correlation_id "N/A")) ≡ false
  pub stamp : is_blank x.timestamp ≡ false
  pub date : is_date x.timestamp ≡ true

module _ (trim : String → String) where
  abbrev pub event_for : Creation → PaymentEvent
  event_for x =
      new_event x.event_id (new_payment trim x.payment_id x.context x.request x.merchant) x.order
        x.request.payment_method

  -- The row that `createPayment` stores.
  abbrev pub row_for : Creation → OutboxEvent
  row_for x = row_of x.created_at x.timestamp (event_for x)

module _ (is_date : String → Bool) (timestamp : String) where
  -- What validation asks of an event.
  pub record IsSound (e : PaymentEvent) : Type 0 where
    pub id : is_blank e.id ≡ false
    pub event_type : is_blank e.event_type ≡ false
    pub correlation_id : is_blank e.correlation_id ≡ false
    pub causation_id : is_blank e.causation_id ≡ false
    pub stamp : is_blank timestamp ≡ false
    pub date : is_date timestamp ≡ true

  envelope_validates :
      (e : PaymentEvent)
      → IsSound e
      → validate_envelope is_date (written (envelope_json timestamp e))
        ≡ ok (envelope_of timestamp e)
  unfolding validate_envelope validate_fields envelope_json written written_fields property
  envelope_validates e s =
      simp (s.id, s.event_type, s.correlation_id, s.causation_id, s.stamp, s.date) refl

  envelope_serializes :
      (e : PaymentEvent)
      → IsSound e
      → (b : Buffer) × (serialize is_date (written (envelope_json timestamp e)) ≡ ok b)
  unfolding serialize
  envelope_serializes e s =
      (stringify (obj (to_fields (envelope_of timestamp e))), rw (envelope_validates e s) refl)

  module _ (get_upgrade : Registry) (fuel : ℕ) where
    -- What the serializer makes of the row is read back as the envelope.
    read_back :
        (e : PaymentEvent) (b : Buffer)
        → IsSound e
        → serialize is_date (written (envelope_json timestamp e)) ≡ ok b
        → deserialize is_date get_upgrade fuel b ≡ some (ok (envelope_of timestamp e))
    read_back e b s h =
        let (x, p, valid, content, back) =
          deserialize-serialize is_date get_upgrade fuel (written (envelope_json timestamp e)) b
            h in
        let same : x ≡ envelope_of timestamp e = cc (envelope_validates e s) in
        let payload : written (event_payload e) ≡ p = cc in
        let twice : written p ≡ written (event_payload e) =
          ap written (sym payload) ∙ written_twice (event_payload e) in
        back
        ∙ ap (λ (y : Envelope × Json). some (ok (record (y.0) { payload = some y.1 })))
            (pair same twice)
      where
        pair : {A B : Type 0} {a c : A} {b' d : B} → a ≡ c → b' ≡ d → ◌≡◌ {A = A × B} (a, b') (c, d)
        pair h k = cc

-- All messages go on the one topic, in their order.
group_one_topic :
    (topic : String) (f : Creation → Message) (before : List Message) (xs : List Creation)
    → group_onto
        (record { topic = topic; messages = before } ∷ [])
        (map (λ x. record { topic = topic; message = f x }) xs)
      ≡ record { topic = topic; messages = before ++ map f xs } ∷ []
unfolding group_onto add_message
group_one_topic topic f before [] = rw (append-nil before) refl
group_one_topic topic f before (x ∷ xs) =
    rw (eq_refl topic, group_onto, add_message)
      (group_one_topic topic f (before ++ f x ∷ []) xs
        ∙ ap (λ ms. record { topic = topic; messages = ms } ∷ [])
            (append_assoc before (f x ∷ []) (map f xs)))

module _ (trim : String → String) (is_date : String → Bool) where
  abbrev value_of : Creation → Buffer
  value_of x = stringify (obj (to_fields (initiated x)))

  abbrev message_for : Creation → Message
  message_for x = record { key = x.payment_id; value = value_of x }

  abbrev item_of_payment : Creation → BatchPublishItem
  item_of_payment x = item_for (row_for trim x) "payments.initiated"

  abbrev ready_for : Creation → Ready
  ready_for x = record {
    event_id = x.event_id;
    prepared = record { topic = "payments.initiated"; message = message_for x };
  }

  items_of-row_for :
      (xs : List Creation) → items_of (map (row_for trim) xs) ≡ delivered (map item_of_payment xs)
  unfolding items_of item_of row_of envelope_json written new_event topic_of
  items_of-row_for [] = refl
  items_of-row_for (x ∷ xs) = rw (items_of-row_for xs) refl

  validated :
      (x : Creation)
      → IsComplete is_date x
      → validate_envelope is_date (row_for trim x).payload ≡ ok (initiated x)
  unfolding row_of new_event new_payment written is_blank
  validated x h = envelope_validates is_date x.timestamp (event_for trim x) (record {
    id = h.event_id;
    event_type = refl;
    correlation_id = h.correlation_id;
    causation_id = h.causation_id;
    stamp = h.stamp;
    date = h.date;
  })

  prepared :
      (x : Creation) → IsComplete is_date x → prepare is_date (item_of_payment x) ≡ ok (ready_for x)
  unfolding prepare serialize row_of new_event new_payment
  prepared x h = rw (validated x h) refl

  all_prepared :
      (xs : List Creation)
      → All (IsComplete is_date) xs
      → prepare_all is_date (map item_of_payment xs) ≡ ok (map ready_for xs)
  unfolding prepare_all
  all_prepared [] h = refl
  all_prepared (x ∷ xs) (h, hs) = rw (prepared x h, all_prepared xs hs) refl

  grouped :
      (x : Creation) (xs : List Creation)
      → messages_by_topic (map (λ y. y.prepared) (map ready_for (x ∷ xs)))
        ≡ record { topic = "payments.initiated"; messages = map message_for (x ∷ xs) } ∷ []
  unfolding messages_by_topic group_onto add_message
  grouped x xs =
      ap (group_onto (record { topic = "payments.initiated"; messages = message_for x ∷ [] } ∷ []))
        (map_map xs)
      ∙ group_one_topic "payments.initiated" message_for (message_for x ∷ []) xs
    where
      map_map :
          (ys : List Creation)
          → map (λ y. y.prepared) (map ready_for ys)
            ≡ map (λ y. record { topic = "payments.initiated"; message = message_for y }) ys
      map_map [] = refl
      map_map (y ∷ ys) = rw (map_map ys) refl

  module _ (get_upgrade : Registry) (fuel : ℕ) where
    abbrev pub ReadsBack : (Creation → Buffer) → Creation → Type 0
    ReadsBack value x = deserialize is_date get_upgrade fuel (value x) ≡ some (ok (initiated x))

    value_read : (x : Creation) → IsComplete is_date x → ReadsBack value_of x
    unfolding row_of new_event new_payment is_blank serialize written
    value_read x h =
        read_back is_date x.timestamp get_upgrade fuel (event_for trim x) (value_of x)
          (record {
            id = h.event_id;
            event_type = refl;
            correlation_id = h.correlation_id;
            causation_id = h.causation_id;
            stamp = h.stamp;
            date = h.date;
          })
          (rw (validated x h) refl)

    -- The relay's batch of the events of new payments goes out as one record on the topic of initiated
    -- payments, one message for each in their order, under the id of its payment; a consumer reads from
    -- it the envelope with that payment's ids, amount, currency, merchant, order and payment method.
    -- The events' ids, the requests' ids and the time stamps are not blank, and the stamps are dates.
    pub new_event-Arrives :
        (broker : List TopicMessages → Answer) (x : Creation) (xs : List Creation)
        → All (IsComplete is_date) (x ∷ xs)
        → (value : Creation → Buffer) × ((publish_events is_date broker
              (map (row_for trim) (x ∷ xs))).0
            ≡ record {
              topic = "payments.initiated";
              messages = map (λ y. record { key = y.payment_id; value = value y }) (x ∷ xs);
            }
              ∷ [])
          × All (ReadsBack value) (x ∷ xs)
    unfolding publish_events publish_batch
    new_event-Arrives broker x xs h = (
      value_of,
      rw (items_of-row_for (x ∷ xs)) (rw (all_prepared (x ∷ xs) h) (grouped x xs)),
      All-map (IsComplete is_date) (ReadsBack value_of) value_read (x ∷ xs) h,
    )
