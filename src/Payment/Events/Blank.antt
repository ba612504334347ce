-- ===== src/Payment/Events/Blank.antt =====
-- What a blank correlation id does to a batch of the relay.
use surgepay.Common.{
  ℕ, String, Bool, true, false, List, [], ◌∷◌, ◌++◌, ◌≡◌, refl, ◌∙◌, ap, subst, inl, inr,
  Bool-cases,
}
use surgepay.Messaging.Json.{property, written, written_fields, is_blank}
use surgepay.Messaging.Serializer.{
  Decoded, ok, err, ◌>>=◌, serialize, validate_envelope, validate_fields, malformed_envelope,
}
use surgepay.Messaging.Producer.{
  Answer, TopicMessages, BatchPublishItem, Ready, publish_batch, prepare, prepare_all, dispatch,
}
use surgepay.Outbox.Repository.{OutboxEvent}
use surgepay.Outbox.Publisher.{
  publish_events, items_of, item_of, send_items, conclude_batch, delivered, rejected, Publication,
}
use surgepay.Outbox.Publisher.Places.{also_parts, item_of-event, is_rejected}
use surgepay.Payment.{PaymentEvent}
use surgepay.Payment.Events.{row_of, envelope_json}

abbrev is_err {ℓ} : {A : Type ℓ} → Decoded A → Bool
is_err (ok a) = false
is_err (err x) = true

rest_fails :
    (m : Decoded Ready) (rest : Decoded (List Ready))
    → is_err rest ≡ true
    → is_err (m >>= λ x. rest >>= λ xs. ok (x ∷ xs)) ≡ true
rest_fails (err x) rest h = refl
rest_fails (ok x) (err y) h = refl
rest_fails (ok x) (ok xs) h = cc

module _ (is_date : String → Bool) (timestamp : String) where
  blank_serialize :
      (e : PaymentEvent)
      → is_blank e.correlation_id ≡ true
      → serialize is_date (written (envelope_json timestamp e)) ≡ err malformed_envelope
  unfolding serialize validate_envelope validate_fields envelope_json written written_fields
      property
  blank_serialize e blank = elim (Bool-cases (is_blank e.id)) [
    | inl no_id ↦ simp no_id refl
    | inr id ↦ elim (Bool-cases (is_blank e.event_type)) [
      | inl no_type ↦ simp (id, no_type) refl
      | inr kind ↦ simp (id, kind, blank) refl
    ]
  ]

  first_fails :
      (now : ℕ) (e : PaymentEvent) (item : BatchPublishItem) (others : List BatchPublishItem)
      → is_blank e.correlation_id ≡ true
      → item.event ≡ (row_of now timestamp e).payload
      → is_err (prepare_all is_date (item ∷ others)) ≡ true
  unfolding prepare_all prepare row_of
  first_fails now e item others blank same =
      let broken : serialize is_date item.event ≡ err malformed_envelope =
        ap (serialize is_date) same ∙ blank_serialize e blank in
      rw broken refl

  prepare_all_fails :
      (before after : List OutboxEvent) (now : ℕ) (e : PaymentEvent) (items : List BatchPublishItem)
      → is_blank e.correlation_id ≡ true
      → items_of (before ++ row_of now timestamp e ∷ after) ≡ delivered items
      → is_err (prepare_all is_date items) ≡ true
  unfolding items_of prepare_all
  prepare_all_fails [] after now e items blank h =
      let (item, others, first, rest, parts) =
        also_parts (item_of (row_of now timestamp e)) (items_of after) items h in
      subst (λ l. is_err (prepare_all is_date l) ≡ true) parts
        (first_fails now e item others blank (item_of-event (row_of now timestamp e) item first))
  prepare_all_fails (x ∷ before) after now e items blank h =
      let (item, others, first, rest, parts) =
        also_parts (item_of x) (items_of (before ++ row_of now timestamp e ∷ after)) items h in
      subst (λ l. is_err (prepare_all is_date l) ≡ true) parts
        (rest_fails (prepare is_date item) (prepare_all is_date others)
          (prepare_all_fails before after now e others blank rest))

  sent_fails :
      (broker : List TopicMessages → Answer) (events : List OutboxEvent)
      (items : List BatchPublishItem) (prepared : Decoded (List Ready))
      → is_err prepared ≡ true
      → ((dispatch is_date broker prepared).0 ≡ [])
        × (is_rejected (conclude_batch events items (dispatch is_date broker prepared).1) ≡ true)
  sent_fails broker events items (err x) h = (refl, refl)
  sent_fails broker events items (ok xs) h = cc

  batch_fails :
      (broker : List TopicMessages → Answer) (events : List OutboxEvent)
      (found : Publication (List BatchPublishItem))
      → ((items : List BatchPublishItem)
          → found ≡ delivered items
          → is_err (prepare_all is_date items) ≡ true)
      → ((send_items is_date broker events found).0 ≡ [])
        × (is_rejected (send_items is_date broker events found).1 ≡ true)
  unfolding publish_batch
  batch_fails broker events (rejected x) h = (refl, refl)
  batch_fails broker events (delivered items) h =
      sent_fails broker events items (prepare_all is_date items) (h items refl)

  -- A batch that holds a payment's event with a blank correlation id, wherever it stands in it, fails
  -- as a whole, and none of its events reaches the broker.
  pub blank_event_fails_batch :
      (broker : List TopicMessages → Answer) (before after : List OutboxEvent) (now : ℕ)
      (e : PaymentEvent)
      → is_blank e.correlation_id ≡ true
      → ((publish_events is_date broker (before ++ row_of now timestamp e ∷ after)).0 ≡ [])
        × (is_rejected (publish_events is_date broker (before ++ row_of now timestamp e ∷ after)).1
            ≡ true)
  unfolding publish_events
  blank_event_fails_batch broker before after now e blank =
      batch_fails broker (before ++ row_of now timestamp e ∷ after)
        (items_of (before ++ row_of now timestamp e ∷ after))
        (λ items h. prepare_all_fails before after now e items blank h)
