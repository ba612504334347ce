-- ===== src/Outbox/Publisher/Places.antt =====
-- The places that a batch reports belong to its events, and one unfit event fails its whole batch.

-- Some event of the batch carries the id.
use surgepay.Common.{
  ◌⊎◌, if◌then◌else◌, ◌++◌, map, sym, refl, none, subst, eq_refl, inr, some, ◌||◌, inl, arith,
  All-map, [], Option-cases, ◌∷◌, ◌∷◌, All, true, false, Bool, ◌≡◌, Option, find, List, String,
}
use surgepay.Outbox.Publisher.{
  envelope_mismatch, item_at, send_items, conclude_batch, is_object, publish_events, metadata_of,
  id_or, named, event_id_in, rejected, carries, delivered, also, items_of, Publication, item_of,
}
use surgepay.Outbox.Repository.{Metadata, ids_of, is_among, OutboxEvent}
use surgepay.Messaging.Json.{null, arr, num, bool, property, str, obj, Json}
use surgepay.Messaging.Producer.{
  acknowledged, messages_by_topic, failed, locate_all, dispatch, Answer, locate_ready,
  TopicMessages, publish_batch, RecordMetadata, prepare_all, prepare, BatchPublishItem, Ready,
}
use surgepay.Messaging.Serializer.{
  err, Decoded, payload_of, version_of, timestamp_of, serialize, Envelope, ok, validate_fields,
  text_of, validate_envelope,
}
use surgepay.Messaging.Topics.{topic_of}
use surgepay.Messaging.Serializer.Laws.{bind-eq-ok}

abbrev pub is_carried : List OutboxEvent → String → Bool
is_carried [] key = false
is_carried (e ∷ es) key = carries key e || is_carried es key

carried_among :
    (key : String) (events : List OutboxEvent)
    → is_carried events key ≡ true
    → is_among (ids_of events) (id_or key (find (carries key) events)) ≡ true
unfolding find
carried_among key [] h = cc
carried_among key (e ∷ es) h = ground (arith, eq_refl e.id, carried_among key es)

is_carried-All :
    (e : OutboxEvent) (es : List OutboxEvent) (xs : List Ready)
    → All (λ x. is_carried es x.event_id ≡ true) xs
    → All (λ x. is_carried (e ∷ es) x.event_id ≡ true) xs
is_carried-All e es xs h = All-map _ _ (λ x k. ground (arith, k)) xs h

text_of-named : (v : Option Json) (key : String) → text_of v ≡ ok key → named key v ≡ true
text_of-named none key h = cc
text_of-named (some (str s)) key h = ground (arith, eq_refl key)
text_of-named (some null) key h = cc
text_of-named (some (bool b)) key h = cc
text_of-named (some (num n)) key h = cc
text_of-named (some (arr xs)) key h = cc
text_of-named (some (obj fs)) key h = cc

pub item_of-event :
    (e : OutboxEvent) (item : BatchPublishItem)
    → item_of e ≡ delivered item
    → item.event ≡ e.payload
unfolding item_of
item_of-event e item h = elim (Option-cases (topic_of e.event_type)) [
  | inl unknown ↦ ground (arith, unknown)
  | inr (topic, known) ↦ ground (arith, known)
]

pub also_parts :
    (m : Publication BatchPublishItem) (rest : Publication (List BatchPublishItem))
    (items : List BatchPublishItem)
    → also m rest ≡ delivered items
    → (item : BatchPublishItem) × (others : List BatchPublishItem) × (m ≡ delivered item)
      × (rest ≡ delivered others)
      × (item ∷ others ≡ items)
also_parts (rejected x) rest items h = cc
also_parts (delivered item) (rejected x) items h = cc
also_parts (delivered item) (delivered others) items h = (item, others, refl, refl, cc)

module _ (is_date : String → Bool) where
  validate_envelope-event_id :
      (j : Json) (x : Envelope)
      → validate_envelope is_date j ≡ ok x
      → event_id_in x.event_id j ≡ true
  unfolding validate_envelope validate_fields
  validate_envelope-event_id (obj fs) x h =
      let (a, ha, h1) = bind-eq-ok (text_of (property "eventId" fs)) _ h in
      let (b, hb, h2) = bind-eq-ok (text_of (property "eventType" fs)) _ h1 in
      let (c, hc, h3) = bind-eq-ok (text_of (property "correlationId" fs)) _ h2 in
      let (d, hd, h4) = bind-eq-ok (text_of (property "causationId" fs)) _ h3 in
      let (s, hs, h5) = bind-eq-ok (text_of (property "sagaId" fs)) _ h4 in
      let (t, ht, h6) = bind-eq-ok (timestamp_of is_date (property "timestamp" fs)) _ h5 in
      let (n, hn, h7) = bind-eq-ok (version_of (property "version" fs)) _ h6 in
      let (p, hp, h8) = bind-eq-ok (payload_of (property "payload" fs)) _ h7 in
      let same : a ≡ x.event_id = cc in
      subst (λ k. named k (property "eventId" fs) ≡ true) same
        (text_of-named (property "eventId" fs) a ha)
  validate_envelope-event_id null x h = cc
  validate_envelope-event_id (bool b) x h = cc
  validate_envelope-event_id (num n) x h = cc
  validate_envelope-event_id (str s) x h = cc
  validate_envelope-event_id (arr xs) x h = cc

  prepare-event_id :
      (item : BatchPublishItem) (x : Ready)
      → prepare is_date item ≡ ok x
      → event_id_in x.event_id item.event ≡ true
  unfolding prepare
  prepare-event_id item x h =
      let (bytes, hb, h1) = bind-eq-ok (serialize is_date item.event) _ h in
      let (e, he, h2) = bind-eq-ok (validate_envelope is_date item.event) _ h1 in
      let same : e.event_id ≡ x.event_id = cc in
      subst (λ k. event_id_in k item.event ≡ true) same (validate_envelope-event_id item.event e he)

  prepare_all-All :
      (events : List OutboxEvent) (items : List BatchPublishItem) (xs : List Ready)
      → items_of events ≡ delivered items
      → prepare_all is_date items ≡ ok xs
      → All (λ x. is_carried events x.event_id ≡ true) xs
  unfolding items_of prepare_all
  prepare_all-All [] items xs h k =
      let empty : [] ≡ items = cc in
      let start : prepare_all is_date [] ≡ ok xs =
        subst (λ l. prepare_all is_date l ≡ ok xs) (sym empty) k in
      let nothing : [] ≡ xs = cc in subst (All _) nothing tt
  prepare_all-All (e ∷ es) items xs h k =
      let (item, others, first, rest, parts) = also_parts (item_of e) (items_of es) items h in
      let start : prepare_all is_date (item ∷ others) ≡ ok xs =
        subst (λ l. prepare_all is_date l ≡ ok xs) (sym parts) k in
      let (x, hx, h1) = bind-eq-ok (prepare is_date item) _ start in
      let (ys, hys, h2) = bind-eq-ok (prepare_all is_date others) _ h1 in
      let here : event_id_in x.event_id e.payload ≡ true =
        subst (λ j. event_id_in x.event_id j ≡ true) (item_of-event e item first)
          (prepare-event_id item x hx) in
      let result : x ∷ ys ≡ xs = cc in
      subst (All _) result
        (ground (arith, here), is_carried-All e es ys (prepare_all-All es others ys rest hys))

  conclude_batch-All :
      (events : List OutboxEvent) (xs : List Ready) (metadata : List RecordMetadata)
      → All (λ x. is_carried events x.event_id ≡ true) xs
      → All
          (λ m. is_among (ids_of events) m.id ≡ true)
          (map (metadata_of events) (map (locate_ready metadata) xs))
  unfolding metadata_of
  conclude_batch-All events [] metadata h = tt
  conclude_batch-All events (x ∷ xs) metadata (h, hs) =
      (carried_among x.event_id events h, conclude_batch-All events xs metadata hs)

  answered-All :
      (events : List OutboxEvent) (items : List BatchPublishItem) (xs : List Ready)
      (answer : Answer) (places : List Metadata)
      → All (λ x. is_carried events x.event_id ≡ true) xs
      → conclude_batch events items (locate_all xs answer) ≡ delivered places
      → All (λ m. is_among (ids_of events) m.id ≡ true) places
  answered-All events items xs (failed e) places h k = cc
  answered-All events items xs (acknowledged metadata) places h k =
      let result : map (metadata_of events) (map (locate_ready metadata) xs) ≡ places = cc in
      subst (All _) result (conclude_batch-All events xs metadata h)

  dispatched-All :
      (broker : List TopicMessages → Answer) (events : List OutboxEvent)
      (items : List BatchPublishItem) (prepared : Decoded (List Ready)) (places : List Metadata)
      → items_of events ≡ delivered items
      → prepare_all is_date items ≡ prepared
      → conclude_batch events items (dispatch is_date broker prepared).1 ≡ delivered places
      → All (λ m. is_among (ids_of events) m.id ≡ true) places
  dispatched-All broker events items (err x) places h k c = cc
  dispatched-All broker events items (ok xs) places h k c =
      answered-All events items xs (broker (messages_by_topic (map (λ x. x.prepared) xs))) places
        (prepare_all-All events items xs h k) c

  sent-All :
      (broker : List TopicMessages → Answer) (events : List OutboxEvent)
      (found : Publication (List BatchPublishItem)) (places : List Metadata)
      → items_of events ≡ found
      → (send_items is_date broker events found).1 ≡ delivered places
      → All (λ m. is_among (ids_of events) m.id ≡ true) places
  unfolding publish_batch
  sent-All broker events (rejected x) places h c = cc
  sent-All broker events (delivered items) places h c =
      dispatched-All broker events items (prepare_all is_date items) places h refl c

  -- Whatever the broker answers, each place that a published batch reports has the id of an event of
  -- the batch.
  pub publish_events-All :
      (broker : List TopicMessages → Answer) (events : List OutboxEvent) (places : List Metadata)
      → (publish_events is_date broker events).1 ≡ delivered places
      → All (λ m. is_among (ids_of events) m.id ≡ true) places
  unfolding publish_events publish_batch
  publish_events-All broker events places h = sent-All broker events (items_of events) places refl h

  answered-acknowledged :
      (events : List OutboxEvent) (items : List BatchPublishItem) (xs : List Ready)
      (answer : Answer) (places : List Metadata)
      → conclude_batch events items (locate_all xs answer) ≡ delivered places
      → (metadata : List RecordMetadata) × (answer ≡ acknowledged metadata)
  answered-acknowledged events items xs (failed e) places h = cc
  answered-acknowledged events items xs (acknowledged metadata) places h = (metadata, refl)

  dispatched-acknowledged :
      (broker : List TopicMessages → Answer) (events : List OutboxEvent)
      (items : List BatchPublishItem) (prepared : Decoded (List Ready)) (places : List Metadata)
      → conclude_batch events items (dispatch is_date broker prepared).1 ≡ delivered places
      → (metadata : List RecordMetadata) × (broker (dispatch is_date broker prepared).0
          ≡ acknowledged metadata)
  dispatched-acknowledged broker events items (err x) places h = cc
  dispatched-acknowledged broker events items (ok xs) places h =
      answered-acknowledged events items xs (broker (messages_by_topic (map (λ x. x.prepared) xs)))
        places h

  sent-acknowledged :
      (broker : List TopicMessages → Answer) (events : List OutboxEvent)
      (found : Publication (List BatchPublishItem)) (places : List Metadata)
      → (send_items is_date broker events found).1 ≡ delivered places
      → (metadata : List RecordMetadata) × (broker (send_items is_date broker events found).0
          ≡ acknowledged metadata)
  unfolding publish_batch
  sent-acknowledged broker events (rejected x) places h = cc
  sent-acknowledged broker events (delivered items) places h =
      dispatched-acknowledged broker events items (prepare_all is_date items) places h

  -- A batch is published only if the broker acknowledged the messages that it was handed.
  pub publish_events-acknowledged :
      (broker : List TopicMessages → Answer) (events : List OutboxEvent) (places : List Metadata)
      → (publish_events is_date broker events).1 ≡ delivered places
      → (metadata : List RecordMetadata) × (broker (publish_events is_date broker events).0
          ≡ acknowledged metadata)
  unfolding publish_events
  publish_events-acknowledged broker events places h =
      sent-acknowledged broker events (items_of events) places h

-- An event that cannot be published: its payload is no object, or its type has no topic.
abbrev pub IsUnfit : OutboxEvent → Type 0
IsUnfit e = (is_object e.payload ≡ false) ⊎ (topic_of e.event_type ≡ none)

abbrev pub is_rejected {ℓ} : {A : Type ℓ} → Publication A → Bool
is_rejected (delivered _) = false
is_rejected (rejected _) = true

unfit-rejected : (e : OutboxEvent) → IsUnfit e → is_rejected (item_of e) ≡ true
unfolding item_of
unfit-rejected e h = elim h [
  | inl no_object ↦ rw no_object refl
  | inr no_topic ↦ rw no_topic (either (is_object e.payload))
]
  where
    either :
        (b : Bool) → is_rejected (if b then item_at e none else rejected envelope_mismatch) ≡ true
    either b = ground arith

also-rejected :
    (m : Publication BatchPublishItem) (rest : Publication (List BatchPublishItem))
    → (is_rejected m ≡ true) ⊎ (is_rejected rest ≡ true)
    → is_rejected (also m rest) ≡ true
also-rejected (rejected x) rest h = refl
also-rejected (delivered item) (rejected x) h = refl
also-rejected (delivered item) (delivered items) h = ground arith

items_of-rejected :
    (before after : List OutboxEvent) (e : OutboxEvent)
    → IsUnfit e
    → is_rejected (items_of (before ++ e ∷ after)) ≡ true
unfolding items_of
items_of-rejected [] after e h = also-rejected _ _ (inl (unfit-rejected e h))
items_of-rejected (x ∷ before) after e h =
    also-rejected _ _ (inr (items_of-rejected before after e h))

-- One unfit event anywhere in a batch fails the whole batch, and none of its events reaches the
-- broker.
pub unfit_event_fails_batch :
    (is_date : String → Bool) (broker : List TopicMessages → Answer)
    (before after : List OutboxEvent) (e : OutboxEvent)
    → IsUnfit e
    → ((publish_events is_date broker (before ++ e ∷ after)).0 ≡ [])
      × (is_rejected (publish_events is_date broker (before ++ e ∷ after)).1 ≡ true)
unfolding publish_events
unfit_event_fails_batch is_date broker before after e h =
    on_items (before ++ e ∷ after) (items_of (before ++ e ∷ after))
      (items_of-rejected before after e h)
  where
    on_items :
        (events : List OutboxEvent) (found : Publication (List BatchPublishItem))
        → is_rejected found ≡ true
        → ((send_items is_date broker events found).0 ≡ [])
          × (is_rejected (send_items is_date broker events found).1 ≡ true)
    on_items events (rejected x) k = (refl, refl)
    on_items events (delivered items) k = absurd (ground arith)
