-- ===== src/Messaging/Replayer/Laws.antt =====
-- What a replay puts back on the topic.
use surgepay.Common.{
  none, subst, ◌∙◌, sym, ap, Option, ap₂, refl, some, [], ◌∷◌, ◌≡◌, List, ℕ, Bool, String,
}
use surgepay.Messaging.Serializer.{
  validate_fields, validate_envelope, err, Decoded, ok, to_fields, deserialize, serialize, Envelope,
  Registry,
}
use surgepay.Messaging.Replayer.{routed, route, reread, replay, outcome_of, replayed, republish}
use surgepay.Messaging.Producer.{send_one, Answer, TopicMessages, publish}
use surgepay.Messaging.Json.{
  end, nil, nan, null, negative, between, written_number, Number, field, Fields, cons, Items, arr,
  str, num, bool, written_fields, written_items, written, whole, Json, property, obj, Buffer,
}
use surgepay.Messaging.Serializer.Laws.{deserialize-IsValid, deserialize-serialize, IsValid}
use surgepay.Messaging.Topics.{topic_of}

-- JSON writes a written value as it is.
number_twice : (n : Number) → written (written_number n) ≡ written_number n
unfolding written
number_twice nan = refl
number_twice (whole n) = refl
number_twice (between n) = refl
number_twice (negative n) = refl

mutual
  unfolding written written_items written_fields

  pub written_twice : (j : Json) → written (written j) ≡ written j
  written_twice null = refl
  written_twice (bool b) = refl
  written_twice (num n) = number_twice n
  written_twice (str s) = refl
  written_twice (arr vs) = ap arr (items_twice vs)
  written_twice (obj fs) = ap obj (fields_twice fs)

  items_twice : (vs : Items) → written_items (written_items vs) ≡ written_items vs
  items_twice nil = refl
  items_twice (cons v vs) = ap₂ cons (written_twice v) (items_twice vs)

  fields_twice : (fs : Fields) → written_fields (written_fields fs) ≡ written_fields fs
  fields_twice end = refl
  fields_twice (field k v fs) = ap₂ (field k) (written_twice v) (fields_twice fs)

module _ (is_date : String → Bool) (get_upgrade : Registry) (fuel : ℕ) where
  -- One message on a topic, under the key, that the consumer reads as the envelope.
  abbrev pub Carries : List TopicMessages → String → Envelope → Type 0
  Carries messages topic e =
      (b : Buffer) × (messages
        ≡ record { topic = topic; messages = record { key = e.event_id; value = b } ∷ [] } ∷ [])
      × (deserialize is_date get_upgrade fuel b ≡ some (ok e))

  published_once :
      (broker : TopicMessages → Answer) (e : Envelope) (topic : String)
      → (republish is_date broker e topic).1 ≡ replayed
      → (b : Buffer) × (serialize is_date (obj (to_fields e)) ≡ ok b)
        × ((republish is_date broker e topic).0
            ≡ record { topic = topic; messages = record { key = e.event_id; value = b } ∷ [] } ∷ [])
  unfolding republish publish
  published_once broker e topic h = from_bytes (serialize is_date (obj (to_fields e))) refl h
    where
      from_bytes :
          (m : Decoded Buffer)
          → serialize is_date (obj (to_fields e)) ≡ m
          → outcome_of (send_one is_date broker topic e.event_id m).1 ≡ replayed
          → (b : Buffer) × (serialize is_date (obj (to_fields e)) ≡ ok b)
            × ((send_one is_date broker topic e.event_id (serialize is_date (obj (to_fields e)))).0
                ≡ record { topic = topic; messages = record { key = e.event_id; value = b } ∷ [] }
                  ∷ [])
      from_bytes (ok b) k r = (b, k, rw k refl)
      from_bytes (err x) k r = cc

  -- The canonical object of a valid current envelope validates to the envelope.
  validate-to_fields :
      (e : Envelope) (q : Json)
      → IsValid is_date e
      → e.version ≡ whole 1
      → e.payload ≡ some q
      → validate_envelope is_date (obj (to_fields e)) ≡ ok e
  unfolding validate_envelope validate_fields to_fields property
  validate-to_fields e q good version content =
      let same : record e { version = whole 1; payload = some q } ≡ e =
        ap₂ (λ v x. record e { version = v; payload = x }) (sym version) (sym content) in
      simp
        (
          version, content, good.event_id, good.event_type, good.correlation_id, good.causation_id,
          good.saga_id, good.timestamp, good.date,
        )
        (ap ok same)

  same_payload :
      (e x : Envelope) (p q : Json)
      → e.payload ≡ some (written p)
      → x ≡ e
      → x.payload ≡ some q
      → record x { payload = some (written q) } ≡ e
  same_payload e x p q content same found =
      let equal : q ≡ written p = cc in
      let twice : written q ≡ written p = ap written equal ∙ written_twice p in
      subst (λ y. record y { payload = some (written q) } ≡ e) (sym same)
        (ap (λ y. record e { payload = y }) (ap some twice ∙ sym content))

  -- It reads back as itself.
  reserialized :
      (e : Envelope) (p : Json) (b : Buffer)
      → IsValid is_date e
      → e.version ≡ whole 1
      → e.payload ≡ some (written p)
      → serialize is_date (obj (to_fields e)) ≡ ok b
      → deserialize is_date get_upgrade fuel b ≡ some (ok e)
  reserialized e p b good version content h =
      let (x, q, valid, found, back) =
        deserialize-serialize is_date get_upgrade fuel (obj (to_fields e)) b h in
      let read = validate-to_fields e (written p) good version content in
      let same : x ≡ e = cc in
      back ∙ ap (λ y. some (ok y)) (same_payload e x p q content same found)

  routed_once :
      (broker : TopicMessages → Answer) (e : Envelope) (p : Json) (found : Option String)
      → IsValid is_date e
      → e.version ≡ whole 1
      → e.payload ≡ some (written p)
      → topic_of e.event_type ≡ found
      → (route is_date broker e found).1 ≡ replayed
      → (topic : String) × (topic_of e.event_type ≡ some topic)
        × Carries (route is_date broker e found).0 topic e
  routed_once broker e p none good version content k h = cc
  routed_once broker e p (some topic) good version content k h =
      let (b, made, handed) = published_once broker e topic h in
      (topic, k, (b, handed, reserialized e p b good version content made))

  replayed_from :
      (broker : TopicMessages → Answer) (event : Json) (m : Decoded Buffer)
      → serialize is_date event ≡ m
      → (routed is_date broker (reread is_date get_upgrade fuel m)).1 ≡ replayed
      → (e : Envelope) × (topic : String) × (reread is_date get_upgrade fuel m ≡ some (ok e))
        × (topic_of e.event_type ≡ some topic)
        × Carries (routed is_date broker (reread is_date get_upgrade fuel m)).0 topic e
  replayed_from broker event (err x) made h = cc
  replayed_from broker event (ok b) made h =
      let (e, p, valid, content, back) =
        deserialize-serialize is_date get_upgrade fuel event b made in
      let read : Envelope = record e { payload = some (written p) } in
      let (good, version) = deserialize-IsValid is_date get_upgrade fuel b read back in
      let passed = subst (λ d. (routed is_date broker d).1 ≡ replayed) back h in
      let (topic, k, carried) =
        routed_once broker read p (topic_of read.event_type) good version refl refl passed in
      (
        read,
        topic,
        back,
        k,
        subst (λ d. Carries (routed is_date broker d).0 topic read) (sym back) carried,
      )

  -- A replay that succeeds hands the broker one message, on the topic of the event's type and under its
  -- event id, and the consumer reads from it the very envelope that it would have read from the first
  -- message.
  pub replay-Carries :
      (broker : TopicMessages → Answer) (event : Json)
      → (replay is_date get_upgrade fuel broker (some event)).1 ≡ replayed
      → (e : Envelope) × (topic : String) × (reread is_date get_upgrade fuel
            (serialize is_date event)
          ≡ some (ok e))
        × (topic_of e.event_type ≡ some topic)
        × Carries (replay is_date get_upgrade fuel broker (some event)).0 topic e
  unfolding replay
  replay-Carries broker event h = replayed_from broker event (serialize is_date event) refl h
