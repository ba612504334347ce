-- ===== src/Messaging/Serializer/Laws.antt =====
-- What a deserialized envelope satisfies, and the round trip through the serializer.
use surgepay.Common.{
  ℕ, ◌≡◌, refl, ◌∙◌, subst, ◌≢◌, ◌⊎◌, inl, inr, String, Bool, true, false, not, ◌||◌, Option, none,
  some, arith, if◌then◌else◌, Option-cases,
}
use surgepay.Messaging.Json.{
  whole, Json, str, obj, Fields, Buffer, json_text, malformed_text, property, is_blank, written,
  stringify,
}
use surgepay.Messaging.Serializer.{
  Envelope, Decoded, ok, err, SerializationError, unsupported_version, ◌>>=◌, text_of, version_of,
  payload_of, timestamp_of, validate_fields, validate_envelope, to_fields, is_invalid, is_equal,
  current_event_version, Registry, upgrade_version, serialize, deserialize,
}

-- What validation promises of an envelope.
pub record IsValid (is_date : String → Bool) (e : Envelope) : Type 0 where
  pub event_id : is_blank e.event_id ≡ false
  pub event_type : is_blank e.event_type ≡ false
  pub correlation_id : is_blank e.correlation_id ≡ false
  pub causation_id : is_blank e.causation_id ≡ false
  pub saga_id : is_blank e.saga_id ≡ false
  pub timestamp : is_blank e.timestamp ≡ false
  pub date : is_date e.timestamp ≡ true
  pub payload : e.payload ≢ none

pub bind-eq-ok {ℓ κ} :
    {A : Type ℓ} {B : Type κ} (m : Decoded A) (f : A → Decoded B) {b : B}
    → (m >>= f) ≡ ok b
    → (a : A) × (m ≡ ok a) × (f a ≡ ok b)
bind-eq-ok (ok a) f h = (a, refl, h)
bind-eq-ok (err e) f h = cc

pub Decoded-cases {ℓ} :
    {A : Type ℓ} (m : Decoded A) → ((a : A) × (m ≡ ok a)) ⊎ ((x : SerializationError) × (m ≡ err x))
Decoded-cases (ok a) = inl (a, refl)
Decoded-cases (err x) = inr (x, refl)

text_of_sound : (v : Option Json) (s : String) → text_of v ≡ ok s → is_blank s ≡ false
text_of_sound (some (str t)) s h = ground arith
text_of_sound v s h = ground arith

abbrev pub current_only : Envelope → Decoded Envelope
current_only e = if is_equal e.version 1 then ok e else err (unsupported_version e.version)

current_only_sound : (e e' : Envelope) → current_only e ≡ ok e' → (e ≡ e') × (e'.version ≡ whole 1)
current_only_sound e e' h = ground arith

serialized :
    (e : Envelope) (b : Buffer)
    → (if is_invalid e.version || not (is_equal e.version current_event_version)
        then err (unsupported_version e.version)
        else ok (stringify (obj (to_fields e))))
      ≡ ok b
    → (e.version ≡ whole 1) × (stringify (obj (to_fields e)) ≡ b)
serialized e b h = ground arith

module _ (is_date : String → Bool) where
  timestamp_of_sound :
      (v : Option Json) (s : String)
      → timestamp_of is_date v ≡ ok s
      → (is_blank s ≡ false) × (is_date s ≡ true)
  timestamp_of_sound v s h =
      let (t, read, e) = bind-eq-ok (text_of v) _ h in ground (arith, text_of_sound v t read)

  validate_fields-IsValid :
      (fs : Fields) (e : Envelope) → validate_fields is_date fs ≡ ok e → IsValid is_date e
  unfolding validate_fields
  validate_fields-IsValid fs e h =
      let (a, ha, h1) = bind-eq-ok (text_of (property "eventId" fs)) _ h in
      let (b, hb, h2) = bind-eq-ok (text_of (property "eventType" fs)) _ h1 in
      let (c, hc, h3) = bind-eq-ok (text_of (property "correlationId" fs)) _ h2 in
      let (d, hd, h4) = bind-eq-ok (text_of (property "causationId" fs)) _ h3 in
      let (s, hs, h5) = bind-eq-ok (text_of (property "sagaId" fs)) _ h4 in
      let (t, ht, h6) = bind-eq-ok (timestamp_of is_date (property "timestamp" fs)) _ h5 in
      let (v, hv, h7) = bind-eq-ok (version_of (property "version" fs)) _ h6 in
      let (p, hp, h8) = bind-eq-ok (payload_of (property "payload" fs)) _ h7 in
      ground (
        arith,
        text_of_sound _ a ha,
        text_of_sound _ b hb,
        text_of_sound _ c hc,
        text_of_sound _ d hd,
        text_of_sound _ s hs,
        timestamp_of_sound _ t ht,
      )

  validate_envelope-IsValid :
      (v : Json) (e : Envelope) → validate_envelope is_date v ≡ ok e → IsValid is_date e
  unfolding validate_envelope
  validate_envelope-IsValid (obj fs) e h = validate_fields-IsValid fs e h
  validate_envelope-IsValid v e h = cc

  -- The upgrade step is decided by the version alone: 1 passes and any other is refused.
  upgrade_version_current :
      (get_upgrade : Registry) (fuel : ℕ) (e : Envelope)
      → upgrade_version get_upgrade fuel e current_event_version
        ≡ some (if is_equal e.version 1 then ok e else err (unsupported_version e.version))
  unfolding upgrade_version
  upgrade_version_current get_upgrade fuel e = ground arith

  -- Deserialization never runs the upgrade loop: whatever is registered and whatever the fuel, the
  -- result is the validated envelope if its version is 1, and an error otherwise.
  pub deserialize_lem :
      (get_upgrade : Registry) (fuel : ℕ) (v : Json)
      → deserialize is_date get_upgrade fuel (json_text v)
        ≡ some (validate_envelope is_date v >>= current_only)
  unfolding deserialize
  deserialize_lem get_upgrade fuel v = elim (Decoded-cases (validate_envelope is_date v)) [
    | inl (e, good) ↦ rw (good, deserialize) (upgrade_version_current get_upgrade fuel e)
    | inr (x, bad) ↦ rw (bad, deserialize)
  ]

  -- An accepted message carries a valid envelope of version 1.
  pub deserialize-IsValid :
      (get_upgrade : Registry) (fuel : ℕ) (b : Buffer) (e : Envelope)
      → deserialize is_date get_upgrade fuel b ≡ some (ok e)
      → IsValid is_date e × (e.version ≡ whole 1)
  unfolding deserialize
  deserialize-IsValid get_upgrade fuel malformed_text e h = cc
  deserialize-IsValid get_upgrade fuel (json_text v) e h =
      let passed : (validate_envelope is_date v >>= current_only) ≡ ok e =
        cc (deserialize_lem get_upgrade fuel v) in
      let (e', valid, same) = bind-eq-ok (validate_envelope is_date v) current_only passed in
      let (kept, version) = current_only_sound e' e same in
      (subst (IsValid is_date) kept (validate_envelope-IsValid v e' valid), version)

  -- The canonical object of a valid envelope validates to that envelope.
  pub validate_fields-to_fields :
      (e : Envelope) (p : Json)
      → IsValid is_date e
      → e.version ≡ whole 1
      → e.payload ≡ some p
      → validate_envelope is_date (written (obj (to_fields e)))
        ≡ ok (record e { payload = some (written p) })
  unfolding validate_envelope validate_fields to_fields property written
  validate_fields-to_fields e p h v q = simp (
    v, q, h.event_id, h.event_type, h.correlation_id, h.causation_id, h.saga_id, h.timestamp,
    h.date,
  )

  -- Whatever object the producer accepts, the consumer reads back the envelope that validation
  -- found in it: properties outside the envelope are dropped, and the payload is as JSON writes it.
  pub deserialize-serialize :
      (get_upgrade : Registry) (fuel : ℕ) (v : Json) (b : Buffer)
      → serialize is_date v ≡ ok b
      → (e : Envelope) × (p : Json) × (validate_envelope is_date v ≡ ok e)
        × (e.payload ≡ some p)
        × (deserialize is_date get_upgrade fuel b
            ≡ some (ok (record e { payload = some (written p) })))
  unfolding serialize
  deserialize-serialize get_upgrade fuel v b h =
      let (e, valid, made) = bind-eq-ok (validate_envelope is_date v) _ h in
      let (version, bytes) = serialized e b made in
      let good = validate_envelope-IsValid v e valid in
      elim (Option-cases e.payload) [
        | inl missing ↦ absurd (good.payload missing)
        | inr (p, content) ↦ (
          e,
          p,
          valid,
          content,
          subst
              (λ x.
                deserialize is_date get_upgrade fuel x
                ≡ some (ok (record e { payload = some (written p) })))
              bytes
              (deserialize_lem get_upgrade fuel (written (obj (to_fields e)))
                ∙ rw (validate_fields-to_fields e p good version content) (rw version)),
        )
      ]
