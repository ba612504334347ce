-- ===== src/Messaging/Serializer.antt =====
-- packages/common/src/messaging/serializer.ts and packages/events/src/envelope.ts. Error messages
-- are left out; `Date.parse` and the upgrade functions that a service registers are parameters.
pub mod Laws
pub mod Upgrades
use surgepay.Common.{
  ℕ, zero, suc, ◌+◌, String, Bool, true, false, not, ◌||◌, ◌&&◌, Option, none, some, ltb, leb, ◌=ℕ◌,
  if◌then◌else◌,
}
use surgepay.Messaging.Json.{
  Number, whole, between, negative, nan, Json, str, num, obj, Fields, end, field, Buffer, json_text,
  stringify, parse, property, is_blank,
}

-- `BaseEventEnvelope<unknown>`; the payload is `none` where it is `undefined`.
pub record Envelope : Type 0 where
  pub event_id : String
  pub event_type : String
  pub correlation_id : String
  pub causation_id : String
  pub saga_id : String
  pub timestamp : String
  pub version : Number
  pub payload : Option Json

-- The exception classes, `SerializationException` being the parent of the first two.
pub data SerializationError : Type 0 where
  malformed_envelope : SerializationError
  unsupported_version : Number → SerializationError
  version_missing : SerializationError
  deserialization : SerializationError
  missing_upgrade_path : Number → SerializationError

pub data Decoded {ℓ} (A : Type ℓ) : Type ℓ where
  ok : A → Decoded A
  err : SerializationError → Decoded A

infixl 5 ◌>>=◌
abbrev pub ◌>>=◌ {ℓ κ} : {A : Type ℓ} {B : Type κ} → Decoded A → (A → Decoded B) → Decoded B
ok a >>= f = f a
err e >>= f = err e

abbrev pub current_event_version : ℕ
current_event_version = 1

-- The text of a property that must be a string and not blank.
abbrev pub text_of : Option Json → Decoded String
text_of (some (str s)) = if is_blank s then err malformed_envelope else ok s
text_of _ = err malformed_envelope

-- `typeof env.version !== 'number' || isNaN(env.version)`
abbrev pub version_of : Option Json → Decoded Number
version_of (some (num nan)) = err version_missing
version_of (some (num v)) = ok v
version_of _ = err version_missing

abbrev pub payload_of : Option Json → Decoded Json
payload_of none = err malformed_envelope
payload_of (some v) = ok v

module _ (is_date : String → Bool) where
  abbrev pub timestamp_of : Option Json → Decoded String
  timestamp_of v = do s ← text_of v; if is_date s then ok s else err malformed_envelope

  -- The fields in the order of the checks; the result is the envelope that the assertion promises.
  unfoldable pub validate_fields : Fields → Decoded Envelope
  validate_fields fs = do
    id ← text_of (property "eventId" fs)
    kind ← text_of (property "eventType" fs)
    correlation ← text_of (property "correlationId" fs)
    causation ← text_of (property "causationId" fs)
    saga ← text_of (property "sagaId" fs)
    time ← timestamp_of (property "timestamp" fs)
    number ← version_of (property "version" fs)
    content ← payload_of (property "payload" fs)
    ok (record {
      event_id = id;
      event_type = kind;
      correlation_id = correlation;
      causation_id = causation;
      saga_id = saga;
      timestamp = time;
      version = number;
      payload = some content;
    })

  unfoldable pub validate_envelope : Json → Decoded Envelope
  validate_envelope (obj fs) = validate_fields fs
  validate_envelope _ = err malformed_envelope

abbrev with_payload : Option Json → Fields
with_payload none = end
with_payload (some v) = field "payload" v end

-- The canonical envelope as an object; `JSON.stringify` drops an undefined payload.
unfoldable pub to_fields : Envelope → Fields
to_fields e = field "eventId" (str e.event_id) (
    field "eventType" (str e.event_type) (
      field "correlationId" (str e.correlation_id) (
        field "causationId" (str e.causation_id) (
          field "sagaId" (str e.saga_id) (
            field "timestamp" (str e.timestamp)
              (field "version" (num e.version) (with_payload e.payload)))))))

-- `Number.isInteger(v) && v > 0`, negated.
abbrev pub is_invalid : Number → Bool
is_invalid (whole n) = n =ℕ 0
is_invalid _ = true

abbrev pub is_below : Number → ℕ → Bool
is_below (whole n) t = ltb n t
is_below (between n) t = ltb n t
is_below (negative n) t = true
is_below nan t = false

abbrev pub is_above : Number → ℕ → Bool
is_above (whole n) t = ltb t n
is_above (between n) t = leb t n
is_above _ t = false

abbrev pub is_equal : Number → ℕ → Bool
is_equal (whole n) t = n =ℕ t
is_equal _ t = false

-- `VersionUpgradeRegistry.getUpgrade`
abbrev pub Registry : Type 0
Registry = String → Number → Option (Envelope → Envelope)

-- The loop of `upgradeVersion`, `none` when the fuel runs out.
unfoldable pub upgrade_loop : Registry → ℕ → Envelope → ℕ → Option (Decoded Envelope)
upgrade_loop get_upgrade zero current target = none
upgrade_loop get_upgrade (suc fuel) current target =
    if is_below current.version target
    then elim (get_upgrade current.event_type current.version) [
      | none ↦ some (err (missing_upgrade_path current.version))
      | some upgrade ↦ upgrade_loop get_upgrade fuel (upgrade current) target
    ]
    else some (ok current)

unfoldable pub upgrade_version : Registry → ℕ → Envelope → ℕ → Option (Decoded Envelope)
upgrade_version get_upgrade fuel e target =
    if is_invalid e.version
    then some (err (unsupported_version e.version))
    else if is_above e.version current_event_version
    then some (err (unsupported_version e.version))
    else if is_equal e.version target
    then some (ok e)
    else upgrade_loop get_upgrade fuel e target

module _ (is_date : String → Bool) where
  -- `EventSerializer.serialize`: the envelope handed in is an object of unknown shape.
  unfoldable pub serialize : Json → Decoded Buffer
  serialize v = do
    e ← validate_envelope is_date v
    if is_invalid e.version || not (is_equal e.version current_event_version)
        then err (unsupported_version e.version)
        else ok (stringify (obj (to_fields e)))

  -- `EventSerializer.deserialize`, `none` when the upgrade loop runs out of fuel.
  unfoldable pub deserialize : Registry → ℕ → Buffer → Option (Decoded Envelope)
  deserialize get_upgrade fuel b = elim (parse b) [
    | none ↦ some (err deserialization)
    | some v ↦ elim (validate_envelope is_date v) [
      | ok e ↦ upgrade_version get_upgrade fuel e current_event_version
      | err x ↦ some (err x)
    ]
  ]
