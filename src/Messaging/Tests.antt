-- ===== src/Messaging/Tests.antt =====
-- Runs of the consumer and the serializer on concrete messages.
use surgepay.Messaging.Json.{
  malformed_text, is_blank, property, written, stringify, Buffer, whole, str, Json, obj, field, end,
  num,
}
use surgepay.Messaging.Inbox.{
  processed, prepare_for_replay, dlq_sent, Error, update_status, transition_status, record_received,
  Inbox, find_by_event_id_and_consumer, InboxStatus, InboxEvent, processing, failure,
}
use surgepay.Messaging.Consumer.{
  returned, refused, threw, Reply, run, handle, done, advance, step, Message, World, Worker,
  find_existing,
}
use surgepay.Messaging.Serializer.{
  upgrade_version, to_fields, validate_fields, ok, serialize, Registry, deserialize,
  validate_envelope, Envelope,
}
use surgepay.Common.{
  ◌==◌, if◌then◌else◌, Bool, String, List, ◌≢◌, update_where, refl, zero, arith, true, find, ◌∷◌,
  ◌≡◌, ◌≤◌, suc, Option, [], ℕ, none, some, count,
}
use surgepay.Messaging.Consumer.Exclusion.{
  steps, delivered, here, handling_exclusive, next, Reach, handling, System,
}
use surgepay.Messaging.Consumer.Commits.{commit_after_effect, IsHonest, settled}
use surgepay.Messaging.Inbox.Laws.{row, IsUnique}
use surgepay.Messaging.Consumer.Phases.{commit_of, at, own}
use surgepay.Messaging.Consumer.Termination.{run_ends, calls_left}
use surgepay.Messaging.Consumer.Faults.{
  processing_wedged, commit_failure_repeats_handler, HandledTwice,
}
use surgepay.Messaging.Consumer.Runs.{
  failing_event-Buried, later_failure, repeat, first_failure, Buried,
}
use surgepay.Messaging.Serializer.Laws.{deserialize-serialize}
use surgepay.Messaging.Producer.{acknowledged, publish, Answer, TopicMessages, Prepared}
use surgepay.Messaging.Replayer.{replayed, republish, replay, reread}
use surgepay.Messaging.Topics.{topic_of}
use surgepay.Messaging.Replayer.Laws.{replay-Carries, Carries}
use surgepay.Messaging.Consumer.Reset.{replayed_event_handled, prepared}

abbrev initiated : Envelope
initiated = record {
  event_id = "e-1";
  event_type = "PaymentInitiated";
  correlation_id = "c-1";
  causation_id = "r-1";
  saga_id = "s-1";
  timestamp = "2026-01-01T00:00:00Z";
  version = whole 1;
  payload = some (str "p");
}

abbrev delivered_message : Message
delivered_message = record { topic = "payments"; partition = 0; offset = 41; value = none }

abbrev worker : Worker
worker = record {
  group_id = "orders";
  retry_limit = 2;
  message = delivered_message;
  envelope = initiated;
  at = find_existing;
}

abbrev empty : World
empty = record { inbox = []; handled = []; dead_letters = []; commits = []; dlq_depth = 0 }

abbrev stored_event : InboxStatus → ℕ → InboxEvent
stored_event s retries = record {
  event_id = "e-1";
  consumer = "orders";
  status = s;
  received_at = 5;
  processed_at = none;
  retry_count = retries;
}

abbrev with_event : InboxStatus → ℕ → World
with_event s retries = record empty { inbox = stored_event s retries ∷ [] }

abbrev repeat_reply : ℕ → Reply → List Reply
repeat_reply zero r = []
repeat_reply (suc n) r = r ∷ repeat_reply n r

abbrev own_key : Inbox → Option InboxEvent
own_key = row "e-1" "orders"

-- The record that the first worker's calls leave, all of them taking effect.
abbrev alone : ℕ → Worker × World
alone zero = (worker, empty)
alone (suc n) = step 9 (alone n).0 done (alone n).1

abbrev idle : System
idle = record { workers = []; world = empty }

-- Two workers have got the same message, and the first one has made `n` calls.
abbrev moved : ℕ → System
moved n = record { workers = (alone n).0 ∷ worker ∷ []; world = (alone n).1 }

reached : (n : ℕ) → Reach idle (moved n)
reached zero =
    next {t = record { workers = worker ∷ []; world = empty }}
      (next {t = idle} here (delivered worker refl refl refl)) (delivered worker refl refl refl)
reached (suc n) =
    next {t = moved n} (reached n) (steps [] (worker ∷ []) (alone n).0 9 done refl refl refl)

is_unique : IsUnique "e-1" "orders" []
unfolding count
is_unique = omega arith

handling_exclusive_example : handling "e-1" "orders" (moved 4).workers ≤ 1
handling_exclusive_example =
    handling_exclusive "e-1" "orders" idle (moved 4) refl is_unique (reached 4)

-- The first worker does stand at the handler then.
handling_test : (alone 4).0.at ≡ handle
unfolding step advance find_by_event_id_and_consumer record_received transition_status find
    update_where count
handling_test = refl

honest : IsHonest "e-1" "orders" empty
unfolding find_by_event_id_and_consumer find
honest h = cc

commits_test : (step 9 (alone 6).0 done (moved 6).world).1.commits ≢ (moved 6).world.commits
unfolding step advance find_by_event_id_and_consumer record_received transition_status update_status
    find update_where count
commits_test e = cc

commit_after_effect_example : settled "e-1" "orders" (moved 6).world ≡ true
unfolding step
commit_after_effect_example =
    commit_after_effect idle (moved 6) [] (worker ∷ []) (alone 6).0 9 done refl is_unique honest
      (reached 6) refl commits_test

missing : own 9 worker empty ≡ none
unfolding find_by_event_id_and_consumer find
missing = refl

present :
    (s : InboxStatus) (retries : ℕ)
    → own 9 worker (with_event s retries) ≡ some (stored_event s retries)
unfolding find_by_event_id_and_consumer find
present s retries = refl

failing_event-Buried_example :
    Buried 9 worker empty
      (failure 7)
      (first_failure (failure 7) ∷ repeat 2 (later_failure (failure 7)))
failing_event-Buried_example = failing_event-Buried 9 worker (failure 7) empty missing

ends_test : calls_left (run 9 worker (repeat_reply 14 (refused (failure 3))) empty).0.at ≡ 0
ends_test = run_ends 9 (repeat_reply 14 (refused (failure 3))) worker empty (omega arith)

dead-IsUnique : IsUnique "e-1" "orders" (with_event dlq_sent 3).inbox
unfolding count
dead-IsUnique = omega arith

replayed_event_handled_example :
    (run 9 worker (done ∷ done ∷ []) (with_event dlq_sent 3) ≡ (
      at 9 worker returned,
      record (with_event dlq_sent 3) { commits = commit_of 9 worker ∷ [] },
    ))
    × ((prepare_for_replay (with_event dlq_sent 3).inbox "e-1" "orders").1 ≡ true)
    × ((u : Inbox) × (s : InboxEvent) × (run 9 worker
            (done ∷ done ∷ done ∷ done ∷ done ∷ done ∷ [])
            (prepared 9 worker (with_event dlq_sent 3))
          ≡ (
            at 9 worker returned,
            record (with_event dlq_sent 3) {
              inbox = u;
              handled = ("e-1", "orders") ∷ [];
              commits = commit_of 9 worker ∷ [];
            },
          ))
        × (own_key u ≡ some s)
        × (s.status ≡ processed)
        × (s.retry_count ≡ 0)
        × (s.processed_at ≡ some 9))
replayed_event_handled_example =
    replayed_event_handled 9 worker (with_event dlq_sent 3) (stored_event dlq_sent 3) dead-IsUnique
      (present dlq_sent 3) refl

wedged_test :
    (e : Error) × (run 9 worker (done ∷ done ∷ []) (with_event processing 0)
      ≡ (record worker { at = threw e }, with_event processing 0))
wedged_test =
    processing_wedged 9 worker (done ∷ []) done (with_event processing 0)
      (stored_event processing 0) (present processing 0) refl

commit_failure_repeats_handler_example : HandledTwice 9 worker empty (failure 3)
commit_failure_repeats_handler_example =
    commit_failure_repeats_handler 9 worker empty (failure 3) missing (omega arith)

-- The serializer, with a parser of dates that knows one date.
abbrev is_date : String → Bool
is_date s = s == "2026-01-01T00:00:00Z"

-- A registry of the upgrades of one event type.
abbrev raise_version : ℕ → Envelope → Envelope
raise_version n e = record e { version = whole n }

abbrev upgrades : Registry
upgrades kind (whole n) = if kind == "PaymentInitiated" then some (raise_version (suc n)) else none
upgrades kind _ = none

abbrev event_json : Json
event_json = obj (
    field "extra" (num (whole 3)) (
      field "eventId" (str "e-1") (
        field "eventType" (str "PaymentInitiated") (
          field "correlationId" (str "c-1") (
            field "causationId" (str "r-1") (
              field "sagaId" (str "s-1") (
                field "timestamp" (str "2026-01-01T00:00:00Z")
                  (field "version" (num (whole 1)) (field "payload" (str "p") end)))))))))

abbrev event_bytes : Buffer
event_bytes = stringify (obj (to_fields initiated))

serialize_test : serialize is_date event_json ≡ ok event_bytes
unfolding serialize validate_envelope validate_fields property is_blank to_fields
serialize_test = refl

deserialize_test : deserialize is_date upgrades 0 event_bytes ≡ some (ok initiated)
unfolding deserialize validate_envelope validate_fields property is_blank to_fields written
    upgrade_version
deserialize_test = refl

deserialize-serialize_example :
    (e : Envelope) × (p : Json) × (validate_envelope is_date event_json ≡ ok e)
    × (e.payload ≡ some p)
    × (deserialize is_date upgrades 0 event_bytes
        ≡ some (ok (record e { payload = some (written p) })))
deserialize-serialize_example =
    deserialize-serialize is_date upgrades 0 event_json event_bytes serialize_test

abbrev ready : String → String → Prepared
ready topic key = record { topic = topic; message = record { key = key; value = malformed_text } }

abbrev acknowledging : TopicMessages → Answer
acknowledging messages = acknowledged []

replayed_test : (replay is_date upgrades 0 acknowledging (some event_json)).1 ≡ replayed
unfolding replay republish publish serialize deserialize validate_envelope validate_fields property
    is_blank to_fields written upgrade_version topic_of
replayed_test = refl

replay-Carries_example :
    (e : Envelope) × (topic : String) × (reread is_date upgrades 0 (serialize is_date event_json)
      ≡ some (ok e))
    × (topic_of e.event_type ≡ some topic)
    × Carries is_date upgrades 0
        (replay is_date upgrades 0 acknowledging (some event_json)).0
        topic
        e
replay-Carries_example = replay-Carries is_date upgrades 0 acknowledging event_json replayed_test
