-- ===== src/Messaging/Consumer.antt =====
-- packages/common/src/messaging/consumer.ts: what `eachMessage` does with one message, cut at its
-- `await`s. A worker is suspended at a program point; one step makes the call it stands at, whose
-- reply the environment chooses, and runs on to the next call. Logging, tracing and the counters of
-- `metricsService` are left out; the gauge of the dead letter queue's depth is kept.
pub mod Locking
pub mod Phases
pub mod Runs
pub mod Termination
pub mod Faults
pub mod Reset
pub mod Commits
pub mod Exclusion
use surgepay.Common.{
  ℕ, zero, suc, ◌+◌, String, Bool, Option, none, some, List, [], ◌∷◌, leb, if◌then◌else◌,
}
use mathlib.Core.Option
use surgepay.Messaging.Json.{Buffer}
use surgepay.Messaging.Serializer.{Envelope, Decoded, SerializationError, Registry, deserialize}
use surgepay.Messaging.Inbox.{
  InboxStatus, received, processing, processed, failed, retrying, dlq_sent, InboxEvent, Inbox,
  Error, unique_constraint, in_progress, Result, ok, err, find_by_event_id_and_consumer,
  record_received, transition_status, update_status, count_dlq_depth,
}

-- A message of Kafka; `value` is `none` for a tombstone.
pub record Message : Type 0 where
  pub topic : String
  pub partition : ℕ
  pub offset : ℕ
  pub value : Option Buffer

-- packages/common/src/messaging/dead-letter.types.ts, without the time stamp and the reason's text.
pub record DeadLetterRecord : Type 0 where
  pub original_event : Envelope
  pub failure_reason : Error
  pub retry_count : ℕ
  pub consumer : String

pub record Commit : Type 0 where
  pub topic : String
  pub partition : ℕ
  pub offset : ℕ

-- What the calls change: the inbox table, the events that a handler ran on with its consumer group,
-- the records published to `payments.dlq`, the committed offsets, and the depth gauge.
pub record World : Type 0 where
  pub inbox : Inbox
  pub handled : List (String × String)
  pub dead_letters : List DeadLetterRecord
  pub commits : List Commit
  pub dlq_depth : ℕ

-- The point where `runConsumer` waits. An argument is what the code holds in a variable there.
pub data Point : Type 0 where
  find_existing insert find_collided claim reload find_current : Point
  handle mark_processed commit_processed commit_skip : Point
  load_record : Error → Point
  mark_retrying : ℕ → Error → Point
  publish_dlq : ℕ → Error → Point
  mark_dlq_sent : ℕ → Point
  sync_depth commit_dlq : ℕ → Point
  mark_failed : ℕ → Error → Point
  returned : Point
  threw : Error → Point

pub record Worker : Type 0 where
  pub group_id : String
  pub retry_limit : ℕ
  pub message : Message
  pub envelope : Envelope
  pub at : Point

-- How the environment answers a call: it takes effect; it is rejected with no effect; or it takes
-- effect and the caller is told of a failure all the same.
pub data Reply : Type 0 where
  done : Reply
  refused unconfirmed : Error → Reply

-- A call in the world `w` that, left alone, gives a value and the world after it, or an error.
abbrev pub call {ℓ} : {A : Type ℓ} → Reply → World → Result (A × World) → Result A × World
call done w (ok (a, w')) = (ok a, w')
call done w (err e) = (err e, w)
call (refused e) w result = (err e, w)
call (unconfirmed e) w (ok (a, w')) = (err e, w')
call (unconfirmed e) w (err x) = (err x, w)

-- `await` with the continuations on success and on rejection.
abbrev pub await {ℓ} :
    {A : Type ℓ} → Result A × World → (A → Point) → (Error → Point) → Point × World
await (ok a, w) go catch = (go a, w)
await (err e, w) go catch = (catch e, w)

abbrev stored : World → Result Inbox → Result (Unit {0} × World)
stored w (ok t) = ok (tt, record w { inbox = t })
stored w (err e) = err e

-- What the status of a row that is already there leads to: skip, refuse, or go on and claim it.
abbrev judge : InboxStatus → Point
judge processed = commit_skip
judge dlq_sent = commit_skip
judge processing = threw in_progress
judge _ = claim

abbrev after_existing : Option InboxEvent → Point
after_existing none = insert
after_existing (some r) = judge r.status

abbrev after_collided : Option InboxEvent → Point
after_collided none = claim
after_collided (some r) = judge r.status

-- `isPrismaUniqueConstraintError`
abbrev after_insert_error : Error → Point
after_insert_error unique_constraint = find_collided
after_insert_error e = threw e

-- `result.count === 0` ends `transitionStatus` with null, and otherwise it reads the row back.
abbrev after_claim : ℕ → Point
after_claim zero = find_current
after_claim (suc _) = reload

abbrev after_reload : Option InboxEvent → Point
after_reload none = find_current
after_reload (some _) = handle

abbrev after_current : Option InboxEvent → Point
after_current none = threw in_progress
after_current (some r) = elim (judge r.status) [ commit_skip ↦ commit_skip | _ ↦ threw in_progress ]

-- `(currentRecord?.retryCount ?? 0) + 1`
abbrev next_retry : Option InboxEvent → ℕ
next_retry none = 1
next_retry (some r) = suc r.retry_count

-- The two branches on `newRetryCount <= limit`.
abbrev after_load : ℕ → Error → Option InboxEvent → Point
after_load limit e found =
    if leb (next_retry found) limit
    then mark_retrying (next_retry found) e
    else publish_dlq (next_retry found) e

abbrev pub claimable : List InboxStatus
claimable = received ∷ retrying ∷ failed ∷ []

-- One call of `runConsumer` for the event of `v`, at the point `p`.
module _ (now : ℕ) (v : Worker) (r : Reply) (w : World) where
  abbrev id : String
  id = v.envelope.event_id

  abbrev look : Result (Option InboxEvent × World)
  look = ok (find_by_event_id_and_consumer w.inbox id v.group_id, w)

  abbrev claimed : Result (ℕ × World)
  claimed =
      let (t, n) = transition_status w.inbox id v.group_id claimable processing in
      ok (n, record w { inbox = t })

  abbrev written : InboxStatus → Option ℕ → Result (Unit {0} × World)
  written s retry = stored w (update_status now w.inbox id v.group_id s retry)

  -- `commitOffset(topic, partition, BigInt(message.offset) + 1n)`
  abbrev committed : Result (Unit {0} × World)
  committed = ok (
    tt,
    record w {
      commits =
          record {
            topic = v.message.topic;
            partition = v.message.partition;
            offset = v.message.offset + 1;
          }
          ∷ w.commits;
    },
  )

  abbrev handled_once : Result (Unit {0} × World)
  handled_once = ok (tt, record w { handled = (id, v.group_id) ∷ w.handled })

  abbrev published : ℕ → Error → Result (Unit {0} × World)
  published n e = ok (
    tt,
    record w {
      dead_letters =
          record {
            original_event = v.envelope;
            failure_reason = e;
            retry_count = n;
            consumer = v.group_id;
          }
          ∷ w.dead_letters;
    },
  )

  abbrev measured : Result (ℕ × World)
  measured = ok (count_dlq_depth w.inbox v.group_id, w)

  -- `syncDlqDepth` swallows a failure.
  abbrev gauged : Result ℕ × World → World
  gauged (ok depth, w') = record w' { dlq_depth = depth }
  gauged (err _, w') = w'

  unfoldable pub advance : Point → Point × World
  advance find_existing = await (call r w look) after_existing threw
  advance insert =
      await (call r w (stored w (record_received now w.inbox id v.group_id))) (λ _. claim)
        after_insert_error
  advance find_collided = await (call r w look) after_collided threw
  advance claim = await (call r w claimed) after_claim threw
  advance reload = await (call r w look) after_reload threw
  advance find_current = await (call r w look) after_current threw
  advance commit_skip = await (call r w committed) (λ _. returned) threw
  advance handle = await (call r w handled_once) (λ _. mark_processed) load_record
  advance mark_processed =
      await (call r w (written processed none)) (λ _. commit_processed) load_record
  advance commit_processed = await (call r w committed) (λ _. returned) load_record
  advance (load_record e) = await (call r w look) (after_load v.retry_limit e) threw
  advance (mark_retrying n e) = await (call r w (written retrying (some n))) (λ _. threw e) threw
  advance (publish_dlq n e) =
      await (call r w (published n e)) (λ _. mark_dlq_sent n) (mark_failed n)
  advance (mark_dlq_sent n) =
      await (call r w (written dlq_sent (some n))) (λ _. sync_depth n) (mark_failed n)
  advance (sync_depth n) = (commit_dlq n, gauged (call r w measured))
  advance (commit_dlq n) = await (call r w committed) (λ _. returned) (mark_failed n)
  advance (mark_failed n e) = await (call r w (written failed (some n))) (λ _. threw e) threw
  advance returned = (returned, w)
  advance (threw e) = (threw e, w)

unfoldable pub step : ℕ → Worker → Reply → World → Worker × World
unfolding advance
step now v r w = let (p, w') = advance now v r w v.at in (record v { at = p }, w')

-- What `eachMessage` makes of a message before its first call.
pub data Delivery : Type 0 where
  skipped : Delivery
  undecodable : SerializationError → Delivery
  started : Worker → Delivery

abbrev begun : String → ℕ → Message → Decoded Envelope → Delivery
begun group limit m (Decoded.err x) = undecodable x
begun group limit m (Decoded.ok e) = started (record {
  group_id = group;
  retry_limit = limit;
  message = m;
  envelope = e;
  at = find_existing;
})

-- A tombstone is skipped with no commit, and an undecodable message throws at once.
module _ (is_date : String → Bool) (get_upgrade : Registry) (fuel : ℕ) where
  unfoldable pub receive : String → ℕ → Message → Option Delivery
  receive group limit m = elim m.value [
    | none ↦ some skipped
    | some b ↦ Option.map (begun group limit m) (deserialize is_date get_upgrade fuel b)
  ]

-- A run of one worker alone, with the replies of the calls in order.
unfoldable pub run : ℕ → Worker → List Reply → World → Worker × World
unfolding step
run now v [] w = (v, w)
run now v (r ∷ rs) w = let (v', w') = step now v r w in run now v' rs w'
