-- ===== src/Outbox/Relay/Tests.antt =====
-- A cycle of the relay over a small table: one claim, one batch that the broker acknowledges, an
-- insertion meanwhile.
use surgepay.Outbox.Relay.{
  inserts, settles, polls, begins, recovered, here, then_step, finish_publish, land, begin_cycle,
  polled, Updates, Config, run_publish, Steps, poll_once, Relay,
}
use surgepay.Common.{
  ◌==◌, arith, All, map, find, ◌++◌, ◌≡◌, update_where, keep, refl, some, false, [], ◌∷◌, Bool, ℕ,
  true, List, String,
}
use surgepay.Messaging.Producer.{
  add_message, group_onto, messages_by_topic, prepare, prepare_all, publish_batch, acknowledged,
  Answer, TopicMessages,
}
use surgepay.Messaging.Json.{is_space, is_blank, property, end, whole, num, str, field, obj, Json}
use surgepay.Outbox.Repository.{
  mark_failed_batch, published, mark_published_batch, insert_by_age, by_age, select_pending,
  claim_pending, pending, recover_each, recover_stale, start_attempt, OutboxEvent,
}
use surgepay.Outbox.Drain.{unlocked}
use surgepay.Outbox.Publisher.{metadata_of, item_of, items_of, publish_events}
use surgepay.Outbox.Tests.{event}
use surgepay.Messaging.Topics.{topic_of}
use surgepay.Messaging.Serializer.{validate_fields, validate_envelope, serialize}
use surgepay.Outbox.Relay.History.{steps-WithinBudget, steps-Extends, Extends}
use surgepay.Outbox.Relay.Capacity.{steps-IsBounded, IsBounded}
use surgepay.Outbox.Scheduler.{
  on_signals-HasOneLoop, initial, on_application_bootstrap, shuts_down, cycle_ends, fires,
  on_signals, HasOneLoop,
}
use surgepay.Outbox.Lifecycle.{WithinBudget}
use surgepay.Outbox.Relay.Delivery.{published_after_acknowledged, run_ids, IsConfirmed}

abbrev any_date : String → Bool
any_date text = true

abbrev envelope : String → Json
envelope id = obj (
    field "eventId" (str id) (
      field "eventType" (str "PaymentInitiated") (
        field "correlationId" (str "c-1") (
          field "causationId" (str "c-1") (
            field "sagaId" (str "s-1") (
              field "timestamp" (str "now")
                (field "version" (num (whole 1)) (field "payload" (str "paid") end))))))))

abbrev ready_event : String → ℕ → OutboxEvent
ready_event id at = record (event id pending 0 at) { payload = envelope id }

abbrev limits : Config
limits = record { stale_timeout = 1000; retry_limit = 5; batch_size = 2; max_in_flight = 3 }

abbrev start : Relay
start = record {
  outbox = ready_event "a" 10 ∷ ready_event "b" 5 ∷ ready_event "c" 7 ∷ [];
  active_in_flight = 0;
  flights = [];
  polling = false;
  batches_spawned = 0;
}

abbrev begun : Relay
begun = begin_cycle limits (recovered unlocked 2000) start

abbrev spawned : Relay
spawned = poll_once limits (polled unlocked 2000) begun

abbrev broker : List TopicMessages → Answer
broker messages =
    acknowledged
      (record { topic_name = "payments.initiated"; partition = 1; offset = some "7" } ∷ [])

abbrev updates : Updates
updates = record { now = 2100; takes_published = true; takes_failed = true }

abbrev batch : List OutboxEvent
batch = start_attempt 2000 (ready_event "b" 5) ∷ start_attempt 2000 (ready_event "c" 7) ∷ []

in_batch_order : spawned.flights ≡ [] ++ batch ∷ []
unfolding poll_once begin_cycle recover_stale recover_each claim_pending select_pending by_age
    insert_by_age keep update_where
in_batch_order = refl

abbrev landed : Relay
landed = land (run_publish any_date limits broker updates batch spawned.outbox) [] batch [] spawned

first_steps : Steps any_date limits start landed
first_steps =
    then_step
      (then_step (then_step here (begins (recovered unlocked 2000) refl))
        (polls (polled unlocked 2000)))
      (settles broker updates [] [] batch in_batch_order)

published_test : map (λ r. r.status) landed.outbox ≡ pending ∷ published ∷ published ∷ []
unfolding run_publish finish_publish publish_events items_of item_of topic_of publish_batch
    prepare_all prepare serialize validate_envelope validate_fields property messages_by_topic
    group_onto add_message metadata_of mark_published_batch poll_once begin_cycle recover_stale
    recover_each claim_pending select_pending by_age insert_by_age keep update_where find is_blank
    is_space
published_test = refl

abbrev after_insertion : Relay
after_insertion = record landed { outbox = ready_event "d" 20 ∷ landed.outbox }

fresh_d : All (λ x. (x.id == "d") ≡ false) landed.outbox
unfolding run_publish finish_publish mark_published_batch mark_failed_batch poll_once begin_cycle
    recover_stale recover_each claim_pending update_where publish_events items_of item_of topic_of
    publish_batch prepare_all prepare serialize validate_envelope validate_fields property
    messages_by_topic group_onto add_message metadata_of select_pending by_age insert_by_age keep
    find is_blank is_space
fresh_d = (refl, (refl, (refl, tt)))

run_of_relay : Steps any_date limits start after_insertion
run_of_relay = then_step first_steps (inserts (ready_event "d" 20) refl fresh_d)

start-IsBounded : IsBounded limits start
start-IsBounded = (((refl, (refl, tt)), ((refl, tt), (tt, tt))), refl, omega arith)

steps-IsBounded_example : IsBounded limits after_insertion
steps-IsBounded_example =
    steps-IsBounded any_date limits start after_insertion start-IsBounded run_of_relay

start-IsConfirmed : All (IsConfirmed []) start.outbox
start-IsConfirmed = (λ e. cc, (λ e. cc, (λ e. cc, tt)))

published_after_acknowledged_example :
    All
      (IsConfirmed (run_ids any_date limits start after_insertion run_of_relay ++ []))
      after_insertion.outbox
published_after_acknowledged_example =
    published_after_acknowledged any_date limits [] start after_insertion run_of_relay
      start-IsConfirmed

steps-Extends_example : Extends start.outbox after_insertion.outbox
steps-Extends_example =
    steps-Extends any_date limits start after_insertion start-IsBounded run_of_relay

start-WithinBudget : All (WithinBudget 5) start.outbox
start-WithinBudget = ground arith

steps-WithinBudget_example : All (WithinBudget 5) after_insertion.outbox
steps-WithinBudget_example =
    steps-WithinBudget any_date limits start after_insertion start-WithinBudget run_of_relay

on_signals-HasOneLoop_example : HasOneLoop (
    on_signals
      (fires 0 ∷ cycle_ends ∷ fires 1 ∷ shuts_down ∷ cycle_ends ∷ [])
      (on_application_bootstrap initial))
on_signals-HasOneLoop_example =
    on_signals-HasOneLoop (fires 0 ∷ cycle_ends ∷ fires 1 ∷ shuts_down ∷ cycle_ends ∷ [])
