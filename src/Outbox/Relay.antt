-- ===== src/Outbox/Relay.antt =====
-- apps/outbox-relay/src/relay.service.ts. `processBatch` is cut at its awaits: a cycle begins with
-- the recovery of stale claims, polls while there is capacity, and each batch in flight settles on
-- its own, also after the cycle that spawned it has ended, since `Promise.all` rejects early. One
-- cycle runs at a time (Outbox/Scheduler). Gauges, logs and metrics are left out.

pub mod Capacity
pub mod Cycles
pub mod Delivery
pub mod History
pub mod Tests
use surgepay.Common.{
  ◌==◌, All, [], ◌++◌, ◌+◌, ltb, ◌∷◌, leb, ◌≡◌, length, Bool, not, ◌-◌, if◌then◌else◌, String, ℕ,
  false, true, List,
}
use surgepay.Outbox.Repository.{
  mark_published_batch, pending, ids_of, Metadata, mark_failed_batch, OutboxEvent, recover_stale,
  claim_pending, Outbox,
}
use surgepay.Outbox.Publisher.{delivered, rejected, publish_events, Publication}
use surgepay.Messaging.Producer.{Answer, TopicMessages}

pub record Config : Type 0 where
  pub stale_timeout : ℕ
  pub retry_limit : ℕ
  pub batch_size : ℕ
  pub max_in_flight : ℕ

-- `activePromises` as the events of each batch; `polling` while the loop of a cycle goes on.
pub record Relay : Type 0 where
  pub outbox : Outbox
  pub active_in_flight : ℕ
  pub flights : List (List OutboxEvent)
  pub polling : Bool
  pub batches_spawned : ℕ

abbrev pub max_batches_per_cycle : ℕ
max_batches_per_cycle = 10

-- What the database answers to a claim: a failure, or the claim at a time, past the rows that other
-- transactions hold.
pub data Poll : Type 0 where
  poll_failed : Poll
  polled : (String → Bool) → ℕ → Poll

-- The recovery at the head of a cycle, whose failure is only logged.
pub data Recovery : Type 0 where
  recovery_failed : Recovery
  recovered : (String → Bool) → ℕ → Recovery

abbrev pub recover : Config → Recovery → Outbox → Outbox
recover config recovery_failed t = t
recover config (recovered locked now) t =
    recover_stale locked now config.stale_timeout config.retry_limit t

unfoldable pub begin_cycle : Config → Recovery → Relay → Relay
begin_cycle config recovery s = record s {
  outbox = recover config recovery s.outbox;
  polling = true;
  batches_spawned = 0;
}

abbrev pub stop : Relay → Relay
stop s = record s { polling = false }

-- `Math.min(batchSize, maxInFlight - activeInFlight)`
abbrev pub batch_limit : Config → Relay → ℕ
batch_limit config s =
    let capacity = config.max_in_flight - s.active_in_flight in
    if leb config.batch_size capacity then config.batch_size else capacity

-- A batch that is not full ends the loop.
abbrev pub spawn : ℕ → Outbox → List OutboxEvent → Relay → Relay
spawn limit t [] s = record s { outbox = t; polling = false }
spawn limit t (e ∷ es) s = record s {
  outbox = t;
  active_in_flight = s.active_in_flight + length (e ∷ es);
  flights = s.flights ++ (e ∷ es) ∷ [];
  polling = not (ltb (length (e ∷ es)) limit);
  batches_spawned = s.batches_spawned + 1;
}

abbrev pub claim_batch : Config → Poll → Relay → Relay
claim_batch config poll_failed s = stop s
claim_batch config (polled locked now) s =
    let limit = batch_limit config s in
    let (t, events) = claim_pending locked now limit s.outbox in spawn limit t events s

-- One round of the loop of `processBatch`.
unfoldable pub poll_once : Config → Poll → Relay → Relay
poll_once config answer s =
    if not s.polling
    then s
    else if not (ltb s.batches_spawned max_batches_per_cycle)
    then stop s
    else if leb config.max_in_flight s.active_in_flight
    then stop s
    else claim_batch config answer s

-- How the database takes the two bulk updates of a batch, and when. A failed update changes nothing.
pub record Updates : Type 0 where
  pub now : ℕ
  pub takes_published : Bool
  pub takes_failed : Bool

abbrev pub fail_events : Config → Updates → List OutboxEvent → Outbox → Outbox
fail_events config updates events t =
    if updates.takes_failed then mark_failed_batch config.retry_limit (ids_of events) t else t

-- `runPublish` after the publisher's answer; a published batch that cannot be marked is failed.
unfoldable pub finish_publish :
    Config → Updates → List OutboxEvent → Publication (List Metadata) → Outbox → Outbox
finish_publish config updates events (rejected x) t = fail_events config updates events t
finish_publish config updates events (delivered places) t =
    if updates.takes_published
    then mark_published_batch updates.now places t
    else fail_events config updates events t

-- `finally`: the batch leaves the set of active promises.
abbrev pub land :
    Outbox → List (List OutboxEvent) → List OutboxEvent → List (List OutboxEvent) → Relay → Relay
land t before events after s = record s {
  outbox = t;
  active_in_flight = s.active_in_flight - length events;
  flights = before ++ after;
}

module _ (is_date : String → Bool) (config : Config) where
  -- The whole of `runPublish` for one batch in flight.
  unfoldable pub run_publish :
      (List TopicMessages → Answer) → Updates → List OutboxEvent → Outbox → Outbox
  run_publish broker updates events t =
      finish_publish config updates events (publish_events is_date broker events).1 t

  -- The steps of the relay and of the writer of the table, the payment service, in any interleaving.
  pub data Step : Relay → Relay → Type 0 where
    begins :
        {s : Relay} (recovery : Recovery)
        → s.polling ≡ false
        → Step s (begin_cycle config recovery s)
    polls : {s : Relay} (answer : Poll) → Step s (poll_once config answer s)
    settles :
        {s : Relay} (broker : List TopicMessages → Answer) (updates : Updates)
        (before after : List (List OutboxEvent)) (events : List OutboxEvent)
        → s.flights ≡ before ++ events ∷ after
        → Step s (land (run_publish broker updates events s.outbox) before events after s)
    inserts :
        {s : Relay} (e : OutboxEvent)
        → e.status ≡ pending
        → All (λ x. (x.id == e.id) ≡ false) s.outbox
        → Step s (record s { outbox = e ∷ s.outbox })

  pub data Steps : Relay → Relay → Type 0 where
    here : {s : Relay} → Steps s s
    then_step : {s t u : Relay} → Steps s t → Step t u → Steps s u
