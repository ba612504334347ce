-- ===== src/Outbox/Relay/Capacity.antt =====
-- The in-flight count of the relay against the batches in flight and the configured maximum.
use surgepay.Outbox.Relay.{
  stop, poll_failed, inserts, settles, max_batches_per_cycle, polls, spawn, begins, recovery_failed,
  here, batch_limit, land, polled, Step, fail_events, then_step, claim_batch, run_publish,
  recovered, Steps, Poll, Recovery, Updates, Relay, begin_cycle, poll_once, Config, finish_publish,
}
use surgepay.Common.{
  not, either_branch, leb, ap, ltb, [], ◌∙◌, arith, length, ◌+◌, ◌≤◌, ◌∷◌, ◌≡◌, ◌++◌, ℕ, Bool, List,
  String,
}
use surgepay.Outbox.Repository.{ids_of, Metadata, OutboxEvent, Outbox}
use surgepay.Outbox.Publisher.{delivered, rejected, Publication}
use surgepay.Outbox.Recovery.{HasDistinctIds}
use surgepay.Outbox.Sizes.{
  length-claim_pending, mark_published_batch-HasDistinctIds, claim_pending-HasDistinctIds,
  mark_failed_batch-HasDistinctIds, recover_stale-HasDistinctIds,
}

-- Events in flight over all batches.
abbrev pub in_flight : List (List OutboxEvent) → ℕ
in_flight [] = 0
in_flight (events ∷ rest) = length events + in_flight rest

in_flight-append :
    (before after : List (List OutboxEvent))
    → in_flight (before ++ after) ≡ in_flight before + in_flight after
in_flight-append [] after = omega arith
in_flight-append (events ∷ before) after = omega (arith, in_flight-append before after)

abbrev pub IsBounded : Config → Relay → Type 0
IsBounded config s =
    HasDistinctIds s.outbox
    × (s.active_in_flight ≡ in_flight s.flights)
    × (s.active_in_flight ≤ config.max_in_flight)

begin_cycle-IsBounded :
    (config : Config) (recovery : Recovery) (s : Relay)
    → IsBounded config s
    → IsBounded config (begin_cycle config recovery s)
unfolding begin_cycle
begin_cycle-IsBounded config recovery_failed s h = h
begin_cycle-IsBounded config (recovered locked now) s (distinct, h, k) = (
  recover_stale-HasDistinctIds locked now config.stale_timeout config.retry_limit s.outbox distinct,
  h,
  k,
)

spawn-IsBounded :
    (config : Config) (limit : ℕ) (t : Outbox) (events : List OutboxEvent) (s : Relay)
    → HasDistinctIds t
    → s.active_in_flight ≡ in_flight s.flights
    → s.active_in_flight + limit ≤ config.max_in_flight
    → length events ≤ limit
    → IsBounded config (spawn limit t events s)
spawn-IsBounded config limit t [] s distinct h k l = (distinct, h, omega arith)
spawn-IsBounded config limit t (e ∷ es) s distinct h k l =
    (distinct, omega (arith, in_flight-append s.flights ((e ∷ es) ∷ [])), omega arith)

claim_batch-IsBounded :
    (config : Config) (answer : Poll) (s : Relay)
    → IsBounded config s
    → IsBounded config (claim_batch config answer s)
claim_batch-IsBounded config poll_failed s h = h
claim_batch-IsBounded config (polled locked now) s (distinct, h, k) =
    let limit = batch_limit config s in
    let room : s.active_in_flight + limit ≤ config.max_in_flight = ground arith in
    spawn-IsBounded config limit _ _ s
      (claim_pending-HasDistinctIds locked now limit s.outbox distinct) h room
      (length-claim_pending locked now limit s.outbox distinct)

poll_once-IsBounded :
    (config : Config) (answer : Poll) (s : Relay)
    → IsBounded config s
    → IsBounded config (poll_once config answer s)
unfolding poll_once
poll_once-IsBounded config answer s h = either_branch (IsBounded config) (not s.polling) s _ h (
    either_branch (IsBounded config) (not (ltb s.batches_spawned max_batches_per_cycle)) (stop s) _
      h
      (either_branch (IsBounded config) (leb config.max_in_flight s.active_in_flight) (stop s) _ h
        (claim_batch-IsBounded config answer s h)))

fail_events-HasDistinctIds :
    (config : Config) (updates : Updates) (events : List OutboxEvent) (t : Outbox)
    → HasDistinctIds t
    → HasDistinctIds (fail_events config updates events t)
fail_events-HasDistinctIds config updates events t h =
    either_branch HasDistinctIds updates.takes_failed _ t
      (mark_failed_batch-HasDistinctIds config.retry_limit (ids_of events) t h) h

finish_publish-HasDistinctIds :
    (config : Config) (updates : Updates) (events : List OutboxEvent)
    (answer : Publication (List Metadata)) (t : Outbox)
    → HasDistinctIds t
    → HasDistinctIds (finish_publish config updates events answer t)
unfolding finish_publish
finish_publish-HasDistinctIds config updates events (rejected x) t h =
    fail_events-HasDistinctIds config updates events t h
finish_publish-HasDistinctIds config updates events (delivered places) t h =
    either_branch HasDistinctIds updates.takes_published _ _
      (mark_published_batch-HasDistinctIds updates.now places t h)
      (fail_events-HasDistinctIds config updates events t h)

land-IsBounded :
    (config : Config) (t : Outbox) (before after : List (List OutboxEvent))
    (events : List OutboxEvent) (s : Relay)
    → s.flights ≡ before ++ events ∷ after
    → HasDistinctIds t
    → IsBounded config s
    → IsBounded config (land t before events after s)
land-IsBounded config t before after events s split distinct (_, h, k) =
    let total : s.active_in_flight ≡ in_flight (before ++ events ∷ after) =
      h ∙ ap in_flight split in
    (
      distinct,
      omega (arith, total, in_flight-append before (events ∷ after), in_flight-append before after),
      omega arith,
    )

module _ (is_date : String → Bool) (config : Config) where
  Step-IsBounded : (s t : Relay) → IsBounded config s → Step is_date config s t → IsBounded config t
  unfolding run_publish
  Step-IsBounded s t h (begins recovery idle) = begin_cycle-IsBounded config recovery s h
  Step-IsBounded s t h (polls answer) = poll_once-IsBounded config answer s h
  Step-IsBounded s t h (settles broker updates before after events split) =
      land-IsBounded config _ before after events s split
        (finish_publish-HasDistinctIds config updates events _ s.outbox h.0) h
  Step-IsBounded s t h (inserts e new fresh) = ((fresh, h.0), h.1, h.2)

  -- The in-flight count is the number of events in flight, over all batches of all cycles, and never
  -- exceeds the configured maximum, however cycles, settling batches and insertions interleave and
  -- whatever fails.
  pub steps-IsBounded :
      (s t : Relay) → IsBounded config s → Steps is_date config s t → IsBounded config t
  steps-IsBounded s t h here = h
  steps-IsBounded s t h (then_step run step) = Step-IsBounded _ t (steps-IsBounded s _ h run) step
