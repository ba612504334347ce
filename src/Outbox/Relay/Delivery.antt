-- ===== src/Outbox/Relay/Delivery.antt =====
-- Delivery: a row is PUBLISHED only after the broker acknowledged its batch.

use surgepay.Outbox.Repository.{
  metadata_for, publish_listed, is_listed, ids_of, published, is_among, OutboxEvent, Metadata,
  mark_failed_batch, Outbox, claim_pending, mark_published_batch,
}
use surgepay.Common.{
  append_assoc, leb, ltb, not, eq_iff, sym, inr, subst, inl, Bool-cases, Option-cases, some, ◌==◌,
  refl, either_branch, [], arith, ◌∷◌, ◌∙◌, true, ◌||◌, All-update_where, All-map, All, ℕ, ◌≡◌,
  ◌++◌, Bool, List, String, find,
}
use surgepay.Outbox.Publisher.{rejected, delivered, publish_events, Publication}
use surgepay.Messaging.Producer.{RecordMetadata, acknowledged, TopicMessages, Answer}
use surgepay.Outbox.Relay.{
  poll_failed, inserts, stop, polls, batch_limit, max_batches_per_cycle, begins, polled,
  claim_batch, run_publish, finish_publish, begin_cycle, poll_once, here, recovery_failed, spawn,
  Poll, Config, then_step, settles, recovered, Step, fail_events, recover, Steps, Relay, Recovery,
  Updates,
}
use surgepay.Outbox.Lifecycle.{recover_stale-All}
use surgepay.Outbox.Publisher.Places.{publish_events-All, publish_events-acknowledged}

-- The ids of a batch that was published: its messages were handed to the broker, which acknowledged.
abbrev pub confirmed : Publication (List Metadata) → Answer → List OutboxEvent → List String
confirmed (delivered _) (acknowledged _) events = ids_of events
confirmed _ _ events = []

module _ (is_date : String → Bool) where
  abbrev pub acknowledged_ids : (List TopicMessages → Answer) → List OutboxEvent → List String
  acknowledged_ids broker events =
      let (messages, result) = publish_events is_date broker events in
      confirmed result (broker messages) events

  module _ (config : Config) where
    abbrev pub step_ids : (s t : Relay) → Step is_date config s t → List String
    step_ids s t (settles broker updates before after events split) = acknowledged_ids broker events
    step_ids s t _ = []

    -- Every id that the broker acknowledged in a run.
    abbrev pub run_ids : (s t : Relay) → Steps is_date config s t → List String
    run_ids s t here = []
    run_ids s t (then_step run step) = step_ids _ t step ++ run_ids s _ run

-- A row that is PUBLISHED is among the ids.
abbrev pub IsConfirmed : List String → OutboxEvent → Type 0
IsConfirmed ids r = r.status ≡ published → is_among ids r.id ≡ true

among-append :
    (ids more : List String) (key : String)
    → is_among (ids ++ more) key ≡ (is_among ids key || is_among more key)
among-append [] more key = refl
among-append (i ∷ ids) more key = ground (arith, among-append ids more key)

IsConfirmed-append :
    (ids more : List String) (t : Outbox)
    → All (IsConfirmed more) t
    → All (IsConfirmed (ids ++ more)) t
IsConfirmed-append ids more t h =
    All-map _ _ (λ r k. λ e. among-append ids more r.id ∙ ground (arith, k e)) t h

-- Where the rows that are PUBLISHED are confirmed, an operation that publishes none keeps them so.
module _ (ids : List String) where
  recover-IsConfirmed :
      (config : Config) (recovery : Recovery) (t : Outbox)
      → All (IsConfirmed ids) t
      → All (IsConfirmed ids) (recover config recovery t)
  recover-IsConfirmed config recovery_failed t h = h
  recover-IsConfirmed config (recovered locked now) t h =
      recover_stale-All (IsConfirmed ids) config.retry_limit (λ e r k. ground arith) locked now
        config.stale_timeout t h

  claim_pending-IsConfirmed :
      (locked : String → Bool) (now batch_size : ℕ) (t : Outbox)
      → All (IsConfirmed ids) t
      → All (IsConfirmed ids) (claim_pending locked now batch_size t).0
  unfolding claim_pending
  claim_pending-IsConfirmed locked now batch_size t h =
      All-update_where (IsConfirmed ids) _ _ (λ r k e. ground arith) t h

  fail_events-IsConfirmed :
      (config : Config) (updates : Updates) (events : List OutboxEvent) (t : Outbox)
      → All (IsConfirmed ids) t
      → All (IsConfirmed ids) (fail_events config updates events t)
  unfolding mark_failed_batch
  fail_events-IsConfirmed config updates events t h =
      either_branch (All (IsConfirmed ids)) updates.takes_failed _ t
        (All-update_where (IsConfirmed ids) _ _ (λ r k e. ground arith) _
          (All-update_where (IsConfirmed ids) _ _ (λ r k e. ground arith) t h))
        h

-- A batch whose places name only its own events publishes only rows of the batch.
find-among :
    (events : List OutboxEvent) (places : List Metadata) (key : String) (m : Metadata)
    → All (λ x. is_among (ids_of events) x.id ≡ true) places
    → find (λ x. key == x.id) places ≡ some m
    → is_among (ids_of events) key ≡ true
unfolding find
find-among events [] key m h k = cc
find-among events (x ∷ xs) key m (h, hs) k = elim (Bool-cases (key == x.id)) [
  | inl same ↦ subst (λ i. is_among (ids_of events) i ≡ true) (sym ((eq_iff key x.id).0 same)) h
  | inr other ↦ ground (arith, other, find-among events xs key m hs)
]

mark_published_batch-IsConfirmed :
    (events : List OutboxEvent) (places : List Metadata) (now : ℕ) (ids : List String) (t : Outbox)
    → All (λ x. is_among (ids_of events) x.id ≡ true) places
    → All (IsConfirmed ids) t
    → All (IsConfirmed (ids_of events ++ ids)) (mark_published_batch now places t)
unfolding mark_published_batch
mark_published_batch-IsConfirmed events places now ids t h k =
    All-update_where (IsConfirmed (ids_of events ++ ids)) (is_listed places)
      (publish_listed now places)
      (λ r c e. elim (Option-cases (metadata_for places r)) [
        | inl missing ↦ rw (missing, publish_listed) c
        | inr (m, found) ↦
            rw (found, publish_listed)
              (λ _.
                among-append (ids_of events) ids r.id
                ∙ ground (arith, find-among events places r.id m h found))
      ])
      t (IsConfirmed-append (ids_of events) ids t k)

-- What a round of the loop does to the table.
module _ (config : Config) where
  spawn-outbox :
      (limit : ℕ) (t : Outbox) (events : List OutboxEvent) (s : Relay)
      → (spawn limit t events s).outbox ≡ t
  spawn-outbox limit t [] s = refl
  spawn-outbox limit t (e ∷ es) s = refl

  claim_batch-outbox :
      (P : Outbox → Type 0) (answer : Poll) (s : Relay)
      → ((locked : String → Bool) (now batch_size : ℕ)
          → P s.outbox
          → P (claim_pending locked now batch_size s.outbox).0)
      → P s.outbox
      → P (claim_batch config answer s).outbox
  claim_batch-outbox P poll_failed s claims h = h
  claim_batch-outbox P (polled locked now) s claims h =
      subst P (sym (spawn-outbox _ _ _ s)) (claims locked now (batch_limit config s) h)

  -- What a claim keeps of the table, a round of the loop keeps.
  pub poll_once-outbox :
      (P : Outbox → Type 0) (answer : Poll) (s : Relay)
      → ((locked : String → Bool) (now batch_size : ℕ)
          → P s.outbox
          → P (claim_pending locked now batch_size s.outbox).0)
      → P s.outbox
      → P (poll_once config answer s).outbox
  unfolding poll_once
  poll_once-outbox P answer s claims h =
      let at_end : Relay → Type 0 = λ u. P u.outbox in
      either_branch at_end (not s.polling) s _ h (
        either_branch at_end (not (ltb s.batches_spawned max_batches_per_cycle)) (stop s) _ h (
          either_branch at_end (leb config.max_in_flight s.active_in_flight) (stop s) _ h
            (claim_batch-outbox P answer s claims h)))

confirmed_here :
    (result : Publication (List Metadata)) (answer : Answer) (events : List OutboxEvent)
    (places : List Metadata) (metadata : List RecordMetadata)
    → result ≡ delivered places
    → answer ≡ acknowledged metadata
    → confirmed result answer events ≡ ids_of events
confirmed_here result answer events places metadata h k = rw (h, k) refl

module _ (is_date : String → Bool) (config : Config) where
  finish_publish-IsConfirmed :
      (broker : List TopicMessages → Answer) (updates : Updates) (events : List OutboxEvent)
      (ids : List String) (result : Publication (List Metadata)) (t : Outbox)
      → (publish_events is_date broker events).1 ≡ result
      → All (IsConfirmed ids) t
      → All
          (IsConfirmed (acknowledged_ids is_date broker events ++ ids))
          (finish_publish config updates events result t)
  unfolding finish_publish
  finish_publish-IsConfirmed broker updates events ids (rejected x) t h k =
      IsConfirmed-append (acknowledged_ids is_date broker events) ids _
        (fail_events-IsConfirmed ids config updates events t k)
  finish_publish-IsConfirmed broker updates events ids (delivered places) t h k =
      let (metadata, answered) = publish_events-acknowledged is_date broker events places h in
      let all_ids : acknowledged_ids is_date broker events ≡ ids_of events =
        confirmed_here _ _ events places metadata h answered in
      either_branch (All (IsConfirmed (acknowledged_ids is_date broker events ++ ids)))
        updates.takes_published _ _
        (subst (λ l. All (IsConfirmed (l ++ ids)) (mark_published_batch updates.now places t))
          (sym all_ids)
          (mark_published_batch-IsConfirmed events places updates.now ids t
            (publish_events-All is_date broker events places h) k))
        (IsConfirmed-append (acknowledged_ids is_date broker events) ids _
          (fail_events-IsConfirmed ids config updates events t k))

  Step-IsConfirmed :
      (ids : List String) (s t : Relay) (step : Step is_date config s t)
      → All (IsConfirmed ids) s.outbox
      → All (IsConfirmed (step_ids is_date config s t step ++ ids)) t.outbox
  unfolding begin_cycle run_publish
  Step-IsConfirmed ids s t (begins recovery idle) h =
      recover-IsConfirmed ids config recovery s.outbox h
  Step-IsConfirmed ids s t (polls answer) h =
      poll_once-outbox config (All (IsConfirmed ids)) answer s
        (λ locked now size k. claim_pending-IsConfirmed ids locked now size s.outbox k) h
  Step-IsConfirmed ids s t (settles broker updates before after events split) h =
      finish_publish-IsConfirmed broker updates events ids _ s.outbox refl h
  Step-IsConfirmed ids s t (inserts row new fresh) h = ((λ e. ground (arith, new, e)), h)

  -- However the relay's steps interleave and whatever fails: a row that is PUBLISHED at the end of a run
  -- was so at its start, or it belongs to a batch whose messages the broker acknowledged in the run.
  pub published_after_acknowledged :
      (ids : List String) (s t : Relay) (run : Steps is_date config s t)
      → All (IsConfirmed ids) s.outbox
      → All (IsConfirmed (run_ids is_date config s t run ++ ids)) t.outbox
  published_after_acknowledged ids s t here h = h
  published_after_acknowledged ids s t (then_step run step) h =
      subst (λ l. All (IsConfirmed l) t.outbox)
        (sym (append_assoc (step_ids is_date config _ t step) (run_ids is_date config s _ run) ids))
        (Step-IsConfirmed _ _ t step (published_after_acknowledged ids s _ run h))
