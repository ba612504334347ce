-- ===== src/Messaging/Consumer/Runs.antt =====
-- Whole deliveries of one event to one worker at a time, and what redelivery makes of a handler that
-- keeps failing.
use surgepay.Messaging.Consumer.Phases.{
  run-append, own, at, commit_of, claims_known, claims_new, completes, gives_back, buries,
}
use surgepay.Messaging.Consumer.{
  claimable, handle, returned, find_existing, refused, threw, World, advance, done, Reply, step,
  Worker, run,
}
use surgepay.Messaging.Inbox.{
  new_event, processing, is_in, set_status, retrying, write_status, dlq_sent, processed,
  count_dlq_depth, Inbox, InboxEvent, Error,
}
use surgepay.Common.{
  ◌+◌, true, refl, zero, sym, ap, arith, ◌≤◌, subst, ◌∙◌, some, ◌++◌, suc, none, ◌∷◌, ◌≡◌, [], ℕ,
  List,
}
use surgepay.Messaging.Inbox.Laws.{row}

pub run_then :
    (now : ℕ) (v : Worker) (rs qs : List Reply) (w : World) {v' : Worker} {w' : World}
    {end : Worker × World}
    → run now v rs w ≡ (v', w')
    → run now v' qs w' ≡ end
    → run now v (rs ++ qs) w ≡ end
run_then now v rs qs w {end} e f =
    run-append now v rs qs w ∙ subst (λ x. run now x.0 qs x.1 ≡ end) (sym e) f

-- A worker that has thrown makes no further call.
pub run_threw :
    (now : ℕ) (v : Worker) (e : Error) (rs : List Reply) (w : World)
    → run now (at now v (threw e)) rs w ≡ (at now v (threw e), w)
unfolding run step advance
run_threw now v e [] w = refl
run_threw now v e (r ∷ rs) w = run_threw now v e rs w

-- Kafka delivers the message again and again, each time to a worker that starts afresh.
unfoldable pub redeliver : ℕ → Worker → List (List Reply) → World → World
redeliver now v [] w = w
redeliver now v (rs ∷ rss) w = redeliver now v rss (run now (at now v find_existing) rs w).1

abbrev pub repeat : ℕ → List Reply → List (List Reply)
repeat zero rs = []
repeat (suc n) rs = rs ∷ repeat n rs

abbrev pub after_handler : List Reply
after_handler = done ∷ done ∷ done ∷ done ∷ done ∷ []

-- The handler throws `e` and every other call takes effect, for a new event and for a known one.
abbrev pub first_failure : Error → List Reply
first_failure e = done ∷ done ∷ done ∷ done ∷ refused e ∷ after_handler

abbrev pub later_failure : Error → List Reply
later_failure e = done ∷ done ∷ done ∷ refused e ∷ after_handler

module _ (now : ℕ) (v : Worker) where
  -- Seven calls that all take effect end a delivery.
  abbrev pub HandledOnce : World → Type 0
  HandledOnce w =
      (u : Inbox) × (r : InboxEvent) × (run now (at now v find_existing)
          (done ∷ done ∷ done ∷ done ∷ done ∷ done ∷ done ∷ []) w
        ≡ (
          at now v returned,
          record w {
            inbox = u;
            handled = (v.envelope.event_id, v.group_id) ∷ w.handled;
            commits = commit_of now v ∷ w.commits;
          },
        ))
      × (row v.envelope.event_id v.group_id u ≡ some r)
      × (r.status ≡ processed)
      × (r.retry_count ≡ 0)
      × (r.processed_at ≡ some now)

  -- A new event whose handler succeeds is handled once, marked PROCESSED with no retry, and its
  -- offset is committed; the dead letter queue is untouched.
  pub run_new : (w : World) → own now v w ≡ none → HandledOnce w
  run_new w missing =
      let (t, claimed, mine) = claims_new now v w missing in
      let (u, handled, stored) = completes now v (record w { inbox = t }) _ mine in
      (
        u,
        _,
        run_then now _ (done ∷ done ∷ done ∷ done ∷ []) (done ∷ done ∷ done ∷ []) w claimed handled,
        stored,
        refl,
        refl,
        refl,
      )

  abbrev buried : World → Inbox → Error → ℕ → World
  buried w u e n = record w {
    inbox = u;
    dead_letters =
        record {
          original_event = v.envelope;
          failure_reason = e;
          retry_count = suc n;
          consumer = v.group_id;
        }
        ∷ w.dead_letters;
    commits = commit_of now v ∷ w.commits;
    dlq_depth = count_dlq_depth u v.group_id;
  }

  abbrev pub Buried : World → Error → List (List Reply) → Type 0
  Buried w e rss =
      (u : Inbox) × (r : InboxEvent) × (redeliver now v rss w ≡ buried w u e v.retry_limit)
      × (row v.envelope.event_id v.group_id u ≡ some r)
      × (r.status ≡ dlq_sent)
      × (r.retry_count ≡ suc v.retry_limit)

  -- From the handler on: the last failure buries the event.
  fails_last :
      (e : Error) (w : World) (r : InboxEvent) (rs : List Reply) (u : Inbox)
      → run now (at now v find_existing) rs w ≡ (at now v handle, record w { inbox = u })
      → row v.envelope.event_id v.group_id u ≡ some r
      → r.retry_count ≡ v.retry_limit
      → Buried w e ((rs ++ refused e ∷ after_handler) ∷ [])
  unfolding redeliver
  fails_last e w r rs u claimed mine spent =
      let (t, sent, stored) = buries now v (record w { inbox = u }) r e mine (omega arith) in
      (
        t,
        _,
        ap (λ x. x.1) (run_then now _ rs _ w claimed sent) ∙ ap (buried w t e) spent,
        stored,
        refl,
        ap suc spent,
      )

  -- An earlier failure gives the event back with one more retry and commits nothing.
  fails_early :
      (e : Error) (w : World) (r : InboxEvent) (rs : List Reply) (u : Inbox)
      → run now (at now v find_existing) rs w ≡ (at now v handle, record w { inbox = u })
      → row v.envelope.event_id v.group_id u ≡ some r
      → suc r.retry_count ≤ v.retry_limit
      → (t : Inbox) × ((run now (at now v find_existing) (rs ++ refused e ∷ after_handler) w).1
          ≡ record w { inbox = t })
        × (row v.envelope.event_id v.group_id t
            ≡ some (write_status now retrying (some (suc r.retry_count)) r))
  fails_early e w r rs u claimed mine left =
      let (t, back, stored) = gives_back now v (record w { inbox = u }) r e mine left in
      (
        t,
        ap (λ x. x.1)
            (run_then now _ rs _ w claimed
              (run_then now _ (refused e ∷ done ∷ done ∷ []) _ _ back (run_threw now v e _ _))),
        stored,
      )

  -- A known event with `k` retries left and a handler that keeps failing: after `k` more deliveries
  -- that commit nothing, one more buries it.
  known_Buried :
      (e : Error) (k : ℕ) (w : World) (r : InboxEvent)
      → own now v w ≡ some r
      → is_in r.status claimable ≡ true
      → r.retry_count + k ≡ v.retry_limit
      → Buried w e (repeat (suc k) (later_failure e))
  unfolding redeliver
  known_Buried e zero w r found free budget =
      let (u, claimed, mine) = claims_known now v w r found free in
      fails_last e w _ (done ∷ done ∷ done ∷ []) u claimed mine (omega arith)
  known_Buried e (suc k) w r found free budget =
      let (u, claimed, mine) = claims_known now v w r found free in
      let (t, back, stored) =
        fails_early e w _ (done ∷ done ∷ done ∷ []) u claimed mine (omega arith) in
      let (u', r', again, mine', dead, spent) =
        known_Buried e k (record w { inbox = t }) _ stored refl (omega arith) in
      (
        u',
        r',
        ap (redeliver now v (repeat (suc k) (later_failure e))) back ∙ again,
        mine',
        dead,
        spent,
      )

  -- A new event whose handler always fails is sent to the dead letter queue exactly once, by the
  -- delivery after `retry_limit` retries: no delivery before it commits the offset or publishes, the
  -- record carries `retry_limit + 1`, the row ends as DLQ_SENT with that count, and the offset is
  -- committed once. The other calls are taken to take effect.
  pub failing_event-Buried :
      (e : Error) (w : World)
      → own now v w ≡ none
      → Buried w e (first_failure e ∷ repeat v.retry_limit (later_failure e))
  unfolding redeliver
  failing_event-Buried e w missing =
      let (u, claimed, mine) = claims_new now v w missing in go v.retry_limit refl u claimed mine
    where
      go :
          (limit : ℕ)
          → v.retry_limit ≡ limit
          → (u : Inbox)
          → run now (at now v find_existing) (done ∷ done ∷ done ∷ done ∷ []) w
            ≡ (at now v handle, record w { inbox = u })
          → row v.envelope.event_id v.group_id u
            ≡ some (set_status processing (new_event now v.envelope.event_id v.group_id))
          → Buried w e (first_failure e ∷ repeat limit (later_failure e))
      go zero limit u claimed mine =
          fails_last e w _ (done ∷ done ∷ done ∷ done ∷ []) u claimed mine (omega arith)
      go (suc k) limit u claimed mine =
          let (t, back, stored) =
            fails_early e w _ (done ∷ done ∷ done ∷ done ∷ []) u claimed mine (omega arith) in
          let (u', r', again, mine', dead, spent) =
            known_Buried e k (record w { inbox = t }) _ stored refl (omega arith) in
          (
            u',
            r',
            ap (redeliver now v (repeat (suc k) (later_failure e))) back ∙ again,
            mine',
            dead,
            spent,
          )
