-- ===== src/Messaging/Consumer/Phases.antt =====
-- The stretches of a run whose calls all take effect: claiming the event, handling it, giving it
-- back, sending it to the dead letter queue.
use surgepay.Common.{
  sym, subst, ℕ, suc, ◌+◌, ◌≤◌, ◌<◌, ◌≡◌, refl, ◌⊎◌, inl, inr, true, Option, none, some, List, [],
  ◌∷◌, ◌++◌, arith,
}
use surgepay.Messaging.Inbox.{
  InboxStatus, processing, processed, retrying, dlq_sent, InboxEvent, Inbox, Error, ok, is_in,
  set_status, new_event, update_status, write_status, count_dlq_depth,
}
use surgepay.Messaging.Inbox.Laws.{
  row, row-record_received, record_received_cases, transition_status_hit, update_status_hit,
}
use surgepay.Messaging.Consumer.{
  Commit, World, Point, find_existing, insert, claim, reload, handle, returned, threw, Worker,
  Reply, done, refused, claimable, advance, step, run,
}

pub run-append :
    (now : ℕ) (v : Worker) (rs qs : List Reply) (w : World)
    → run now v (rs ++ qs) w ≡ run now (run now v rs w).0 qs (run now v rs w).1
unfolding run
run-append now v [] qs w = refl
run-append now v (r ∷ rs) qs w = run-append now (step now v r w).0 rs qs (step now v r w).1

pub run-cons :
    (now : ℕ) (r : Reply) (rs : List Reply) (v v' : Worker) (w w' : World) {end : Worker × World}
    → step now v r w ≡ (v', w')
    → run now v' rs w' ≡ end
    → run now v (r ∷ rs) w ≡ end
unfolding run
run-cons now r rs v v' w w' {end} e f = subst (λ x. run now x.0 rs x.1 ≡ end) (sym e) f

pub run-nil : (now : ℕ) (v : Worker) (w : World) → run now v [] w ≡ (v, w)
unfolding run
run-nil now v w = refl

module _ (now : ℕ) (v : Worker) where
  -- The worker's event, its row in a world, and the worker at another point.
  abbrev pub own : World → Option InboxEvent
  own w = row v.envelope.event_id v.group_id w.inbox

  abbrev pub at : Point → Worker
  at p = record v { at = p }

  -- `commitOffset` of the offset after the message's.
  abbrev pub commit_of : Commit
  commit_of = record {
    topic = v.message.topic;
    partition = v.message.partition;
    offset = v.message.offset + 1;
  }

  abbrev pub Steps : Point → World → Reply → Point → World → Type 0
  Steps p w r q u = step now (at p) r w ≡ (at q, u)

  pub finds_claimable :
      (w : World) (r : InboxEvent)
      → own w ≡ some r
      → is_in r.status claimable ≡ true
      → Steps find_existing w done claim w
  unfolding step advance
  finds_claimable w r found free = ground arith

  finds_nothing : (w : World) → own w ≡ none → Steps find_existing w done insert w
  unfolding step advance
  finds_nothing w missing = ground arith

  inserts :
      (w : World)
      → own w ≡ none
      → (u : Inbox) × Steps insert w done claim (record w { inbox = u })
        × (row v.envelope.event_id v.group_id u
            ≡ some (new_event now v.envelope.event_id v.group_id))
  unfolding step advance
  inserts w missing = elim (record_received_cases v.envelope.event_id v.group_id now w.inbox) [
    | inr (present, _) ↦ absurd (present missing)
    | inl (_, stored) ↦ (
      _,
      ground (arith, stored),
      (row-record_received v.envelope.event_id v.group_id now w.inbox _ stored).1,
    )
  ]

  pub claims :
      (w : World) (r : InboxEvent)
      → own w ≡ some r
      → is_in r.status claimable ≡ true
      → (u : Inbox) × Steps claim w done reload (record w { inbox = u })
        × (row v.envelope.event_id v.group_id u ≡ some (set_status processing r))
  unfolding step advance
  claims w r found free =
      let (claimed, hit) =
        transition_status_hit v.envelope.event_id v.group_id w.inbox claimable processing r found
          free in
      (_, ground (arith, hit), claimed)

  reloads : (w : World) (r : InboxEvent) → own w ≡ some r → Steps reload w done handle w
  unfolding step advance
  reloads w r found = ground arith

  -- A write of the row at a point whose call is `update_status`.
  pub updated :
      (w : World) (r : InboxEvent) (s : InboxStatus) (retry : Option ℕ)
      → own w ≡ some r
      → (u : Inbox) × (update_status now w.inbox v.envelope.event_id v.group_id s retry ≡ ok u)
        × (row v.envelope.event_id v.group_id u ≡ some (write_status now s retry r))
  updated w r s retry found =
      let (u, run, written, _) =
        update_status_hit v.envelope.event_id v.group_id now w.inbox s retry r found in
      (u, run, written)

  -- A claimable row is claimed: three calls lead to the handler.
  pub claims_known :
      (w : World) (r : InboxEvent)
      → own w ≡ some r
      → is_in r.status claimable ≡ true
      → (u : Inbox) × (run now (at find_existing) (done ∷ done ∷ done ∷ []) w
          ≡ (at handle, record w { inbox = u }))
        × (row v.envelope.event_id v.group_id u ≡ some (set_status processing r))
  claims_known w r found free =
      let (u, claimed, mine) = claims w r found free in
      (
        u,
        run-cons now done _ _ _ _ _ (finds_claimable w r found free) (
            run-cons now done _ _ _ _ _ claimed (
              run-cons now done _ _ _ _ _ (reloads (record w { inbox = u }) _ mine)
                (run-nil now _ _))),
        mine,
      )

  -- A new event is stored and claimed: four calls lead to the handler.
  pub claims_new :
      (w : World)
      → own w ≡ none
      → (u : Inbox) × (run now (at find_existing) (done ∷ done ∷ done ∷ done ∷ []) w
          ≡ (at handle, record w { inbox = u }))
        × (row v.envelope.event_id v.group_id u
            ≡ some (set_status processing (new_event now v.envelope.event_id v.group_id)))
  claims_new w missing =
      let (t, inserted, fresh) = inserts w missing in
      let (u, claimed, mine) = claims (record w { inbox = t }) _ fresh refl in
      (
        u,
        run-cons now done _ _ _ _ _ (finds_nothing w missing) (
            run-cons now done _ _ _ _ _ inserted (
              run-cons now done _ _ _ _ _ claimed (
                run-cons now done _ _ _ _ _ (reloads (record w { inbox = u }) _ mine)
                  (run-nil now _ _)))),
        mine,
      )

  -- The handler succeeds: the row is marked, and then the offset is committed.
  pub completes :
      (w : World) (r : InboxEvent)
      → own w ≡ some r
      → (u : Inbox) × (run now (at handle) (done ∷ done ∷ done ∷ []) w ≡ (
        at returned,
        record w {
          inbox = u;
          handled = (v.envelope.event_id, v.group_id) ∷ w.handled;
          commits = commit_of ∷ w.commits;
        },
      ))
        × (row v.envelope.event_id v.group_id u ≡ some (write_status now processed none r))
  unfolding run step advance
  completes w r found =
      let (u, stored, mine) = updated w r processed none found in (u, ground (arith, stored), mine)

  -- The handler fails with retries left: the row is given back with one more retry, the handler's
  -- error is thrown again, and no offset is committed.
  pub gives_back :
      (w : World) (r : InboxEvent) (e : Error)
      → own w ≡ some r
      → suc r.retry_count ≤ v.retry_limit
      → (u : Inbox) × (run now (at handle) (refused e ∷ done ∷ done ∷ []) w
          ≡ (at (threw e), record w { inbox = u }))
        × (row v.envelope.event_id v.group_id u
            ≡ some (write_status now retrying (some (suc r.retry_count)) r))
  unfolding run step advance
  gives_back w r e found left =
      let (u, stored, mine) = updated w r retrying (some (suc r.retry_count)) found in
      (u, ground (arith, stored), mine)

  -- The handler fails with no retry left: the event goes to the dead letter queue once, the row says
  -- so, the gauge is the number of such rows, and the offset is committed.
  pub buries :
      (w : World) (r : InboxEvent) (e : Error)
      → own w ≡ some r
      → v.retry_limit < suc r.retry_count
      → (u : Inbox) × (run now (at handle) (refused e ∷ done ∷ done ∷ done ∷ done ∷ done ∷ []) w ≡ (
        at returned,
        record w {
          inbox = u;
          dead_letters =
              record {
                original_event = v.envelope;
                failure_reason = e;
                retry_count = suc r.retry_count;
                consumer = v.group_id;
              }
              ∷ w.dead_letters;
          commits = commit_of ∷ w.commits;
          dlq_depth = count_dlq_depth u v.group_id;
        },
      ))
        × (row v.envelope.event_id v.group_id u
            ≡ some (write_status now dlq_sent (some (suc r.retry_count)) r))
  unfolding run step advance
  buries w r e found spent =
      let (u, stored, mine) = updated w r dlq_sent (some (suc r.retry_count)) found in
      (u, ground (arith, stored), mine)

  -- An event already processed or sent to the dead letter queue is skipped: its offset is committed
  -- and nothing else changes.
  pub skips :
      (w : World) (r : InboxEvent)
      → own w ≡ some r
      → (r.status ≡ processed) ⊎ (r.status ≡ dlq_sent)
      → run now (at find_existing) (done ∷ done ∷ []) w
        ≡ (at returned, record w { commits = commit_of ∷ w.commits })
  unfolding run step advance
  skips w r found closed = ground arith
