-- ===== src/Messaging/Consumer/Faults.antt =====
-- What the failures of single calls do to the processing of an event.
use surgepay.Messaging.Consumer.{
  unconfirmed, handle, advance, step, threw, refused, done, find_existing, claimable, run, Reply,
  World, Worker,
}
use surgepay.Common.{refl, ◌∙◌, ap, arith, suc, [], ◌∷◌, true, ◌≤◌, some, none, ◌≡◌, List, ℕ}
use surgepay.Messaging.Consumer.Runs.{run_threw, run_then, redeliver}
use surgepay.Messaging.Inbox.{
  processed, retrying, in_progress, set_status, Inbox, is_in, processing, InboxEvent, Error,
}
use surgepay.Messaging.Consumer.Phases.{
  commit_of, updated, run-nil, finds_claimable, run-cons, completes, claims, claims_known,
  claims_new, at, own,
}
use surgepay.Messaging.Inbox.Laws.{row}

module _ (now : ℕ) (v : Worker) where
  -- An event whose row says PROCESSING is refused by every delivery, whatever the replies: no
  -- handler runs, no offset is committed, nothing changes, and so no later delivery does better.
  pub processing_wedged :
      (rs : List Reply) (r : Reply) (w : World) (x : InboxEvent)
      → own now v w ≡ some x
      → x.status ≡ processing
      → (e : Error) × (run now (at now v find_existing) (r ∷ rs) w ≡ (at now v (threw e), w))
  unfolding step advance
  processing_wedged rs done w x found busy =
      (in_progress, run-cons now done rs _ _ _ _ (ground arith) (run_threw now v in_progress rs w))
  processing_wedged rs (refused e) w x found busy =
      (e, run-cons now (refused e) rs _ _ _ _ refl (run_threw now v e rs w))
  processing_wedged rs (unconfirmed e) w x found busy =
      (e, run-cons now (unconfirmed e) rs _ _ _ _ refl (run_threw now v e rs w))

  -- A claim that takes effect while the read behind it is refused leaves the row PROCESSING with no
  -- worker on it.
  pub claim_without_reload :
      (w : World) (x : InboxEvent) (e : Error)
      → own now v w ≡ some x
      → is_in x.status claimable ≡ true
      → (u : Inbox) × (run now (at now v find_existing) (done ∷ done ∷ refused e ∷ []) w
          ≡ (at now v (threw e), record w { inbox = u }))
        × (row v.envelope.event_id v.group_id u ≡ some (set_status processing x))
  unfolding step advance
  claim_without_reload w x e found free =
      let (u, claimed, mine) = claims now v w x found free in
      (
        u,
        run-cons now done _ _ _ _ _ (finds_claimable now v w x found free) (
            run-cons now done _ _ _ _ _ claimed
              (run-cons now (refused e) _ _ _ _ _ refl (run-nil now _ _))),
        mine,
      )

  -- The commit is refused after the handler and the mark took effect.
  commit_fails :
      (w : World) (x : InboxEvent) (e : Error)
      → own now v w ≡ some x
      → suc x.retry_count ≤ v.retry_limit
      → (u : Inbox) × (y : InboxEvent) × (run now
            (at now v handle)
            (done ∷ done ∷ refused e ∷ done ∷ done ∷ [])
            w
          ≡ (
            at now v (threw e),
            record w { inbox = u; handled = (v.envelope.event_id, v.group_id) ∷ w.handled },
          ))
        × (row v.envelope.event_id v.group_id u ≡ some y)
        × (y.status ≡ retrying)
        × (y.retry_count ≡ suc x.retry_count)
  unfolding run step advance
  commit_fails w x e found left =
      let (t, marked, mine) = updated now v w x processed none found in
      let (u, back, still) =
        updated now v (record w { inbox = t }) _ retrying (some (suc x.retry_count)) mine in
      (u, _, ground (arith, marked, mine, back), still, refl, refl)

  -- Two deliveries: the commit of the first one is refused after the mark, and in the second one every
  -- call takes effect. Between them the row says RETRYING with one retry; after them it is PROCESSED, and
  -- the handler has run twice for one committed offset.
  abbrev pub HandledTwice : World → Error → Type 0
  HandledTwice w e =
      (between : Inbox) × (ended : Inbox) × (y : InboxEvent) × (z : InboxEvent) × (run now
          (at now v find_existing)
          (done ∷ done ∷ done ∷ done ∷ done ∷ done ∷ refused e ∷ done ∷ done ∷ []) w
        ≡ (
          at now v (threw e),
          record w { inbox = between; handled = (v.envelope.event_id, v.group_id) ∷ w.handled },
        ))
      × (row v.envelope.event_id v.group_id between ≡ some y)
      × (y.status ≡ retrying)
      × (y.retry_count ≡ 1)
      × (redeliver now v
            ((done ∷ done ∷ done ∷ done ∷ done ∷ done ∷ refused e ∷ done ∷ done ∷ [])
              ∷ (done ∷ done ∷ done ∷ done ∷ done ∷ done ∷ [])
              ∷ [])
            w
          ≡ record w {
            inbox = ended;
            handled =
                (v.envelope.event_id, v.group_id) ∷ (v.envelope.event_id, v.group_id) ∷ w.handled;
            commits = commit_of now v ∷ w.commits;
          })
      × (row v.envelope.event_id v.group_id ended ≡ some z)
      × (z.status ≡ processed)

  -- A new event whose commit is refused after its row was marked PROCESSED, if a retry is left: the first
  -- delivery throws, commits nothing and leaves the row as RETRYING with one retry, and the next delivery
  -- runs the handler a second time, marks the row PROCESSED and commits. All other calls take effect.
  pub commit_failure_repeats_handler :
      (w : World) (e : Error) → own now v w ≡ none → 1 ≤ v.retry_limit → HandledTwice w e
  unfolding redeliver
  commit_failure_repeats_handler w e missing limit =
      let (t, claimed, mine) = claims_new now v w missing in
      let (u, y, failed_commit, back, retried, once) =
        commit_fails (record w { inbox = t }) _ e mine limit in
      let first =
        run_then now _ (done ∷ done ∷ done ∷ done ∷ []) (done ∷ done ∷ refused e ∷ done ∷ done ∷ [])
          w claimed failed_commit in
      let between : World = record w {
        inbox = u;
        handled = (v.envelope.event_id, v.group_id) ∷ w.handled;
      } in
      let (t', again, mine') = claims_known now v between y back (rw retried) in
      let (u', twice, stored) = completes now v (record between { inbox = t' }) _ mine' in
      let second =
        run_then now _ (done ∷ done ∷ done ∷ []) (done ∷ done ∷ done ∷ []) between again twice in
      (
        u,
        u',
        y,
        _,
        first,
        back,
        retried,
        once,
        ap (λ x. redeliver now v ((done ∷ done ∷ done ∷ done ∷ done ∷ done ∷ []) ∷ []) x.1) first
            ∙ ap (λ x. x.1) second,
        stored,
        refl,
      )
