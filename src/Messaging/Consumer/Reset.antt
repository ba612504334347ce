-- ===== src/Messaging/Consumer/Reset.antt =====
-- An event that went to the dead letter queue, delivered again with and without a reset of its row.
use surgepay.Common.{inr, refl, arith, [], ◌∷◌, true, some, ◌≡◌, ℕ}
use surgepay.Messaging.Consumer.{find_existing, returned, done, run, Worker, World}
use surgepay.Messaging.Consumer.Phases.{own, at, commit_of, claims_known, completes, skips}
use surgepay.Messaging.Consumer.Runs.{run_then}
use surgepay.Messaging.Inbox.{
  Inbox, InboxEvent, dlq_sent, processed, prepare_for_replay, reset_for_replay,
}
use surgepay.Messaging.Inbox.Laws.{row, IsUnique}
use surgepay.Messaging.Inbox.Moves.{prepare_for_replay_lem}

module _ (now : ℕ) (v : Worker) where
  abbrev pub prepared : World → World
  prepared w = record w { inbox = (prepare_for_replay w.inbox v.envelope.event_id v.group_id).0 }

  reset_row :
      (w : World) (r : InboxEvent)
      → IsUnique v.envelope.event_id v.group_id w.inbox
      → own now v w ≡ some r
      → r.status ≡ dlq_sent
      → own now v (prepared w) ≡ some (reset_for_replay r)
  reset_row w r unique found dead =
      ground
        (arith, found, dead, prepare_for_replay_lem v.envelope.event_id v.group_id w.inbox unique)

  -- An event that is in the dead letter queue and delivered again: without a reset of its row it is
  -- skipped, the handler does not run; after `prepareForReplay` it is handled once, marked PROCESSED with
  -- no retry, and its offset is committed. The row is unique in the inbox, and all calls take effect.
  pub replayed_event_handled :
      (w : World) (r : InboxEvent)
      → IsUnique v.envelope.event_id v.group_id w.inbox
      → own now v w ≡ some r
      → r.status ≡ dlq_sent
      → (run now (at now v find_existing) (done ∷ done ∷ []) w
          ≡ (at now v returned, record w { commits = commit_of now v ∷ w.commits }))
        × ((prepare_for_replay w.inbox v.envelope.event_id v.group_id).1 ≡ true)
        × ((u : Inbox) × (s : InboxEvent) × (run now
                (at now v find_existing)
                (done ∷ done ∷ done ∷ done ∷ done ∷ done ∷ [])
                (prepared w)
              ≡ (
                at now v returned,
                record w {
                  inbox = u;
                  handled = (v.envelope.event_id, v.group_id) ∷ w.handled;
                  commits = commit_of now v ∷ w.commits;
                },
              ))
            × (row v.envelope.event_id v.group_id u ≡ some s)
            × (s.status ≡ processed)
            × (s.retry_count ≡ 0)
            × (s.processed_at ≡ some now))
  replayed_event_handled w r unique found dead = (
    skips now v w r found (inr dead),
    ground
        (arith, found, dead, prepare_for_replay_lem v.envelope.event_id v.group_id w.inbox unique),
    let mine = reset_row w r unique found dead in
        let (t, claimed, held) = claims_known now v (prepared w) _ mine refl in
        let (u, handled, stored) = completes now v (record (prepared w) { inbox = t }) _ held in
        (
          u,
          _,
          run_then now _ (done ∷ done ∷ done ∷ []) (done ∷ done ∷ done ∷ []) (prepared w) claimed
              handled,
          stored,
          refl,
          refl,
          refl,
        ),
  )
