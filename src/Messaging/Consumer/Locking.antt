-- ===== src/Messaging/Consumer/Locking.antt =====
-- One step of a worker and the lock on its event: the row's status.
use surgepay.Common.{
  ◌++◌, ℕ, ◌+◌, ◌≤◌, ◌≡◌, ◌≢◌, ◌⊎◌, inl, inr, String, Bool, true, false, not, Option, none, some,
  [], ◌∷◌, arith, Option-cases, Bool-cases,
}
use surgepay.Messaging.Inbox.{
  InboxStatus, processing, processed, failed, retrying, dlq_sent, InboxEvent, Inbox, ok, is_in,
  new_event, transition_status, update_status,
}
use surgepay.Messaging.Inbox.Laws.{
  update_status-other_cases, record_received-other_cases, update_status_cases, row, IsUnique,
  record_received_cases, record_received-IsUnique, transition_status_hit, transition_status_miss,
  transition_status_absent, transition_status-IsUnique, update_status_hit, transition_status-other,
}
use surgepay.Messaging.Consumer.{
  World, Point, find_existing, insert, find_collided, claim, reload, find_current, handle,
  mark_processed, commit_processed, commit_skip, load_record, mark_retrying, publish_dlq,
  mark_dlq_sent, sync_depth, commit_dlq, mark_failed, returned, threw, Worker, Reply, claimable,
  advance,
}

-- Whether a worker at this point has claimed the event and not yet given it back.
abbrev pub holds : Point → ℕ
holds reload = 1
holds handle = 1
holds mark_processed = 1
holds commit_processed = 1
holds (load_record e) = 1
holds (mark_retrying n e) = 1
holds (publish_dlq n e) = 1
holds (mark_dlq_sent n) = 1
holds (sync_depth n) = 1
holds (commit_dlq n) = 1
holds (mark_failed n e) = 1
holds _ = 0

-- Whether the status keeps other workers from claiming the event.
abbrev pub is_locked : Option InboxEvent → Bool
is_locked none = false
is_locked (some r) = not (is_in r.status claimable)

-- Whether the status says that the event is done with.
abbrev pub is_closed : Option InboxEvent → Bool
is_closed none = false
is_closed (some r) = is_in r.status (processed ∷ dlq_sent ∷ [])

module _ (id group : String) where
  pub claim_cases :
      (t : Inbox)
      → IsUnique id group t
      → (transition_status t id group claimable processing ≡ (t, 0))
        ⊎ ((is_locked (row id group t) ≡ false)
            × (1 ≤ (transition_status t id group claimable processing).1)
            × (is_locked (row id group (transition_status t id group claimable processing).0)
                ≡ true)
            × (is_closed (row id group (transition_status t id group claimable processing).0)
                ≡ false))
  claim_cases t u = elim (Option-cases (row id group t)) [
    | inl missing ↦ inl (transition_status_absent id group t claimable processing missing)
    | inr (r, found) ↦ elim (Bool-cases (is_in r.status claimable)) [
      | inl free ↦ inr (
        rw (found, free),
        (transition_status_hit id group t claimable processing r found free).1,
        rw (transition_status_hit id group t claimable processing r found free).0,
        rw (transition_status_hit id group t claimable processing r found free).0,
      )
      | inr taken ↦ inl (transition_status_miss id group t claimable processing r u found taken)
    ]
  ]

-- What one step keeps, beside `others` further workers that hold the same event: at most one
-- holder, and a locked row wherever there is one.
abbrev pub Guarded : ℕ → Bool → Type 0
Guarded holders locked = (holders ≤ 1) × (1 ≤ holders → locked ≡ true)

module _ (now : ℕ) (v : Worker) (r : Reply) (w : World) where
  abbrev locked : World → Bool
  locked x = is_locked (row v.envelope.event_id v.group_id x.inbox)

  abbrev after : Point → Point × World
  after p = advance now v r w p

  update_locked :
      (s : InboxStatus) (retry : Option ℕ)
      → locked w ≡ true
      → (u : Inbox) × (update_status now w.inbox v.envelope.event_id v.group_id s retry ≡ ok u)
        × (is_locked (row v.envelope.event_id v.group_id u) ≡ not (is_in s claimable))
  update_locked s retry h = elim (Option-cases (row v.envelope.event_id v.group_id w.inbox)) [
    | inl missing ↦ ground (arith, missing)
    | inr (x, found) ↦
        let (u, run, written, _) =
          update_status_hit v.envelope.event_id v.group_id now w.inbox s retry x found in
        (u, run, rw written)
  ]

  pub advance-Guarded :
      (others : ℕ) (p : Point)
      → IsUnique v.envelope.event_id v.group_id w.inbox
      → Guarded (others + holds p) (locked w)
      → Guarded (others + holds (after p).0) (locked (after p).1)
  unfolding advance
  advance-Guarded others find_existing u g = ground arith
  advance-Guarded others insert u g =
      ground (arith, record_received_cases v.envelope.event_id v.group_id now w.inbox)
  advance-Guarded others find_collided u g = ground arith
  advance-Guarded others claim u g =
      ground (arith, claim_cases v.envelope.event_id v.group_id w.inbox u)
  advance-Guarded others reload u g = ground arith
  advance-Guarded others find_current u g = ground arith
  advance-Guarded others handle u g = ground arith
  advance-Guarded others mark_processed u g = ground (arith, update_locked processed none)
  advance-Guarded others commit_processed u g = ground arith
  advance-Guarded others commit_skip u g = ground arith
  advance-Guarded others (load_record e) u g = ground arith
  advance-Guarded others (mark_retrying n e) u g = ground (arith, update_locked retrying (some n))
  advance-Guarded others (publish_dlq n e) u g = ground arith
  advance-Guarded others (mark_dlq_sent n) u g = ground (arith, update_locked dlq_sent (some n))
  advance-Guarded others (sync_depth n) u g = ground arith
  advance-Guarded others (commit_dlq n) u g = ground arith
  advance-Guarded others (mark_failed n e) u g = ground (arith, update_locked failed (some n))
  advance-Guarded others returned u g = g
  advance-Guarded others (threw e) u g = g

  pub advance-IsUnique :
      (p : Point)
      → IsUnique v.envelope.event_id v.group_id w.inbox
      → IsUnique v.envelope.event_id v.group_id (after p).1.inbox
  unfolding advance
  advance-IsUnique insert u = ground (
    arith,
    record_received_cases v.envelope.event_id v.group_id now w.inbox,
    record_received-IsUnique v.envelope.event_id v.group_id now w.inbox
        (w.inbox ++ new_event now v.envelope.event_id v.group_id ∷ []),
  )
  advance-IsUnique claim u = ground (
    arith,
    transition_status-IsUnique v.envelope.event_id v.group_id w.inbox claimable processing,
  )
  advance-IsUnique mark_processed u =
      ground (arith, update_status_cases v.envelope.event_id v.group_id now w.inbox processed none)
  advance-IsUnique (mark_retrying n e) u =
      ground
        (arith, update_status_cases v.envelope.event_id v.group_id now w.inbox retrying (some n))
  advance-IsUnique (mark_dlq_sent n) u =
      ground
        (arith, update_status_cases v.envelope.event_id v.group_id now w.inbox dlq_sent (some n))
  advance-IsUnique (mark_failed n e) u =
      ground (arith, update_status_cases v.envelope.event_id v.group_id now w.inbox failed (some n))
  advance-IsUnique _ u = ground arith

  module _ (id' group' : String) (apart : (id' ≢ v.envelope.event_id) ⊎ (group' ≢ v.group_id)) where
    -- A step leaves the rows of other events and of other groups as they are.
    pub advance-other :
        (p : Point)
        → (row id' group' (after p).1.inbox ≡ row id' group' w.inbox)
          × (IsUnique id' group' w.inbox → IsUnique id' group' (after p).1.inbox)
    unfolding advance
    advance-other insert = ground (
      arith,
      record_received-other_cases v.envelope.event_id v.group_id id' group' apart now w.inbox,
    )
    advance-other claim = ground (
      arith,
      transition_status-other v.envelope.event_id v.group_id id' group' apart w.inbox claimable
          processing,
    )
    advance-other mark_processed = ground (
      arith,
      update_status-other_cases v.envelope.event_id v.group_id id' group' apart now w.inbox
          processed none,
    )
    advance-other (mark_retrying n e) = ground (
      arith,
      update_status-other_cases v.envelope.event_id v.group_id id' group' apart now w.inbox retrying
          (some n),
    )
    advance-other (mark_dlq_sent n) = ground (
      arith,
      update_status-other_cases v.envelope.event_id v.group_id id' group' apart now w.inbox dlq_sent
          (some n),
    )
    advance-other (mark_failed n e) = ground (
      arith,
      update_status-other_cases v.envelope.event_id v.group_id id' group' apart now w.inbox failed
          (some n),
    )
    advance-other _ = ground arith
