-- ===== src/Messaging/Inbox/Moves.antt =====
-- The two conditional updates of the inbox repository, on every branch.
use mathlib.Core.Option
use surgepay.Common.{
  refl, count-eq-zero_of_unique, find_sound, find-update_where, count-le, count-eq-zero_of_find,
  arith, ◌≤◌, Bool-cases, inr, none, [], inl, some, ◌∷◌, false, Option-cases, ◌≡◌, Bool, Option,
  if◌then◌else◌, List, String,
}
use surgepay.Messaging.Inbox.{
  has_status, has_key, reset_for_replay, dlq_sent, set_status, is_in, prepare_for_replay, status_eq,
  find_by_event_id_and_consumer, InboxStatus, InboxEvent, Inbox, transition_status,
}
use surgepay.Messaging.Inbox.Laws.{
  prepare_for_replay_hit, has_status-has_key, transition_status_hit, transition_status_miss,
  transition_status_absent, IsUnique, row,
}

module _ (id consumer : String) where
  -- Whether the row of the key has one of the statuses.
  abbrev pub is_movable : List InboxStatus → Option InboxEvent → Bool
  is_movable from none = false
  is_movable from (some r) = is_in r.status from

  abbrev pub move_row : List InboxStatus → InboxStatus → InboxEvent → InboxEvent
  move_row from to r = if is_in r.status from then set_status to r else r

  abbrev pub replay_row : InboxEvent → InboxEvent
  replay_row r = if status_eq r.status dlq_sent then reset_for_replay r else r

  moves_at_most_one :
      (t : Inbox) (from : List InboxStatus) (to : InboxStatus)
      → IsUnique id consumer t
      → (transition_status t id consumer from to).1 ≤ 1
  unfolding transition_status
  moves_at_most_one t from to u = omega (
    arith,
    count-le (has_key id consumer) (has_status id consumer from)
        (has_status-has_key id consumer from) t,
  )

  -- Where the key is unique, `transitionStatus` moves its row exactly when the row has one of the
  -- statuses, and its count says whether it did.
  pub transition_status_lem :
      (t : Inbox) (from : List InboxStatus) (to : InboxStatus)
      → IsUnique id consumer t
      → (row id consumer (transition_status t id consumer from to).0
          ≡ Option.map (move_row from to) (row id consumer t))
        × ((transition_status t id consumer from to).1
            ≡ (if is_movable from (row id consumer t) then 1 else 0))
  transition_status_lem t from to u = elim (Option-cases (row id consumer t)) [
    | inl missing ↦ ground (arith, missing, transition_status_absent id consumer t from to missing)
    | inr (r, found) ↦ elim (Bool-cases (is_in r.status from)) [
      | inl free ↦ ground (
        arith,
        found,
        free,
        transition_status_hit id consumer t from to r found free,
        moves_at_most_one t from to u,
      )
      | inr busy ↦
          ground (arith, found, busy, transition_status_miss id consumer t from to r u found busy)
    ]
  ]

  -- Where the key is unique, `prepareForReplay` answers whether the row of the key was DLQ_SENT, and
  -- resets it exactly then.
  pub prepare_for_replay_lem :
      (t : Inbox)
      → IsUnique id consumer t
      → (row id consumer (prepare_for_replay t id consumer).0
          ≡ Option.map replay_row (row id consumer t))
        × ((prepare_for_replay t id consumer).1 ≡ is_movable (dlq_sent ∷ []) (row id consumer t))
  unfolding prepare_for_replay find_by_event_id_and_consumer
  prepare_for_replay_lem t u = elim (Option-cases (row id consumer t)) [
    | inl missing ↦ ground (
      arith,
      missing,
      count-eq-zero_of_find (has_key id consumer) (has_status id consumer (dlq_sent ∷ []))
          (has_status-has_key id consumer (dlq_sent ∷ [])) t missing,
      find-update_where (has_key id consumer) (has_status id consumer (dlq_sent ∷ []))
          reset_for_replay (λ x. refl) t,
    )
    | inr (r, found) ↦ ground (
      arith,
      found,
      prepare_for_replay_hit id consumer t r found,
      find_sound (has_key id consumer) t r found,
      count-eq-zero_of_unique (has_key id consumer) (has_status id consumer (dlq_sent ∷ []))
          (has_status-has_key id consumer (dlq_sent ∷ [])) t r u found,
      find-update_where (has_key id consumer) (has_status id consumer (dlq_sent ∷ []))
          reset_for_replay (λ x. refl) t,
    )
  ]
