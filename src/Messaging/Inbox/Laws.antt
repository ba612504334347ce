-- ===== src/Messaging/Inbox/Laws.antt =====
-- The inbox operations seen through the row of one key, with the other keys left alone.
use surgepay.Common.{
  ◌++◌, ℕ, ◌≤◌, ◌≡◌, refl, ◌≢◌, ◌⊎◌, inl, inr, String, true, false, Option, none, some, List, [],
  ◌∷◌, arith, find, count, update_where, count-append, find-update_where, find-append_some,
  find-append_other, find-update_where_other, count-update_where, count-eq-zero_of_find,
  count-eq-zero_of_unique, count-pos_of_find, update_where-eq_of_count, find_sound, Option-cases,
  Bool-cases, eq_refl, eq_iff,
}
use surgepay.Messaging.Inbox.{
  record_not_found, unique_constraint, err, InboxStatus, dlq_sent, InboxEvent, Inbox, ok, is_in,
  has_key, set_status, find_by_event_id_and_consumer, new_event, record_received, has_status,
  transition_status, write_status, update_status, reset_for_replay, prepare_for_replay,
}

module _ (id consumer : String) where
  abbrev pub row : Inbox → Option InboxEvent
  row t = find_by_event_id_and_consumer t id consumer

  -- The unique index on `[consumer, eventId]`, for this key.
  abbrev pub IsUnique : Inbox → Type 0
  IsUnique t = count (has_key id consumer) t ≤ 1

  pub row-record_received :
      (now : ℕ) (t u : Inbox)
      → record_received now t id consumer ≡ ok u
      → (row t ≡ none) × (row u ≡ some (new_event now id consumer))
  unfolding record_received find_by_event_id_and_consumer
  row-record_received now t u e = ground (
    arith,
    find-append_some (has_key id consumer) t (new_event now id consumer),
    eq_refl id,
    eq_refl consumer,
  )

  -- A first delivery stores a fresh row; a repeated one is rejected by the unique index.
  pub record_received_cases :
      (now : ℕ) (t : Inbox)
      → ((row t ≡ none)
          × (record_received now t id consumer ≡ ok (t ++ new_event now id consumer ∷ [])))
        ⊎ ((row t ≢ none) × (record_received now t id consumer ≡ err unique_constraint))
  unfolding record_received find_by_event_id_and_consumer
  record_received_cases now t = ground arith

  pub record_received-IsUnique :
      (now : ℕ) (t u : Inbox) → record_received now t id consumer ≡ ok u → IsUnique u
  unfolding record_received count
  record_received-IsUnique now t u e = elim (Option-cases (find (has_key id consumer) t)) [
    | inl missing ↦ ground (
      arith,
      missing,
      count-append (has_key id consumer) t (new_event now id consumer ∷ []),
      count-eq-zero_of_find (has_key id consumer) (has_key id consumer) (λ r h. h) t,
    )
    | inr (r, found) ↦ ground (arith, found)
  ]

  pub has_status-has_key :
      (from : List InboxStatus) (r : InboxEvent)
      → has_status id consumer from r ≡ true
      → has_key id consumer r ≡ true
  has_status-has_key from r h = ground arith

  -- What `updateMany` does to the row of the key: it is moved and counted exactly when its status
  -- is one of those listed.
  pub transition_status_hit :
      (t : Inbox) (from : List InboxStatus) (to : InboxStatus) (r : InboxEvent)
      → row t ≡ some r
      → is_in r.status from ≡ true
      → (row (transition_status t id consumer from to).0 ≡ some (set_status to r))
        × (1 ≤ (transition_status t id consumer from to).1)
  unfolding transition_status find_by_event_id_and_consumer
  transition_status_hit t from to r e h = ground (
    arith,
    find-update_where (has_key id consumer) (has_status id consumer from) (set_status to)
        (λ x. refl) t,
    find_sound (has_key id consumer) t r e,
    count-pos_of_find (has_key id consumer) (has_status id consumer from) t r e,
  )

  pub transition_status_miss :
      (t : Inbox) (from : List InboxStatus) (to : InboxStatus) (r : InboxEvent)
      → IsUnique t
      → row t ≡ some r
      → is_in r.status from ≡ false
      → transition_status t id consumer from to ≡ (t, 0)
  unfolding transition_status find_by_event_id_and_consumer
  transition_status_miss t from to r u e h =
      let none_matching : count (has_status id consumer from) t ≡ 0 =
        count-eq-zero_of_unique (has_key id consumer) (has_status id consumer from)
          (has_status-has_key from) t r u e (ground arith) in
      rw (
        none_matching,
        update_where-eq_of_count (has_status id consumer from) (set_status to) t none_matching,
      )

  pub transition_status_absent :
      (t : Inbox) (from : List InboxStatus) (to : InboxStatus)
      → row t ≡ none
      → transition_status t id consumer from to ≡ (t, 0)
  unfolding transition_status find_by_event_id_and_consumer
  transition_status_absent t from to e =
      let none_matching : count (has_status id consumer from) t ≡ 0 =
        count-eq-zero_of_find (has_key id consumer) (has_status id consumer from)
          (has_status-has_key from) t e in
      rw (
        none_matching,
        update_where-eq_of_count (has_status id consumer from) (set_status to) t none_matching,
      )

  pub transition_status-IsUnique :
      (t : Inbox) (from : List InboxStatus) (to : InboxStatus)
      → IsUnique t
      → IsUnique (transition_status t id consumer from to).0
  unfolding transition_status
  transition_status-IsUnique t from to u = omega (
    arith,
    count-update_where (has_key id consumer) (has_status id consumer from) (set_status to)
        (λ x. refl) t,
  )

  -- An update by the key writes the row of the key, and fails only where there is none.
  pub update_status_hit :
      (now : ℕ) (t : Inbox) (s : InboxStatus) (retry : Option ℕ) (r : InboxEvent)
      → row t ≡ some r
      → (u : Inbox) × (update_status now t id consumer s retry ≡ ok u)
        × (row u ≡ some (write_status now s retry r))
        × (IsUnique t → IsUnique u)
  unfolding update_status find_by_event_id_and_consumer
  update_status_hit now t s retry r e = (
    update_where (has_key id consumer) (write_status now s retry) t,
    ground (arith, e),
    ground (
      arith,
      find-update_where (has_key id consumer) (has_key id consumer) (write_status now s retry)
          (λ x. refl) t,
      find_sound (has_key id consumer) t r e,
    ),
    λ u. omega (
      arith,
      count-update_where (has_key id consumer) (has_key id consumer) (write_status now s retry)
          (λ x. refl) t,
    ),
  )

  pub update_status_absent :
      (now : ℕ) (t : Inbox) (s : InboxStatus) (retry : Option ℕ)
      → row t ≡ none
      → update_status now t id consumer s retry ≡ err record_not_found
  unfolding update_status find_by_event_id_and_consumer
  update_status_absent now t s retry e = ground arith

  pub update_status_cases :
      (now : ℕ) (t : Inbox) (s : InboxStatus) (retry : Option ℕ)
      → (update_status now t id consumer s retry ≡ err record_not_found)
        ⊎ ((u : Inbox) × (update_status now t id consumer s retry ≡ ok u)
            × (IsUnique t → IsUnique u))
  update_status_cases now t s retry = elim (Option-cases (row t)) [
    | inl missing ↦ inl (update_status_absent now t s retry missing)
    | inr (r, found) ↦
        let (u, run, _, keeps) = update_status_hit now t s retry r found in inr (u, run, keeps)
  ]

  pub prepare_for_replay_hit :
      (t : Inbox) (r : InboxEvent)
      → row t ≡ some r
      → is_in r.status (dlq_sent ∷ []) ≡ true
      → ((prepare_for_replay t id consumer).1 ≡ true)
        × (row (prepare_for_replay t id consumer).0 ≡ some (reset_for_replay r))
  unfolding prepare_for_replay find_by_event_id_and_consumer
  prepare_for_replay_hit t r e h = ground (
    arith,
    find-update_where (has_key id consumer) (has_status id consumer (dlq_sent ∷ []))
        reset_for_replay (λ x. refl) t,
    find_sound (has_key id consumer) t r e,
    count-pos_of_find (has_key id consumer) (has_status id consumer (dlq_sent ∷ [])) t r e,
  )

-- Rows of another key keep their contents and their number.
module _ (id consumer id' consumer' : String) (apart : (id' ≢ id) ⊎ (consumer' ≢ consumer)) where
  has_key_apart : (r : InboxEvent) → has_key id' consumer' r ≡ true → has_key id consumer r ≡ false
  has_key_apart r h = ground (
    arith,
    eq_iff r.consumer consumer,
    eq_iff r.event_id id,
    eq_iff r.consumer consumer',
    eq_iff r.event_id id',
  )

  pub record_received-other :
      (now : ℕ) (t u : Inbox)
      → record_received now t id consumer ≡ ok u
      → (row id' consumer' u ≡ row id' consumer' t)
        × (IsUnique id' consumer' t → IsUnique id' consumer' u)
  unfolding record_received find_by_event_id_and_consumer count
  record_received-other now t u e =
      let new = new_event now id consumer in
      let q = has_key id' consumer' in
      let other : q new ≡ false = elim (Bool-cases (q new)) [
        | inl same ↦ cc (has_key_apart new same, eq_refl id, eq_refl consumer)
        | inr differs ↦ differs
      ] in
      ground (arith, other, find-append_other q t new other, count-append q t (new ∷ []))

  pub transition_status-other :
      (t : Inbox) (from : List InboxStatus) (to : InboxStatus)
      → (row id' consumer' (transition_status t id consumer from to).0 ≡ row id' consumer' t)
        × (IsUnique id' consumer' t
            → IsUnique id' consumer' (transition_status t id consumer from to).0)
  unfolding transition_status find_by_event_id_and_consumer
  transition_status-other t from to = (
    find-update_where_other (has_key id' consumer') (has_status id consumer from) (set_status to)
        (λ x. refl) (λ r h. ground (arith, has_key_apart r h)) t,
    λ u. omega (
      arith,
      count-update_where (has_key id' consumer') (has_status id consumer from) (set_status to)
          (λ x. refl) t,
    ),
  )

  pub update_status-other :
      (now : ℕ) (t u : Inbox) (s : InboxStatus) (retry : Option ℕ)
      → update_status now t id consumer s retry ≡ ok u
      → (row id' consumer' u ≡ row id' consumer' t)
        × (IsUnique id' consumer' t → IsUnique id' consumer' u)
  unfolding update_status find_by_event_id_and_consumer
  update_status-other now t u s retry e = ground (
    arith,
    find-update_where_other (has_key id' consumer') (has_key id consumer) (write_status now s retry)
        (λ x. refl) has_key_apart t,
    count-update_where (has_key id' consumer') (has_key id consumer) (write_status now s retry)
        (λ x. refl) t,
  )

  pub record_received-other_cases :
      (now : ℕ) (t : Inbox)
      → (record_received now t id consumer ≡ err unique_constraint)
        ⊎ ((u : Inbox) × (record_received now t id consumer ≡ ok u)
            × (row id' consumer' u ≡ row id' consumer' t)
            × (IsUnique id' consumer' t → IsUnique id' consumer' u))
  record_received-other_cases now t = elim (record_received_cases id consumer now t) [
    | inr (_, refused) ↦ inl refused
    | inl (_, stored) ↦
        let (same, keeps) = record_received-other now t _ stored in inr (_, stored, same, keeps)
  ]

  pub update_status-other_cases :
      (now : ℕ) (t : Inbox) (s : InboxStatus) (retry : Option ℕ)
      → (update_status now t id consumer s retry ≡ err record_not_found)
        ⊎ ((u : Inbox) × (update_status now t id consumer s retry ≡ ok u)
            × (row id' consumer' u ≡ row id' consumer' t)
            × (IsUnique id' consumer' t → IsUnique id' consumer' u))
  update_status-other_cases now t s retry = elim (update_status_cases id consumer now t s retry) [
    | inl refused ↦ inl refused
    | inr (u, stored, _) ↦
        let (same, keeps) = update_status-other now t u s retry stored in
        inr (u, stored, same, keeps)
  ]
