-- ===== src/Outbox/Claims.antt =====
-- `claimPending`: what a claim hands out, and what a later claim can select.
use surgepay.Outbox.Repository.{
  is_open, publishing, start_attempt, is_among, ids_of, among, Outbox, select_pending, by_age,
  insert_by_age, claim_pending, OutboxEvent,
}
use surgepay.Common.{
  either_branch, All-keep_test, All-keep, All-map, keep, some, ◌⊎◌, All-take, leb, false, arith,
  ◌≡◌, [], ◌∷◌, ℕ, Bool, All, String, update_where, List,
}

All-insert_by_age :
    (P : OutboxEvent → Type 0) (r : OutboxEvent) (t : List OutboxEvent)
    → P r
    → All P t
    → All P (insert_by_age r t)
unfolding insert_by_age
All-insert_by_age P r [] h k = (h, k)
All-insert_by_age P r (x ∷ xs) h (k, ks) =
    either_branch (All P) (leb r.created_at x.created_at) (r ∷ x ∷ xs) (x ∷ insert_by_age r xs)
      (h, (k, ks)) (k, All-insert_by_age P r xs h ks)

All-by_age : (P : OutboxEvent → Type 0) (t : List OutboxEvent) → All P t → All P (by_age t)
unfolding by_age
All-by_age P [] h = tt
All-by_age P (r ∷ rs) (h, hs) = All-insert_by_age P r (by_age rs) h (All-by_age P rs hs)

All-with :
    (P Q : OutboxEvent → Type 0) (t : List OutboxEvent) → All P t → All Q t → All (λ x. P x × Q x) t
All-with P Q [] h k = tt
All-with P Q (x ∷ xs) (h, hs) (k, ks) = ((h, k), All-with P Q xs hs ks)

All-ids_of : (P : String → Type 0) (t : List OutboxEvent) → All (λ x. P x.id) t → All P (ids_of t)
All-ids_of P [] h = tt
All-ids_of P (x ∷ xs) (h, hs) = (h, All-ids_of P xs hs)

-- A row that a claim does not touch, or a claimed one.
abbrev pub IsClaimedOrOther : List String → ℕ → OutboxEvent → Type 0
IsClaimedOrOther ids now r =
    (among ids r ≡ false) ⊎ ((r.status ≡ publishing) × (r.last_attempt_at ≡ some now))

claimed_table :
    (ids : List String) (now : ℕ) (t : Outbox)
    → All (IsClaimedOrOther ids now) (update_where (among ids) (start_attempt now) t)
unfolding update_where
claimed_table ids now [] = tt
claimed_table ids now (r ∷ rs) = (ground arith, claimed_table ids now rs)

-- Every event that a claim hands out is PUBLISHING in the table's new state, with the time of the
-- claim as its last attempt.
pub claim_pending-All :
    (locked : String → Bool) (now batch_size : ℕ) (t : Outbox)
    → All
        (λ r. (r.status ≡ publishing) × (r.last_attempt_at ≡ some now))
        (claim_pending locked now batch_size t).1
unfolding claim_pending
claim_pending-All locked now batch_size t =
    let ids = select_pending locked batch_size t in
    let claimed = update_where (among ids) (start_attempt now) t in
    All-by_age _ (keep (among ids) claimed) (
      All-map _ _ (λ r h. ground (arith, h)) (keep (among ids) claimed)
        (All-with _ _ (keep (among ids) claimed)
          (All-keep (IsClaimedOrOther ids now) (among ids) claimed (claimed_table ids now t))
          (All-keep_test (among ids) claimed)))

-- No later claim on the table that a claim leaves selects one of its events, whatever rows other
-- transactions hold and however large the batches are.
pub select_pending-claim_pending :
    (locked later_locked : String → Bool) (now batch_size later_size : ℕ) (t : Outbox)
    → All
        (λ key. is_among (select_pending locked batch_size t) key ≡ false)
        (select_pending later_locked later_size (claim_pending locked now batch_size t).0)
unfolding claim_pending select_pending
select_pending-claim_pending locked later_locked now batch_size later_size t =
    let ids = select_pending locked batch_size t in
    let claimed = update_where (among ids) (start_attempt now) t in
    All-ids_of _ _ (
      All-take _ later_size _ (
        All-by_age _ (keep (is_open later_locked) claimed) (
          All-map _ _ (λ r h. ground (arith, h)) (keep (is_open later_locked) claimed)
            (All-with _ _ (keep (is_open later_locked) claimed)
              (All-keep (IsClaimedOrOther ids now) (is_open later_locked) claimed
                (claimed_table ids now t))
              (All-keep_test (is_open later_locked) claimed)))))
