-- ===== src/Outbox/Sizes.antt =====
-- The primary key under the repository's operations, and how many events a claim hands out.
use surgepay.Outbox.Repository.{
  is_open, start_attempt, has_id, recover_stale, publish_listed, ids_of, among, Metadata,
  select_pending, Outbox, OutboxEvent, by_age, insert_by_age, mark_failed_batch,
  mark_published_batch, claim_pending,
}
use surgepay.Common.{
  length-take-le, inr, take, eq_iff, inl, count-update_where, sym, refl, ◌+◌, if◌then◌else◌, [],
  Bool-cases, subst, false, ◌∷◌, update_where, suc, ◌≤◌, ◌==◌, arith, ◌∷◌, ◌≡◌, All, Bool, length,
  keep, ℕ, String, count, List,
}
use surgepay.Outbox.Recovery.{recover_stale_lem, HasDistinctIds}

-- Updates that keep ids.
module _ (p : OutboxEvent → Bool) (f : OutboxEvent → OutboxEvent)
    (keeps : (r : OutboxEvent) → (f r).id ≡ r.id) where
  apart-update_where :
      (key : String) (t : Outbox)
      → All (λ x. (x.id == key) ≡ false) t
      → All (λ x. (x.id == key) ≡ false) (update_where p f t)
  unfolding update_where
  apart-update_where key [] h = tt
  apart-update_where key (r ∷ rs) (h, hs) = (ground (arith, keeps r), apart-update_where key rs hs)

  pub HasDistinctIds-update_where :
      (t : Outbox) → HasDistinctIds t → HasDistinctIds (update_where p f t)
  unfolding update_where
  HasDistinctIds-update_where [] h = tt
  HasDistinctIds-update_where (r ∷ rs) (fresh, h) =
      let same : (if p r then f r else r).id ≡ r.id = ground (arith, keeps r) in
      (
        subst (λ key. All (λ x. (x.id == key) ≡ false) (update_where p f rs)) (sym same)
            (apart-update_where r.id rs fresh),
        HasDistinctIds-update_where rs h,
      )

pub claim_pending-HasDistinctIds :
    (locked : String → Bool) (now batch_size : ℕ) (t : Outbox)
    → HasDistinctIds t
    → HasDistinctIds (claim_pending locked now batch_size t).0
unfolding claim_pending
claim_pending-HasDistinctIds locked now batch_size t h =
    HasDistinctIds-update_where _ _ (λ r. refl) t h

pub mark_failed_batch-HasDistinctIds :
    (retry_limit : ℕ) (ids : List String) (t : Outbox)
    → HasDistinctIds t
    → HasDistinctIds (mark_failed_batch retry_limit ids t)
unfolding mark_failed_batch
mark_failed_batch-HasDistinctIds retry_limit ids t h =
    HasDistinctIds-update_where _ _ (λ r. refl) _ (HasDistinctIds-update_where _ _ (λ r. refl) t h)

publish_listed-id :
    (now : ℕ) (items : List Metadata) (r : OutboxEvent) → (publish_listed now items r).id ≡ r.id
publish_listed-id now items r = ground arith

pub mark_published_batch-HasDistinctIds :
    (now : ℕ) (items : List Metadata) (t : Outbox)
    → HasDistinctIds t
    → HasDistinctIds (mark_published_batch now items t)
unfolding mark_published_batch
mark_published_batch-HasDistinctIds now items t h =
    HasDistinctIds-update_where _ _ (publish_listed-id now items) t h

pub recover_stale-HasDistinctIds :
    (locked : String → Bool) (now stale_timeout retry_limit : ℕ) (t : Outbox)
    → HasDistinctIds t
    → HasDistinctIds (recover_stale locked now stale_timeout retry_limit t)
recover_stale-HasDistinctIds locked now stale_timeout retry_limit t h =
    subst HasDistinctIds (sym (recover_stale_lem locked now stale_timeout retry_limit t h))
      (HasDistinctIds-update_where _ _ (λ r. refl) t h)

length-insert_by_age :
    (r : OutboxEvent) (t : List OutboxEvent) → length (insert_by_age r t) ≡ suc (length t)
unfolding insert_by_age
length-insert_by_age r [] = refl
length-insert_by_age r (x ∷ xs) = ground (arith, length-insert_by_age r xs)

pub length-by_age : (t : List OutboxEvent) → length (by_age t) ≡ length t
unfolding by_age
length-by_age [] = refl
length-by_age (r ∷ rs) = omega (arith, length-insert_by_age r (by_age rs), length-by_age rs)

pub length-keep : (p : OutboxEvent → Bool) (t : List OutboxEvent) → length (keep p t) ≡ count p t
unfolding keep count
length-keep p [] = refl
length-keep p (x ∷ xs) = ground (arith, length-keep p xs)

length-ids_of : (t : List OutboxEvent) → length (ids_of t) ≡ length t
length-ids_of [] = refl
length-ids_of (x ∷ xs) = omega (arith, length-ids_of xs)

count-has_id-absent :
    (key : String) (t : Outbox) → All (λ x. (x.id == key) ≡ false) t → count (has_id key) t ≡ 0
unfolding count
count-has_id-absent key [] h = refl
count-has_id-absent key (x ∷ xs) (h, hs) = rw h (count-has_id-absent key xs hs)

count-has_id-le : (key : String) (t : Outbox) → HasDistinctIds t → count (has_id key) t ≤ 1
unfolding count
count-has_id-le key [] h = omega arith
count-has_id-le key (r ∷ rs) (fresh, h) = elim (Bool-cases (r.id == key)) [
  | inl mine ↦
      let same : r.id ≡ key = (eq_iff r.id key).0 mine in
      let none_left =
        count-has_id-absent key rs (subst (λ k. All (λ x. (x.id == k) ≡ false) rs) same fresh) in
      ground (arith, mine, none_left)
  | inr other ↦ ground (arith, other, count-has_id-le key rs h)
]

count-among-cons :
    (key : String) (ids : List String) (t : Outbox)
    → count (among (key ∷ ids)) t ≤ count (has_id key) t + count (among ids) t
unfolding count
count-among-cons key ids [] = omega arith
count-among-cons key ids (x ∷ xs) = ground (arith, count-among-cons key ids xs)

count-among-nil : (t : Outbox) → count (among []) t ≡ 0
unfolding count
count-among-nil [] = refl
count-among-nil (x ∷ xs) = count-among-nil xs

count-among-le :
    (ids : List String) (t : Outbox) → HasDistinctIds t → count (among ids) t ≤ length ids
count-among-le [] t h = omega (arith, count-among-nil t)
count-among-le (key ∷ ids) t h =
    omega (arith, count-among-cons key ids t, count-has_id-le key t h, count-among-le ids t h)

-- A claim hands out no more events than it was asked for.
pub length-claim_pending :
    (locked : String → Bool) (now batch_size : ℕ) (t : Outbox)
    → HasDistinctIds t
    → length (claim_pending locked now batch_size t).1 ≤ batch_size
unfolding claim_pending select_pending
length-claim_pending locked now batch_size t h =
    let ids = select_pending locked batch_size t in
    let claimed = update_where (among ids) (start_attempt now) t in
    omega (
      arith,
      length-by_age (keep (among ids) claimed),
      length-keep (among ids) claimed,
      count-update_where (among ids) (among ids) (start_attempt now) (λ r. refl) t,
      count-among-le ids t h,
      length-ids_of (take batch_size (by_age (keep (is_open locked) t))),
      length-take-le batch_size (by_age (keep (is_open locked) t)),
    )
