-- ===== src/Outbox/Drain.antt =====
-- Repeated claims reach every waiting event.
use surgepay.Common.{
  ap, count-update_where, ◌<◌, All-map, zero, All, count-le, ◌∙◌, refl, eq_refl, true, take, ◌&&◌,
  ◌+◌, ◌≡◌, [], ◌∷◌, suc, length, arith, false, List, ◌≤◌, keep, update_where, Bool, String, ℕ,
  count,
}
use surgepay.Outbox.Repository.{
  insert_by_age, ids_of, start_attempt, by_age, OutboxEvent, among, is_open, select_pending,
  claim_pending, Outbox,
}
use surgepay.Outbox.Sizes.{length-keep, length-by_age}
use surgepay.Outbox.Recovery.{among-by_age}

-- No other transaction holds a row.
abbrev pub unlocked : String → Bool
unlocked key = false

-- Rows that wait for a claim.
abbrev pub waiting : Outbox → ℕ
waiting = count (is_open unlocked)

count-start_attempt :
    (ids : List String) (now : ℕ) (t : Outbox)
    → waiting (update_where (among ids) (start_attempt now) t)
        + count (λ r. is_open unlocked r && among ids r) t
      ≡ waiting t
unfolding count update_where
count-start_attempt ids now [] = omega arith
count-start_attempt ids now (r ∷ rs) = ground (arith, count-start_attempt ids now rs)

module _ (p : OutboxEvent → Bool) where
  count-take-le : (n : ℕ) (l : List OutboxEvent) → count p (take n l) ≤ count p l
  unfolding count
  count-take-le zero l = omega arith
  count-take-le (suc n) [] = omega arith
  count-take-le (suc n) (x ∷ xs) = ground (arith, count-take-le n xs)

  count-insert_by_age :
      (r : OutboxEvent) (l : List OutboxEvent) → count p (insert_by_age r l) ≡ count p (r ∷ l)
  unfolding count insert_by_age
  count-insert_by_age r [] = refl
  count-insert_by_age r (x ∷ xs) = ground (arith, count-insert_by_age r xs)

  count-by_age : (l : List OutboxEvent) → count p (by_age l) ≡ count p l
  unfolding count by_age
  count-by_age [] = refl
  count-by_age (r ∷ rs) = ground (arith, count-insert_by_age r (by_age rs), count-by_age rs)

  count-keep-le : (q : OutboxEvent → Bool) (l : List OutboxEvent) → count p (keep q l) ≤ count p l
  unfolding count keep
  count-keep-le q [] = omega arith
  count-keep-le q (x ∷ xs) = ground (arith, count-keep-le q xs)

-- The rows of a list are among its own ids.
count-own : (l : List OutboxEvent) → length l ≤ count (among (ids_of l)) l
unfolding count
count-own [] = omega arith
count-own (x ∷ xs) = ground (
  arith,
  eq_refl x.id,
  count-own xs,
  count-le (among (ids_of (x ∷ xs))) (among (ids_of xs)) (λ r h. ground (arith, h)) xs,
)

-- Every row that passes the test is among the ids of those that do.
count-covered :
    (p : OutboxEvent → Bool) (ids : List String) (t : Outbox)
    → All (λ r. p r ≡ true → among ids r ≡ true) t
    → count (λ r. p r && among ids r) t ≡ count p t
unfolding count
count-covered p ids [] h = refl
count-covered p ids (r ∷ rs) (h, hs) = ground (arith, h, count-covered p ids rs hs)

covered :
    (p : OutboxEvent → Bool) (t : Outbox)
    → All (λ r. p r ≡ true → among (ids_of (keep p t)) r ≡ true) t
unfolding keep
covered p [] = tt
covered p (r ∷ rs) = (
  λ h. ground (arith, h, eq_refl r.id),
  All-map _ _ (λ x h k. ground (arith, h k)) rs (covered p rs),
)

take_short : (n : ℕ) (l : List OutboxEvent) → length (take n l) < n → take n l ≡ l
take_short zero l h = absurd (omega arith)
take_short (suc n) [] h = refl
take_short (suc n) (x ∷ xs) h = ap (λ ys. x ∷ ys) (take_short n xs (omega arith))

-- A claim hands out at least the rows that it selects.
length-selected-le :
    (now n : ℕ) (t : Outbox)
    → length (take n (by_age (keep (is_open unlocked) t)))
      ≤ length (claim_pending unlocked now n t).1
unfolding claim_pending select_pending
length-selected-le now n t =
    let oldest = by_age (keep (is_open unlocked) t) in
    let ids = ids_of (take n oldest) in
    let claimed = update_where (among ids) (start_attempt now) t in
    omega (
      arith,
      length-by_age (keep (among ids) claimed),
      length-keep (among ids) claimed,
      count-update_where (among ids) (among ids) (start_attempt now) (λ r. refl) t,
      count-own (take n oldest),
      count-take-le (among ids) n oldest,
      count-by_age (among ids) (keep (is_open unlocked) t),
      count-keep-le (among ids) (is_open unlocked) t,
    )

all_selected :
    (now : ℕ) (t : Outbox)
    → waiting
        (update_where (among (ids_of (by_age (keep (is_open unlocked) t)))) (start_attempt now) t)
      ≡ 0
all_selected now t =
    let ids = ids_of (by_age (keep (is_open unlocked) t)) in
    let sorted =
      All-map (λ r. is_open unlocked r ≡ true → among (ids_of (keep (is_open unlocked) t)) r ≡ true)
        (λ r. is_open unlocked r ≡ true → among ids r ≡ true)
        (λ r h k. among-by_age r.id (keep (is_open unlocked) t) ∙ h k) t
        (covered (is_open unlocked) t) in
    omega (arith, count-start_attempt ids now t, count-covered (is_open unlocked) ids t sorted)

-- A claim that hands out fewer events than it was asked for leaves no row waiting, while no other
-- transaction holds a row.
pub claim_pending_short :
    (now n : ℕ) (t : Outbox)
    → length (claim_pending unlocked now n t).1 < n
    → waiting (claim_pending unlocked now n t).0 ≡ 0
unfolding claim_pending select_pending
claim_pending_short now n t h =
    let oldest = by_age (keep (is_open unlocked) t) in
    let whole : take n oldest ≡ oldest =
      take_short n oldest (omega (arith, h, length-selected-le now n t)) in
    ap (λ l. waiting (update_where (among (ids_of l)) (start_attempt now) t)) whole
    ∙ all_selected now t
