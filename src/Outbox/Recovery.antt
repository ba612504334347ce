-- ===== src/Outbox/Recovery.antt =====
-- Stale claims: the loop of `recoverStale` against one conditional update.
use surgepay.Outbox.Repository.{
  is_stale, recover_stale, insert_by_age, is_among, recover_row, has_id, by_age, ids_of, among,
  recover_each, Outbox, OutboxEvent,
}
use surgepay.Common.{
  sym, subst, ◌-◌, ◌∙◌, if◌then◌else◌, arith, eq_refl, All-keep, eq_iff, refl, [], false, ◌≡◌, List,
  keep, ℕ, ◌==◌, All, ◌∷◌, String, Bool, update_where,
}
use surgepay.Outbox.Lifecycle.{give_up_or_retry}

-- The primary key: no two rows share an id.
abbrev pub HasDistinctIds : Outbox → Type 0
HasDistinctIds [] = Unit
HasDistinctIds (r ∷ rs) = All (λ x. (x.id == r.id) ≡ false) rs × HasDistinctIds rs

-- Events of other ids leave the first row alone.
recover_each-cons :
    (retry_limit : ℕ) (es : List OutboxEvent) (r : OutboxEvent) (t : Outbox)
    → All (λ e. (r.id == e.id) ≡ false) es
    → recover_each retry_limit es (r ∷ t) ≡ r ∷ recover_each retry_limit es t
unfolding recover_each update_where
recover_each-cons retry_limit [] r t h = refl
recover_each-cons retry_limit (e ∷ es) r t (h, hs) = rw h (recover_each-cons retry_limit es r _ hs)

update_absent :
    (key : String) (f : OutboxEvent → OutboxEvent) (t : Outbox)
    → All (λ x. (x.id == key) ≡ false) t
    → update_where (has_id key) f t ≡ t
unfolding update_where
update_absent key f [] h = refl
update_absent key f (x ∷ xs) (h, hs) = rw (h, update_absent key f xs hs)

eq_false_sym : (a b : String) → (a == b) ≡ false → (b == a) ≡ false
eq_false_sym a b h = ground (arith, eq_iff a b, eq_iff b a)

fresh_sym :
    (r : OutboxEvent) (t : Outbox)
    → All (λ x. (x.id == r.id) ≡ false) t
    → All (λ x. (r.id == x.id) ≡ false) t
fresh_sym r [] h = tt
fresh_sym r (x ∷ xs) (h, hs) = (eq_false_sym x.id r.id h, fresh_sym r xs hs)

-- Recovering the kept rows one by one is one update by the same test.
recover_each-keep :
    (retry_limit : ℕ) (p : OutboxEvent → Bool) (t : Outbox)
    → HasDistinctIds t
    → recover_each retry_limit (keep p t) t ≡ update_where p (give_up_or_retry retry_limit) t
unfolding recover_each update_where keep
recover_each-keep retry_limit p [] h = refl
recover_each-keep retry_limit p (r ∷ rs) (fresh, h) =
    let apart = All-keep (λ x. (r.id == x.id) ≡ false) p rs (fresh_sym r rs fresh) in
    ground (
      arith,
      eq_refl r.id,
      update_absent r.id (recover_row retry_limit r) rs fresh,
      recover_each-cons retry_limit (keep p rs) (give_up_or_retry retry_limit r) rs apart,
      recover_each-cons retry_limit (keep p rs) r rs apart,
      recover_each-keep retry_limit p rs h,
    )

among-insert :
    (key : String) (r : OutboxEvent) (t : List OutboxEvent)
    → is_among (ids_of (insert_by_age r t)) key ≡ is_among (ids_of (r ∷ t)) key
unfolding insert_by_age
among-insert key r [] = refl
among-insert key r (x ∷ xs) = ground (arith, among-insert key r xs)

pub among-by_age :
    (key : String) (t : List OutboxEvent)
    → is_among (ids_of (by_age t)) key ≡ is_among (ids_of t) key
unfolding by_age
among-by_age key [] = refl
among-by_age key (r ∷ rs) = among-insert key r (by_age rs) ∙ ground (arith, among-by_age key rs)

among-absent :
    (r : OutboxEvent) (t : List OutboxEvent)
    → All (λ x. (r.id == x.id) ≡ false) t
    → is_among (ids_of t) r.id ≡ false
among-absent r [] h = refl
among-absent r (x ∷ xs) (h, hs) = rw (h, among-absent r xs hs)

keep_congr : (p q : OutboxEvent → Bool) (t : Outbox) → All (λ x. p x ≡ q x) t → keep p t ≡ keep q t
unfolding keep
keep_congr p q [] h = refl
keep_congr p q (x ∷ xs) (h, hs) = rw (h, keep_congr p q xs hs)

among_tail :
    (p : OutboxEvent → Bool) (r : OutboxEvent) (ids : List String) (t : Outbox)
    → All (λ x. (x.id == r.id) ≡ false) t
    → All (λ x. is_among ids x.id ≡ p x) t
    → All (λ x. is_among (if p r then r.id ∷ ids else ids) x.id ≡ p x) t
among_tail p r ids [] h k = tt
among_tail p r ids (x ∷ xs) (h, hs) (k, ks) = (ground arith, among_tail p r ids xs hs ks)

ids_of-keep :
    (p : OutboxEvent → Bool) (r : OutboxEvent) (rs : Outbox)
    → ids_of (keep p (r ∷ rs)) ≡ (if p r then r.id ∷ ids_of (keep p rs) else ids_of (keep p rs))
unfolding keep
ids_of-keep p r rs = ground arith

pub among_kept :
    (p : OutboxEvent → Bool) (t : Outbox)
    → HasDistinctIds t
    → All (λ x. is_among (ids_of (keep p t)) x.id ≡ p x) t
among_kept p [] h = tt
among_kept p (r ∷ rs) (fresh, h) =
    let apart = All-keep (λ x. (r.id == x.id) ≡ false) p rs (fresh_sym r rs fresh) in
    (
      rw (ids_of-keep p r rs) (ground (arith, eq_refl r.id, among-absent r (keep p rs) apart)),
      subst (λ ids. All (λ x. is_among ids x.id ≡ p x) rs) (sym (ids_of-keep p r rs))
          (among_tail p r (ids_of (keep p rs)) rs fresh (among_kept p rs h)),
    )

keep-among-keep :
    (p : OutboxEvent → Bool) (t : Outbox)
    → HasDistinctIds t
    → keep (among (ids_of (by_age (keep p t)))) t ≡ keep p t
keep-among-keep p t h = keep_congr _ p t (with_order t (among_kept p t h))
  where
    with_order :
        (u : Outbox)
        → All (λ x. is_among (ids_of (keep p t)) x.id ≡ p x) u
        → All (λ x. among (ids_of (by_age (keep p t))) x ≡ p x) u
    with_order [] k = tt
    with_order (x ∷ xs) (k, ks) = (among-by_age x.id (keep p t) ∙ k, with_order xs ks)

-- Where no two rows share an id, recovering stale claims is one conditional update: each stale claim
-- that no other transaction holds gets one more retry, and waits for it or is given up by the limit;
-- every other row is left alone.
pub recover_stale_lem :
    (locked : String → Bool) (now stale_timeout retry_limit : ℕ) (t : Outbox)
    → HasDistinctIds t
    → recover_stale locked now stale_timeout retry_limit t
      ≡ update_where (is_stale locked (now - stale_timeout)) (give_up_or_retry retry_limit) t
unfolding recover_stale
recover_stale_lem locked now stale_timeout retry_limit t h =
    rw (keep-among-keep (is_stale locked (now - stale_timeout)) t h)
      (recover_each-keep retry_limit (is_stale locked (now - stale_timeout)) t h)
