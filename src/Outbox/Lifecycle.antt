-- ===== src/Outbox/Lifecycle.antt =====
-- What the repository's operations do to the status and the retry count of the rows.
use surgepay.Outbox.Repository.{
  start_attempt, select_pending, among, has_id, recover_each, recover_stale, claim_pending,
  publish_listed, is_listed, in_batch, published, publishing, failed, Outbox, pending, Metadata,
  status_eq, retrying, recover_row, mark_published_batch, OutboxStatus, mark_failed_batch,
  OutboxEvent,
}
use surgepay.Common.{
  ◌+◌, leb, if◌then◌else◌, All-update_where, ap₂, [], Rows-update_where, ◌∷◌, Rows, refl, All, ◌<◌,
  ◌≤◌, String, arith, update_where, List, true, Bool, ℕ, ◌≡◌,
}

-- The moves of one operation; a published row stays published.
abbrev pub is_allowed : OutboxStatus → OutboxStatus → Bool
is_allowed pending publishing = true
is_allowed retrying publishing = true
is_allowed publishing published = true
is_allowed publishing failed = true
is_allowed publishing retrying = true
is_allowed failed retrying = true
is_allowed s t = status_eq s t

-- What an operation may do to a row: move its status along an edge, never lower its retry count, and
-- leave alone what the event is.
pub record Moves (r x : OutboxEvent) : Type 0 where
  pub status : is_allowed r.status x.status ≡ true
  pub retries : r.retry_count ≤ x.retry_count
  pub id : x.id ≡ r.id
  pub aggregate_id : x.aggregate_id ≡ r.aggregate_id
  pub event_type : x.event_type ≡ r.event_type
  pub payload : x.payload ≡ r.payload
  pub created_at : x.created_at ≡ r.created_at

pub same-Moves : (r : OutboxEvent) → Moves r r
same-Moves r = record {
  status = stays r.status;
  retries = omega arith;
  id = refl;
  aggregate_id = refl;
  event_type = refl;
  payload = refl;
  created_at = refl;
}
  where
    stays : (s : OutboxStatus) → is_allowed s s ≡ true
    stays pending = refl
    stays _ = refl

-- Publishing a batch moves rows only along the edges.
pub mark_published_batch-Moves :
    (now : ℕ) (items : List Metadata) (t : Outbox) → Rows Moves t (mark_published_batch now items t)
unfolding mark_published_batch
mark_published_batch-Moves now items t =
    Rows-update_where Moves (is_listed items) (publish_listed now items) same-Moves
      (λ r h. ground (arith, same-Moves r)) t

-- Failing a batch moves rows only along the edges.
pub mark_failed_batch-Moves :
    (retry_limit : ℕ) (ids : List String) (t : Outbox)
    → Rows Moves t (mark_failed_batch retry_limit ids t)
unfolding mark_failed_batch update_where
mark_failed_batch-Moves retry_limit ids [] = tt
mark_failed_batch-Moves retry_limit ids (r ∷ rs) =
    (ground (arith, same-Moves r), mark_failed_batch-Moves retry_limit ids rs)

-- The retry budget: a row waits for a retry only below the limit, and is given up only at it.
abbrev pub WithinBudget : ℕ → OutboxEvent → Type 0
WithinBudget retry_limit r =
    (r.status ≡ retrying → r.retry_count < retry_limit)
    × (r.status ≡ failed → retry_limit ≤ r.retry_count)

abbrev pub give_up_or_retry : ℕ → OutboxEvent → OutboxEvent
give_up_or_retry retry_limit r = record r {
  status = if leb retry_limit (r.retry_count + 1) then failed else retrying;
  retry_count = r.retry_count + 1;
}

-- Within the budget the two updates of `markFailedBatch` are one: each claimed row of the batch gets
-- one more retry, and waits for it or is given up by the limit; other rows are left alone.
pub mark_failed_batch_lem :
    (retry_limit : ℕ) (ids : List String) (t : Outbox)
    → All (WithinBudget retry_limit) t
    → mark_failed_batch retry_limit ids t
      ≡ update_where (in_batch ids publishing) (give_up_or_retry retry_limit) t
unfolding mark_failed_batch update_where
mark_failed_batch_lem retry_limit ids [] h = refl
mark_failed_batch_lem retry_limit ids (r ∷ rs) (h, hs) =
    ap₂ ◌∷◌ (ground arith) (mark_failed_batch_lem retry_limit ids rs hs)

-- Every operation of the relay keeps the budget, so no event is given up before its retries are used
-- and none is retried past them.
pub mark_failed_batch-WithinBudget :
    (retry_limit : ℕ) (ids : List String) (t : Outbox)
    → All (WithinBudget retry_limit) t
    → All (WithinBudget retry_limit) (mark_failed_batch retry_limit ids t)
mark_failed_batch-WithinBudget retry_limit ids t h =
    rw (mark_failed_batch_lem retry_limit ids t h) (
      All-update_where (WithinBudget retry_limit) (in_batch ids publishing)
        (give_up_or_retry retry_limit) (λ r k e. ground arith) t h)

pub mark_published_batch-WithinBudget :
    (retry_limit now : ℕ) (items : List Metadata) (t : Outbox)
    → All (WithinBudget retry_limit) t
    → All (WithinBudget retry_limit) (mark_published_batch now items t)
unfolding mark_published_batch
mark_published_batch-WithinBudget retry_limit now items t h =
    All-update_where (WithinBudget retry_limit) (is_listed items) (publish_listed now items)
      (λ r k e. ground arith) t h

pub claim_pending-WithinBudget :
    (retry_limit : ℕ) (locked : String → Bool) (now batch_size : ℕ) (t : Outbox)
    → All (WithinBudget retry_limit) t
    → All (WithinBudget retry_limit) (claim_pending locked now batch_size t).0
unfolding claim_pending
claim_pending-WithinBudget retry_limit locked now batch_size t h =
    All-update_where (WithinBudget retry_limit) (among (select_pending locked batch_size t))
      (start_attempt now) (λ r k e. ground arith) t h

-- What each recovered row has, and the others keep.
module _ (P : OutboxEvent → Type 0) (retry_limit : ℕ)
    (recovered : (e r : OutboxEvent) → P r → P (recover_row retry_limit e r)) where
  recover_each-All :
      (es : List OutboxEvent) (t : Outbox) → All P t → All P (recover_each retry_limit es t)
  unfolding recover_each
  recover_each-All [] t h = h
  recover_each-All (e ∷ es) t h = recover_each-All es _ (
      All-update_where P (has_id e.id) (recover_row retry_limit e) (λ r k same. recovered e r k) t
        h)

  pub recover_stale-All :
      (locked : String → Bool) (now stale_timeout : ℕ) (t : Outbox)
      → All P t
      → All P (recover_stale locked now stale_timeout retry_limit t)
  unfolding recover_stale
  recover_stale-All locked now stale_timeout t h = recover_each-All _ t h

pub recover_stale-WithinBudget :
    (retry_limit : ℕ) (locked : String → Bool) (now stale_timeout : ℕ) (t : Outbox)
    → All (WithinBudget retry_limit) t
    → All (WithinBudget retry_limit) (recover_stale locked now stale_timeout retry_limit t)
recover_stale-WithinBudget retry_limit locked now stale_timeout t h =
    recover_stale-All (WithinBudget retry_limit) retry_limit (λ e r k. ground arith) locked now
      stale_timeout t h
