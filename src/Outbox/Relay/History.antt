-- ===== src/Outbox/Relay/History.antt =====
-- The life of the rows over a run of the relay: the retry budget, and that no event is lost.
use surgepay.Outbox.Repository.{
  Metadata, published, OutboxStatus, by_age, start_attempt, is_open, among, ids_of, is_among,
  Outbox, OutboxEvent, claim_pending, select_pending,
}
use surgepay.Common.{
  refl, either_branch, ◌≤◌, ap, ◌++◌, Rows-trans, Rows-update_where, subst, keep, inr, ◌∙◌, [],
  zero, inl, sym, Bool-cases, Rows-refl, All-map, arith, suc, ◌∷◌, true, ◌≡◌, take, Rows, All, Bool,
  List, String, ℕ, update_where,
}
use surgepay.Outbox.Relay.{
  inserts, settles, here, polls, begins, then_step, Steps, Step, run_publish, fail_events, Relay,
  Updates, finish_publish, begin_cycle, recovery_failed, recovered, Config,
}
use surgepay.Outbox.Relay.{Config, recover, Recovery}
use surgepay.Outbox.Recovery.{among_kept, recover_stale_lem, among-by_age, HasDistinctIds}
use surgepay.Outbox.Lifecycle.{
  claim_pending-WithinBudget, recover_stale-WithinBudget, mark_published_batch-WithinBudget,
  mark_failed_batch-WithinBudget, WithinBudget, mark_published_batch-Moves, mark_failed_batch-Moves,
  is_allowed, same-Moves, Moves,
}
use surgepay.Outbox.Publisher.{delivered, rejected, Publication}
use surgepay.Outbox.Relay.Capacity.{steps-IsBounded, IsBounded}
use surgepay.Outbox.Relay.Delivery.{poll_once-outbox}

among-take :
    (n : ℕ) (t : List OutboxEvent) (key : String)
    → is_among (ids_of (take n t)) key ≡ true
    → is_among (ids_of t) key ≡ true
among-take zero t key h = cc
among-take (suc n) [] key h = cc
among-take (suc n) (x ∷ xs) key h = ground (arith, h, among-take n xs key)

-- The rows of the selected ids were open.
selected_open :
    (locked : String → Bool) (batch_size : ℕ) (t : Outbox)
    → HasDistinctIds t
    → All (λ r. among (select_pending locked batch_size t) r ≡ true → is_open locked r ≡ true) t
unfolding select_pending
selected_open locked batch_size t h =
    All-map _ _
      (λ r k taken.
        sym k
        ∙ sym (among-by_age r.id (keep (is_open locked) t))
        ∙ among-take batch_size (by_age (keep (is_open locked) t)) r.id taken)
      t (among_kept (is_open locked) t h)

Rows-update_where-All :
    (p : OutboxEvent → Bool) (f : OutboxEvent → OutboxEvent) (t : Outbox)
    → All (λ r. p r ≡ true → Moves r (f r)) t
    → Rows Moves t (update_where p f t)
unfolding update_where
Rows-update_where-All p f [] h = tt
Rows-update_where-All p f (r ∷ rs) (h, hs) = (
  elim (Bool-cases (p r)) [
    | inl yes_sent ↦ rw yes_sent (h yes_sent)
    | inr other ↦ rw other (same-Moves r)
  ],
  Rows-update_where-All p f rs hs,
)

claim_pending-Moves :
    (locked : String → Bool) (now batch_size : ℕ) (t : Outbox)
    → HasDistinctIds t
    → Rows Moves t (claim_pending locked now batch_size t).0
unfolding claim_pending
claim_pending-Moves locked now batch_size t h = Rows-update_where-All _ _ t (
    All-map _ _ (λ r k taken. started locked now r (k taken)) t
      (selected_open locked batch_size t h))
  where
    started :
        (locked : String → Bool) (now : ℕ) (r : OutboxEvent)
        → is_open locked r ≡ true
        → Moves r (start_attempt now r)
    started locked now r k = ground (arith, same-Moves r)

recover-Moves :
    (config : Config) (recovery : Recovery) (t : Outbox)
    → HasDistinctIds t
    → Rows Moves t (recover config recovery t)
recover-Moves config recovery_failed t h = Rows-refl Moves same-Moves t
recover-Moves config (recovered locked now) t h =
    subst (Rows Moves t)
      (sym (recover_stale_lem locked now config.stale_timeout config.retry_limit t h))
      (Rows-update_where Moves _ _ same-Moves (λ r k. ground (arith, same-Moves r)) t)

fail_events-Moves :
    (config : Config) (updates : Updates) (events : List OutboxEvent) (t : Outbox)
    → Rows Moves t (fail_events config updates events t)
fail_events-Moves config updates events t =
    either_branch (Rows Moves t) updates.takes_failed _ t
      (mark_failed_batch-Moves config.retry_limit (ids_of events) t) (Rows-refl Moves same-Moves t)

finish_publish-Moves :
    (config : Config) (updates : Updates) (events : List OutboxEvent)
    (answer : Publication (List Metadata)) (t : Outbox)
    → Rows Moves t (finish_publish config updates events answer t)
unfolding finish_publish
finish_publish-Moves config updates events (rejected x) t =
    fail_events-Moves config updates events t
finish_publish-Moves config updates events (delivered places) t =
    either_branch (Rows Moves t) updates.takes_published _ _
      (mark_published_batch-Moves updates.now places t) (fail_events-Moves config updates events t)

-- What any number of operations leave of a row: its contents, a published status, and at least its
-- retries.
pub record Persists (r x : OutboxEvent) : Type 0 where
  pub published : r.status ≡ published → x.status ≡ published
  pub retries : r.retry_count ≤ x.retry_count
  pub id : x.id ≡ r.id
  pub aggregate_id : x.aggregate_id ≡ r.aggregate_id
  pub event_type : x.event_type ≡ r.event_type
  pub payload : x.payload ≡ r.payload
  pub created_at : x.created_at ≡ r.created_at

stays_published : (s t : OutboxStatus) → is_allowed s t ≡ true → s ≡ published → t ≡ published
stays_published published published h e = refl
stays_published s t h e = ground (arith, h, e)

Moves-Persists : (r x : OutboxEvent) → Moves r x → Persists r x
Moves-Persists r x h = record {
  published = stays_published r.status x.status h.status;
  retries = h.retries;
  id = h.id;
  aggregate_id = h.aggregate_id;
  event_type = h.event_type;
  payload = h.payload;
  created_at = h.created_at;
}

Persists-refl : (r : OutboxEvent) → Persists r r
Persists-refl r = Moves-Persists r r (same-Moves r)

Persists-trans : (r x y : OutboxEvent) → Persists r x → Persists x y → Persists r y
Persists-trans r x y h k = record {
  published = λ e. k.published (h.published e);
  retries = omega (arith, h.retries, k.retries);
  id = k.id ∙ h.id;
  aggregate_id = k.aggregate_id ∙ h.aggregate_id;
  event_type = k.event_type ∙ h.event_type;
  payload = k.payload ∙ h.payload;
  created_at = k.created_at ∙ h.created_at;
}

-- The later table is the earlier one, row by row, below the rows inserted since.
abbrev pub Extends : Outbox → Outbox → Type 0
Extends t u = (inserted : Outbox) × (kept : Outbox) × (u ≡ inserted ++ kept) × Rows Persists t kept

Rows-Persists : (t u : Outbox) → Rows Moves t u → Rows Persists t u
Rows-Persists [] [] h = tt
Rows-Persists (x ∷ xs) (y ∷ ys) (h, hs) = (Moves-Persists x y h, Rows-Persists xs ys hs)
Rows-Persists [] (y ∷ ys) h = absurd h
Rows-Persists (x ∷ xs) [] h = absurd h

below :
    (before after v : Outbox)
    → Rows Moves (before ++ after) v
    → (inserted : Outbox) × (kept : Outbox) × (v ≡ inserted ++ kept) × Rows Moves after kept
below [] after v h = ([], v, refl, h)
below (x ∷ before) after (y ∷ ys) (h, hs) =
    let (inserted, kept, parts, moved) = below before after ys hs in
    (y ∷ inserted, kept, ap (λ l. y ∷ l) parts, moved)
below (x ∷ before) after [] h = absurd h

extend : (t u v : Outbox) → Extends t u → Rows Moves u v → Extends t v
extend t u v (inserted, kept, parts, persists) h =
    let (newer, last, split, moved) = below inserted kept v (subst (λ l. Rows Moves l v) parts h) in
    (
      newer,
      last,
      split,
      Rows-trans Persists Persists-trans t kept last persists (Rows-Persists kept last moved),
    )

module _ (is_date : String → Bool) (config : Config) where
  Step-Extends :
      (first : Outbox) (s t : Relay)
      → HasDistinctIds s.outbox
      → Extends first s.outbox
      → Step is_date config s t
      → Extends first t.outbox
  unfolding begin_cycle run_publish
  Step-Extends first s t h k (begins recovery idle) =
      extend first s.outbox _ k (recover-Moves config recovery s.outbox h)
  Step-Extends first s t h k (polls answer) =
      poll_once-outbox config (Extends first) answer s
        (λ locked now size m.
          extend first s.outbox _ m (claim_pending-Moves locked now size s.outbox h))
        k
  Step-Extends first s t h k (settles broker updates before after events split) =
      extend first s.outbox _ k (finish_publish-Moves config updates events _ s.outbox)
  Step-Extends first s t h (inserted, kept, parts, persists) (inserts row new fresh) =
      (row ∷ inserted, kept, ap (λ l. row ∷ l) parts, persists)

  -- No event is lost: from a state within its bounds and with distinct ids, however the steps
  -- interleave and whatever fails, each row of the table is still there at its place below the rows
  -- inserted since, with its contents, at least its retries, and PUBLISHED if it was.
  pub steps-Extends :
      (s t : Relay) → IsBounded config s → Steps is_date config s t → Extends s.outbox t.outbox
  steps-Extends s t h here = ([], s.outbox, refl, Rows-refl Persists Persists-refl s.outbox)
  steps-Extends s t h (then_step run step) =
      Step-Extends s.outbox _ t (steps-IsBounded is_date config s _ h run).0
        (steps-Extends s _ h run) step

-- The retry budget over a run.
fail_events-WithinBudget :
    (config : Config) (updates : Updates) (events : List OutboxEvent) (t : Outbox)
    → All (WithinBudget config.retry_limit) t
    → All (WithinBudget config.retry_limit) (fail_events config updates events t)
fail_events-WithinBudget config updates events t h =
    either_branch (All (WithinBudget config.retry_limit)) updates.takes_failed _ t
      (mark_failed_batch-WithinBudget config.retry_limit (ids_of events) t h) h

finish_publish-WithinBudget :
    (config : Config) (updates : Updates) (events : List OutboxEvent)
    (answer : Publication (List Metadata)) (t : Outbox)
    → All (WithinBudget config.retry_limit) t
    → All (WithinBudget config.retry_limit) (finish_publish config updates events answer t)
unfolding finish_publish
finish_publish-WithinBudget config updates events (rejected x) t h =
    fail_events-WithinBudget config updates events t h
finish_publish-WithinBudget config updates events (delivered places) t h =
    either_branch (All (WithinBudget config.retry_limit)) updates.takes_published _ _
      (mark_published_batch-WithinBudget config.retry_limit updates.now places t h)
      (fail_events-WithinBudget config updates events t h)

module _ (is_date : String → Bool) (config : Config) where
  Step-WithinBudget :
      (s t : Relay)
      → All (WithinBudget config.retry_limit) s.outbox
      → Step is_date config s t
      → All (WithinBudget config.retry_limit) t.outbox
  unfolding begin_cycle run_publish
  Step-WithinBudget s t h (begins recovery_failed idle) = h
  Step-WithinBudget s t h (begins (recovered locked now) idle) =
      recover_stale-WithinBudget config.retry_limit locked now config.stale_timeout s.outbox h
  Step-WithinBudget s t h (polls answer) =
      poll_once-outbox config (All (WithinBudget config.retry_limit)) answer s
        (λ locked now size k.
          claim_pending-WithinBudget config.retry_limit locked now size s.outbox k)
        h
  Step-WithinBudget s t h (settles broker updates before after events split) =
      finish_publish-WithinBudget config updates events _ s.outbox h
  Step-WithinBudget s t h (inserts row new fresh) = (ground (arith, new), h)

  -- The retry budget holds through every run: no row waits for a retry at the limit or above, and none
  -- is given up below it, however the steps interleave and whatever fails.
  pub steps-WithinBudget :
      (s t : Relay)
      → All (WithinBudget config.retry_limit) s.outbox
      → Steps is_date config s t
      → All (WithinBudget config.retry_limit) t.outbox
  steps-WithinBudget s t h here = h
  steps-WithinBudget s t h (then_step run step) =
      Step-WithinBudget _ t (steps-WithinBudget s _ h run) step
