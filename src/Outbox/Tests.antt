-- ===== src/Outbox/Tests.antt =====
-- The outbox repository on a small table.
use surgepay.Outbox.Repository.{
  is_among, start_attempt, is_stale, OutboxEvent, insert_by_age, by_age, pending, publishing,
  select_pending, OutboxStatus, recover_stale, Outbox, claim_pending,
}
use surgepay.Common.{
  refl, some, none, keep, [], update_where, ℕ, false, Bool, arith, ◌∷◌, ◌≡◌, String, All,
}
use surgepay.Outbox.Recovery.{recover_stale_lem, HasDistinctIds}
use surgepay.Outbox.Lifecycle.{give_up_or_retry, claim_pending-WithinBudget, WithinBudget}
use surgepay.Messaging.Json.{null}
use surgepay.Outbox.Claims.{select_pending-claim_pending}

abbrev pub event : String → OutboxStatus → ℕ → ℕ → OutboxEvent
event key s retries at = record {
  id = key;
  aggregate_id = "p-1";
  event_type = "PaymentInitiated";
  payload = null;
  correlation_id = "c-1";
  status = s;
  created_at = at;
  published_at = none;
  retry_count = retries;
  partition = none;
  offset = none;
  last_attempt_at = some at;
}

abbrev pub events : Outbox
events = event "a" publishing 2 10 ∷ event "b" pending 0 5 ∷ event "c" publishing 4 7 ∷ []

abbrev unlocked : String → Bool
unlocked key = false

events-WithinBudget : All (WithinBudget 5) events
events-WithinBudget = ground arith

distinct : HasDistinctIds events
distinct = ground arith

claim_test :
    (claim_pending unlocked 100 5 events).1 ≡ start_attempt 100 (event "b" pending 0 5) ∷ []
unfolding claim_pending select_pending by_age insert_by_age keep update_where
claim_test = refl

claim_pending-WithinBudget_example : All (WithinBudget 5) (claim_pending unlocked 100 5 events).0
claim_pending-WithinBudget_example =
    claim_pending-WithinBudget 5 unlocked 100 5 events events-WithinBudget

recover_stale_lem_example :
    recover_stale unlocked 100 20 5 events
    ≡ update_where (is_stale unlocked 80) (give_up_or_retry 5) events
recover_stale_lem_example = recover_stale_lem unlocked 100 20 5 events distinct

select_pending-claim_pending_example :
    All
      (λ key. is_among (select_pending unlocked 5 events) key ≡ false)
      (select_pending unlocked 9 (claim_pending unlocked 100 5 events).0)
select_pending-claim_pending_example = select_pending-claim_pending unlocked unlocked 100 5 9 events
