-- ===== src/Outbox/Repository.antt =====
-- apps/outbox-relay/src/repositories/outbox.repository.ts and poller.ts, over the table
-- `OutboxEvent`. A transaction is one step. `FOR UPDATE SKIP LOCKED` is the argument `locked`: the
-- rows that another transaction holds. Times are milliseconds.
use surgepay.Messaging.Json.{Json}
use surgepay.Common.{
  leb, if◌then◌else◌, none, not, ◌||◌, [], find, ◌-◌, ltb, ◌==◌, take, some, update_where, ◌∷◌,
  Option, count, map, ◌&&◌, true, keep, ◌∷◌, false, String, ◌+◌, List, Bool, ℕ,
}

pub data OutboxStatus : Type 0 where
  pending publishing published failed retrying : OutboxStatus

pub record OutboxEvent : Type 0 where
  pub id : String
  pub aggregate_id : String
  pub event_type : String
  pub payload : Json
  pub correlation_id : String
  pub status : OutboxStatus
  pub created_at : ℕ
  pub published_at : Option ℕ
  pub retry_count : ℕ
  pub partition : Option ℕ
  pub offset : Option String
  pub last_attempt_at : Option ℕ

abbrev pub Outbox : Type 0
Outbox = List OutboxEvent

abbrev pub status_eq : OutboxStatus → OutboxStatus → Bool
status_eq pending pending = true
status_eq publishing publishing = true
status_eq published published = true
status_eq failed failed = true
status_eq retrying retrying = true
status_eq _ _ = false

abbrev pub has_id : String → OutboxEvent → Bool
has_id key r = r.id == key

-- `id: { in: ids }`
abbrev pub is_among : List String → String → Bool
is_among [] key = false
is_among (i ∷ ids) key = if key == i then true else is_among ids key

abbrev pub among : List String → OutboxEvent → Bool
among ids r = is_among ids r.id

abbrev pub ids_of : List OutboxEvent → List String
ids_of = map (λ r. r.id)

-- `ORDER BY "createdAt" ASC`
unfoldable pub insert_by_age : OutboxEvent → List OutboxEvent → List OutboxEvent
insert_by_age r [] = r ∷ []
insert_by_age r (x ∷ xs) =
    if leb r.created_at x.created_at then r ∷ x ∷ xs else x ∷ insert_by_age r xs

unfoldable pub by_age : List OutboxEvent → List OutboxEvent
by_age [] = []
by_age (r ∷ rs) = insert_by_age r (by_age rs)

abbrev pub is_eligible : OutboxStatus → Bool
is_eligible pending = true
is_eligible retrying = true
is_eligible _ = false

abbrev pub is_open : (String → Bool) → OutboxEvent → Bool
is_open locked r = is_eligible r.status && not (locked r.id)

abbrev pub start_attempt : ℕ → OutboxEvent → OutboxEvent
start_attempt now r = record r { status = publishing; last_attempt_at = some now }

-- The ids that the raw query of `claimPending` selects.
unfoldable pub select_pending : (String → Bool) → ℕ → Outbox → List String
select_pending locked batch_size t = ids_of (take batch_size (by_age (keep (is_open locked) t)))

-- The new table and the claimed events. With no id selected the update changes nothing.
unfoldable pub claim_pending : (String → Bool) → ℕ → ℕ → Outbox → Outbox × List OutboxEvent
claim_pending locked now batch_size t =
    let ids = select_pending locked batch_size t in
    let claimed = update_where (among ids) (start_attempt now) t in
    (claimed, by_age (keep (among ids) claimed))

abbrev pub has_id_and_status : String → OutboxStatus → OutboxEvent → Bool
has_id_and_status key s r = has_id key r && status_eq r.status s

-- An `update` whose where clause fits no row is rejected: `none`.
abbrev pub update_one : (OutboxEvent → Bool) → (OutboxEvent → OutboxEvent) → Outbox → Option Outbox
update_one p f t = elim (find p t) [ none ↦ none | some _ ↦ some (update_where p f t) ]

abbrev pub publish_row : ℕ → ℕ → String → OutboxEvent → OutboxEvent
publish_row now part off r = record r {
  status = published;
  published_at = some now;
  partition = some part;
  offset = some off;
}

unfoldable pub mark_published : ℕ → String → ℕ → String → Outbox → Option Outbox
mark_published now key part off =
    update_one (has_id_and_status key publishing) (publish_row now part off)

abbrev pub fail_row : OutboxEvent → OutboxEvent
fail_row r = record r { status = failed; retry_count = r.retry_count + 1 }

unfoldable pub mark_failed : String → Outbox → Option Outbox
mark_failed key = update_one (has_id_and_status key publishing) fail_row

abbrev pub retry_row : OutboxEvent → OutboxEvent
retry_row r = record r { status = retrying }

unfoldable pub mark_retrying : String → Outbox → Option Outbox
mark_retrying key = update_one (has_id_and_status key failed) retry_row

-- `lastAttemptAt < threshold`, false on NULL. A threshold before the epoch selects no row.
abbrev pub is_before : ℕ → Option ℕ → Bool
is_before threshold none = false
is_before threshold (some at) = ltb at threshold

abbrev pub is_stale : (String → Bool) → ℕ → OutboxEvent → Bool
is_stale locked threshold r =
    status_eq r.status publishing && is_before threshold r.last_attempt_at && not (locked r.id)

abbrev pub recovered_status : ℕ → ℕ → OutboxStatus
recovered_status retry_limit retries = if ltb retries retry_limit then retrying else failed

abbrev pub recover_row : ℕ → OutboxEvent → OutboxEvent → OutboxEvent
recover_row retry_limit e r = record r {
  status = recovered_status retry_limit (e.retry_count + 1);
  retry_count = e.retry_count + 1;
}

-- The loop of `recoverStale` over the events read before.
unfoldable pub recover_each : ℕ → List OutboxEvent → Outbox → Outbox
recover_each retry_limit [] t = t
recover_each retry_limit (e ∷ es) t =
    recover_each retry_limit es (update_where (has_id e.id) (recover_row retry_limit e) t)

unfoldable pub recover_stale : (String → Bool) → ℕ → ℕ → ℕ → Outbox → Outbox
recover_stale locked now stale_timeout retry_limit t =
    let ids = ids_of (by_age (keep (is_stale locked (now - stale_timeout)) t)) in
    recover_each retry_limit (keep (among ids) t) t

unfoldable pub count_pending : Outbox → ℕ
count_pending = count (λ r.
    status_eq r.status pending || status_eq r.status retrying || status_eq r.status publishing)

unfoldable pub count_failed : Outbox → ℕ
count_failed = count (λ r. status_eq r.status failed)

unfoldable pub count_published : Outbox → ℕ
count_published = count (λ r. status_eq r.status published)

-- Where the broker put an event.
pub record Metadata : Type 0 where
  pub id : String
  pub partition : ℕ
  pub offset : String

abbrev pub metadata_for : List Metadata → OutboxEvent → Option Metadata
metadata_for items r = find (λ m. r.id == m.id) items

abbrev pub is_listed : List Metadata → OutboxEvent → Bool
is_listed items r = elim (metadata_for items r) [
  | none ↦ false
  | some _ ↦ status_eq r.status publishing
]

abbrev pub publish_listed : ℕ → List Metadata → OutboxEvent → OutboxEvent
publish_listed now items r = elim (metadata_for items r) [
  | none ↦ r
  | some m ↦ publish_row now m.partition m.offset r
]

-- The join with VALUES; of two entries for one id the first is taken.
unfoldable pub mark_published_batch : ℕ → List Metadata → Outbox → Outbox
mark_published_batch now items = update_where (is_listed items) (publish_listed now items)

abbrev pub in_batch : List String → OutboxStatus → OutboxEvent → Bool
in_batch ids s r = among ids r && status_eq r.status s

unfoldable pub mark_failed_batch : ℕ → List String → Outbox → Outbox
mark_failed_batch retry_limit ids t =
    update_where (λ r. in_batch ids failed r && ltb r.retry_count retry_limit) retry_row
      (update_where (in_batch ids publishing) fail_row t)
