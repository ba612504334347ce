-- ===== src/Idempotency.antt =====
-- apps/idempotency-service: redis.repository.ts and idempotency.service.ts. The commands of Redis are
-- the interface `Commands`; a value is kept as the record that its JSON text stands for. Times and
-- the expiry of a key are seconds. `now` is the time at which Redis runs a command.
pub mod Redis
pub mod Laws
pub mod Locks
pub mod Slots
pub mod Expiry
pub mod RequestHash
pub mod Tests
use surgepay.Common.{
  ℕ, ◌*◌, String, Bool, true, false, ◌==◌, not, ◌&&◌, Option, none, some, if◌then◌else◌,
}
use surgepay.Messaging.Json.{Json, Fields}
use surgepay.Idempotency.Redis.{RequestStatus, in_progress, completed, IdempotencyRecord, Commands}
use Prim.Native.String.{◌++◌}

-- `idem:{merchantId}:{idempotencyKey}`
unfoldable pub get_redis_key : String → String → String
get_redis_key merchant_id idempotency_key = "idem:" ++ merchant_id ++ ":" ++ idempotency_key

-- What `check` resolves to or throws.
pub data CheckResult : Type 0 where
  miss : String → String → CheckResult
  replay : Option ℕ → Option Fields → Option Json → CheckResult
  unable_to_acquire key_reused already_in_progress : CheckResult

-- The final response of a request, as `complete` gets it.
pub record Response : Type 0 where
  pub status_code : ℕ
  pub headers : Fields
  pub body : Json

abbrev pub pending_record : String → String → IdempotencyRecord
pending_record hash owner = record {
  status = in_progress;
  owner_id = owner;
  request_hash = hash;
  status_code = none;
  headers = none;
  body = none;
}

abbrev pub completed_record : String → String → Response → IdempotencyRecord
completed_record hash owner response = record {
  status = completed;
  owner_id = owner;
  request_hash = hash;
  status_code = some response.status_code;
  headers = some response.headers;
  body = some response.body;
}

-- What `check` says of the record that it has read.
abbrev pub answer : String → IdempotencyRecord → CheckResult
answer hash r = if not (r.request_hash == hash) then key_reused else elim r.status [
  | in_progress ↦ already_in_progress
  | completed ↦ replay r.status_code r.headers r.body
]

-- The point where `check` waits for Redis.
pub data CheckPoint : Type 0 where
  acquire read reacquire reread : CheckPoint
  answered : CheckResult → CheckPoint

module _ (redis : Commands) where
  unfoldable pub find_request : ℕ → String → redis.State → Option IdempotencyRecord
  find_request now key s = redis.get now key s

  unfoldable pub create_in_progress :
      ℕ → String → String → String → ℕ → redis.State → redis.State × Bool
  create_in_progress now key hash owner ttl_hours s =
      redis.set_nx now key (pending_record hash owner) (ttl_hours * 3600) s

  -- The script: nothing happens unless the key holds a record of the same owner.
  unfoldable pub mark_completed :
      ℕ → String → String → String → Response → ℕ → redis.State → redis.State × Bool
  mark_completed now key owner hash response ttl_hours s = elim (redis.get now key s) [
    | none ↦ (s, false)
    | some r ↦
        if r.owner_id == owner
        then (redis.set now key (completed_record hash owner response) (ttl_hours * 3600) s, true)
        else (s, false)
  ]

  unfoldable pub delete : ℕ → String → String → redis.State → redis.State × Bool
  delete now key owner s = elim (redis.get now key s) [
    | none ↦ (s, false)
    | some r ↦ if r.owner_id == owner then (redis.del now key s, true) else (s, false)
  ]

  -- One command of `check` and what the code makes of its reply. Other clients may run between two
  -- commands, so the state is an argument of each.
  unfoldable pub check_step :
      ℕ → String → String → String → ℕ → CheckPoint → redis.State → redis.State × CheckPoint
  check_step now key hash owner ttl_hours acquire s =
      let (after, acquired) = create_in_progress now key hash owner ttl_hours s in
      (after, if acquired then answered (miss owner hash) else read)
  check_step now key hash owner ttl_hours read s =
      (s, elim (find_request now key s) [ none ↦ reacquire | some r ↦ answered (answer hash r) ])
  check_step now key hash owner ttl_hours reacquire s =
      let (after, acquired) = create_in_progress now key hash owner ttl_hours s in
      (after, if acquired then answered (miss owner hash) else reread)
  check_step now key hash owner ttl_hours reread s = (
    s,
    elim (find_request now key s) [
      | none ↦ answered unable_to_acquire
      | some r ↦ answered (answer hash r)
    ],
  )
  check_step now key hash owner ttl_hours (answered r) s = (s, answered r)

  -- `check` with no other client between its commands, which run at the times given.
  unfoldable pub check :
      (at_1 at_2 at_3 at_4 : ℕ)
      → String
      → String
      → String
      → ℕ
      → redis.State
      → redis.State × CheckPoint
  check at_1 at_2 at_3 at_4 key hash owner ttl_hours s =
      let (s_1, p_1) = check_step at_1 key hash owner ttl_hours acquire s in
      let (s_2, p_2) = check_step at_2 key hash owner ttl_hours p_1 s_1 in
      let (s_3, p_3) = check_step at_3 key hash owner ttl_hours p_2 s_2 in
      check_step at_4 key hash owner ttl_hours p_3 s_3

  -- `complete`: `false` is the exception LOCK_OWNERSHIP_MISMATCH.
  unfoldable pub complete :
      ℕ → String → String → String → Response → ℕ → redis.State → redis.State × Bool
  complete now key owner hash response ttl_hours s =
      mark_completed now key owner hash response ttl_hours s

  -- `cleanup` only logs whether the lock was released.
  unfoldable pub cleanup : ℕ → String → String → redis.State → redis.State
  cleanup now key owner s = (delete now key owner s).0
