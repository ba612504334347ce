-- ===== src/Idempotency/Redis.antt =====
-- The record that the idempotency service stores
-- (apps/idempotency-service/src/interfaces/idempotency-record.interface.ts), and the commands of Redis
-- that it calls, with what the Redis documentation says of them. The two time stamps of a record are
-- written and never read, and left out.
use surgepay.Common.{
  ℕ, ◌+◌, ltb, String, Bool, true, false, Option, none, some, ◌≡◌, ◌≢◌, if◌then◌else◌,
}
use surgepay.Messaging.Json.{Json, Fields}

pub data RequestStatus : Type 0 where
  in_progress completed : RequestStatus

pub record IdempotencyRecord : Type 0 where
  pub status : RequestStatus
  pub owner_id : String
  pub request_hash : String
  pub status_code : Option ℕ
  pub headers : Option Fields
  pub body : Option Json

-- `GET key`, `SET key value EX ttl`, the same with `NX`, and `DEL key`, run at a time.
pub record Commands : Type 1 where
  pub State : Type 0
  pub get : ℕ → String → State → Option IdempotencyRecord
  pub set : ℕ → String → IdempotencyRecord → ℕ → State → State
  pub set_nx : ℕ → String → IdempotencyRecord → ℕ → State → State × Bool
  pub del : ℕ → String → State → State

-- A key lives until its time is over, unless a command on the same key changes that.
pub record IsRedis (redis : Commands) : Type 0 where
  pub get-set :
      (now later : ℕ) (key : String) (v : IdempotencyRecord) (ttl : ℕ) (s : redis.State)
      → redis.get later key (redis.set now key v ttl s)
        ≡ (if ltb later (now + ttl) then some v else none)
  pub get-set_other :
      (now later : ℕ) (key other : String) (v : IdempotencyRecord) (ttl : ℕ) (s : redis.State)
      → other ≢ key
      → redis.get later other (redis.set now key v ttl s) ≡ redis.get later other s
  pub set_nx_absent :
      (now : ℕ) (key : String) (v : IdempotencyRecord) (ttl : ℕ) (s : redis.State)
      → redis.get now key s ≡ none
      → redis.set_nx now key v ttl s ≡ (redis.set now key v ttl s, true)
  pub set_nx_present :
      (now : ℕ) (key : String) (v old : IdempotencyRecord) (ttl : ℕ) (s : redis.State)
      → redis.get now key s ≡ some old
      → redis.set_nx now key v ttl s ≡ (s, false)
  pub get-del :
      (now later : ℕ) (key : String) (s : redis.State)
      → redis.get later key (redis.del now key s) ≡ none
  pub get-del_other :
      (now later : ℕ) (key other : String) (s : redis.State)
      → other ≢ key
      → redis.get later other (redis.del now key s) ≡ redis.get later other s
