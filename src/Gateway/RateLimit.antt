-- ===== src/Gateway/RateLimit.antt =====
-- apps/gateway/src/rate-limit: the Lua script of redis-rate-limit.repository.ts, which Redis runs as
-- one step, rate-limit.service.ts and rate-limit.middleware.ts. Times are milliseconds; the text of the
-- headers is the number that it writes.
pub mod Window
pub mod Limits
pub mod Repeated
pub mod Tests
use Prim.Native.String.{◌++◌}
use surgepay.Common.{
  includes, ◌||◌, none, false, not, leb, ltb, ◌/◌, some, ◌+◌, if◌then◌else◌, true, ◌*◌, Option, ◌-◌,
  Bool, ℕ, String,
}
use surgepay.Gateway.SortedSets.{Entry, Commands}
use surgepay.Messaging.Json.{negative, whole, Number}
use surgepay.Gateway.Auth.{without_query}

-- `{ allowed, remaining, resetTimeMs }` with the limit of the service.
pub record Quota : Type 0 where
  pub allowed : Bool
  pub limit : ℕ
  pub remaining : Number
  pub reset_time : ℕ

-- `limit - amount`, negative where the limit was lowered.
abbrev pub left_over : ℕ → ℕ → Number
left_over limit amount =
    if leb amount limit then whole (limit - amount) else negative (amount - limit)

-- `rate_limit:{merchantId}`
unfoldable pub rate_limit_key : String → String
rate_limit_key merchant_id = "rate_limit:" ++ merchant_id

abbrev pub reset_from : ℕ → ℕ → Option Entry → ℕ
reset_from now window none = now + window
reset_from now window (some e) = e.score + window

abbrev pub millis : ℕ → ℕ
millis seconds = seconds * 1000

-- How a call of Redis ends: answered, or failed, before the script ran or after.
pub data Link : Type 0 where
  answers lost_before lost_after : Link

abbrev pub fail_open : ℕ → ℕ → ℕ → Quota
fail_open now window limit = record {
  allowed = true;
  limit = limit;
  remaining = whole 1;
  reset_time = now + window;
}

module _ (redis : Commands) where
  -- `zremrangebyscore key -inf (now - window)`: below zero there is no score.
  unfoldable pub clear_before : ℕ → ℕ → String → redis.State → redis.State
  clear_before now window key s =
      if ltb now window then s else redis.zremrangebyscore now key (now - window) s

  abbrev pub admit : ℕ → ℕ → String → String → redis.State → redis.State
  admit now window key request_id s =
      redis.pexpire now key window (redis.zadd now key now request_id s)

  abbrev pub quota : ℕ → ℕ → ℕ → String → Bool → ℕ → redis.State → Quota
  quota now window limit key allowed amount s = record {
    allowed = allowed;
    limit = limit;
    remaining = left_over limit amount;
    reset_time = reset_from now window (redis.zfirst now key s);
  }

  -- The script after the old requests are cleared and the others counted.
  abbrev pub judge_amount : ℕ → ℕ → ℕ → String → String → ℕ → redis.State → redis.State × Quota
  judge_amount now window limit key request_id amount s =
      if ltb amount limit
      then (
        admit now window key request_id s,
        quota now window limit key true (amount + 1) (admit now window key request_id s),
      )
      else (s, quota now window limit key false amount s)

  -- The script, as `checkRateLimit` calls it.
  unfoldable pub check_rate_limit : ℕ → ℕ → ℕ → String → String → redis.State → redis.State × Quota
  check_rate_limit now window limit key request_id s =
      let cleared = clear_before now window key s in
      judge_amount now window limit key request_id (redis.zcard now key cleared) cleared

  unfoldable pub check_limit :
      Link → ℕ → ℕ → ℕ → String → String → redis.State → redis.State × Quota
  check_limit link now window_seconds limit merchant_id request_id s =
      let (t, quota) =
        check_rate_limit now (millis window_seconds) limit (rate_limit_key merchant_id) request_id
          s in
      elim link [
        | answers ↦ (t, quota)
        | lost_before ↦ (s, fail_open now (millis window_seconds) limit)
        | lost_after ↦ (t, fail_open now (millis window_seconds) limit)
      ]

-- `Math.ceil(ms / 1000)`
abbrev pub ceil_seconds : ℕ → ℕ
ceil_seconds ms = (ms + 999) / 1000

-- What the middleware does with a merchant's quota: passes on, or answers 429 with `Retry-After`.
pub data Verdict : Type 0 where
  passes : Verdict
  too_many_requests : ℕ → Verdict

-- The response headers and the verdict.
pub record Limited : Type 0 where
  pub limit : ℕ
  pub remaining : Number
  pub reset_seconds : ℕ
  pub verdict : Verdict

abbrev pub retry_after : ℕ → ℕ → ℕ
retry_after now reset_seconds =
    let wait = reset_seconds - now / 1000 in if leb 1 wait then wait else 1

unfoldable pub judge_quota : ℕ → Quota → Limited
judge_quota now q = record {
  limit = q.limit;
  remaining = q.remaining;
  reset_seconds = ceil_seconds q.reset_time;
  verdict =
      if not q.allowed
      then too_many_requests (retry_after now (ceil_seconds q.reset_time))
      else passes;
}

-- The health probes and the API documentation.
unfoldable pub is_unlimited : String → Bool
is_unlimited url =
    let path = without_query url in includes path "/health" || includes path "/swagger"

-- What the middleware does for a merchant; a request without one passes unlimited.
abbrev pub limit_merchant :
    (redis : Commands)
    → Link
    → ℕ
    → ℕ
    → ℕ
    → Option String
    → String
    → redis.State
    → redis.State × Option Limited
limit_merchant redis link now window_seconds limit none request_id s = (s, none)
limit_merchant redis link now window_seconds limit (some merchant_id) request_id s =
    let (t, quota) = check_limit redis link now window_seconds limit merchant_id request_id s in
    (t, some (judge_quota now quota))

-- `use` of the middleware; `none` is a request that passes without headers.
unfoldable pub use_rate_limit :
    (redis : Commands)
    → Link
    → ℕ
    → ℕ
    → ℕ
    → String
    → Option String
    → String
    → redis.State
    → redis.State × Option Limited
use_rate_limit redis link now window_seconds limit url merchant request_id s =
    if is_unlimited url
    then (s, none)
    else limit_merchant redis link now window_seconds limit merchant request_id s
