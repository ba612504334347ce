-- ===== src/Gateway/SortedSets.antt =====
-- The sorted sets of Redis that the rate limiter's script uses, with what the Redis documentation says
-- of them. Scores and times are milliseconds on one clock.
use surgepay.Common.{
  ◌≢◌, ◌&&◌, ◌+◌, if◌then◌else◌, count, keep, length, [], some, ◌⊎◌, ◌==◌, ◌∷◌, none, not, ltb, ◌≡◌,
  Bool, ◌≤◌, Option, String, List, ℕ,
}

pub record Entry : Type 0 where
  pub member : String
  pub score : ℕ

-- `ZREMRANGEBYSCORE key -inf upto`, `ZCARD key`, `ZADD key score member`, `PEXPIRE key ms` and
-- `ZRANGE key 0 0 WITHSCORES`, run at a time; `members` is what a key holds at a time, by its score.
pub record Commands : Type 1 where
  pub State : Type 0
  pub members : ℕ → String → State → List Entry
  pub zremrangebyscore : ℕ → String → ℕ → State → State
  pub zcard : ℕ → String → State → ℕ
  pub zadd : ℕ → String → ℕ → String → State → State
  pub pexpire : ℕ → String → ℕ → State → State
  pub zfirst : ℕ → String → State → Option Entry

abbrev pub lowest : List Entry → Option Entry
lowest [] = none
lowest (e ∷ es) = some e

abbrev pub is_above : ℕ → Entry → Bool
is_above upto e = ltb upto e.score

abbrev pub is_other : String → Entry → Bool
is_other member e = not (e.member == member)

-- A key keeps its set until its time is over, and a command on it changes only that key.
pub record IsRedis (redis : Commands) : Type 0 where
  pub members-later :
      (now later : ℕ) (key : String) (s : redis.State)
      → now ≤ later
      → (redis.members later key s ≡ redis.members now key s) ⊎ (redis.members later key s ≡ [])
  pub zcard_lem :
      (now : ℕ) (key : String) (s : redis.State)
      → redis.zcard now key s ≡ length (redis.members now key s)
  pub zfirst_lem :
      (now : ℕ) (key : String) (s : redis.State)
      → redis.zfirst now key s ≡ lowest (redis.members now key s)
  pub members-zremrangebyscore :
      (now later upto : ℕ) (key : String) (s : redis.State)
      → now ≤ later
      → redis.members later key (redis.zremrangebyscore now key upto s)
        ≡ keep (is_above upto) (redis.members later key s)
  pub count-zadd :
      (now score : ℕ) (key member : String) (s : redis.State) (p : Entry → Bool)
      → count p (redis.members now key (redis.zadd now key score member s))
        ≡ (if p (record { member = member; score = score }) then 1 else 0)
          + count (λ e. p e && is_other member e) (redis.members now key s)
  pub members-pexpire :
      (now later ms : ℕ) (key : String) (s : redis.State)
      → now ≤ later
      → redis.members later key (redis.pexpire now key ms s)
        ≡ (if ltb later (now + ms) then redis.members now key s else [])
  pub zremrangebyscore_other :
      (now later upto : ℕ) (key other : String) (s : redis.State)
      → other ≢ key
      → redis.members later other (redis.zremrangebyscore now key upto s)
        ≡ redis.members later other s
  pub zadd_other :
      (now later score : ℕ) (key other member : String) (s : redis.State)
      → other ≢ key
      → redis.members later other (redis.zadd now key score member s) ≡ redis.members later other s
  pub pexpire_other :
      (now later ms : ℕ) (key other : String) (s : redis.State)
      → other ≢ key
      → redis.members later other (redis.pexpire now key ms s) ≡ redis.members later other s
