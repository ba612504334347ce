-- ===== src/Idempotency/Expiry.antt =====
-- `extendTTL` and `exists` of redis.repository.ts, over the two commands of Redis that they call.
use surgepay.Common.{
  ℕ, ◌+◌, ◌*◌, ◌<◌, ltb, String, Bool, true, false, none, some, ◌≡◌, ◌=ℕ◌, if◌then◌else◌, arith,
  refl, Option-cases, inl, inr,
}
use surgepay.Idempotency.Redis.{Commands, IsRedis, IdempotencyRecord}
use surgepay.Idempotency.{check, answer, answered}
use surgepay.Idempotency.Laws.{check_taken}
use surgepay.Idempotency.Locks.{Holds}

-- `EXISTS key` with the number of keys it finds, and `EXPIRE key seconds` with 1 where it took effect.
pub record KeyCommands (redis : Commands) : Type 0 where
  pub exists : ℕ → String → redis.State → ℕ
  pub expire : ℕ → String → ℕ → redis.State → redis.State × ℕ

-- What the documentation of Redis says of them.
pub record IsExpiring (redis : Commands) (keys : KeyCommands redis) : Type 0 where
  pub exists_absent :
      (now : ℕ) (key : String) (s : redis.State)
      → redis.get now key s ≡ none
      → keys.exists now key s ≡ 0
  pub exists_present :
      (now : ℕ) (key : String) (s : redis.State) (v : IdempotencyRecord)
      → redis.get now key s ≡ some v
      → keys.exists now key s ≡ 1
  pub expire_absent :
      (now : ℕ) (key : String) (ttl : ℕ) (s : redis.State)
      → redis.get now key s ≡ none
      → keys.expire now key ttl s ≡ (s, 0)
  pub expire_present :
      (now : ℕ) (key : String) (ttl : ℕ) (s : redis.State) (v : IdempotencyRecord)
      → redis.get now key s ≡ some v
      → (keys.expire now key ttl s).1 ≡ 1
  pub get-expire :
      (now later : ℕ) (key : String) (ttl : ℕ) (s : redis.State) (v : IdempotencyRecord)
      → redis.get now key s ≡ some v
      → redis.get later key (keys.expire now key ttl s).0
        ≡ (if ltb later (now + ttl) then some v else none)

module _ (redis : Commands) (keys : KeyCommands redis) where
  unfoldable pub extend_ttl : ℕ → String → ℕ → redis.State → redis.State × Bool
  extend_ttl now key ttl_hours s =
      let (after, result) = keys.expire now key (ttl_hours * 3600) s in (after, result =ℕ 1)

  unfoldable pub exists : ℕ → String → redis.State → Bool
  exists now key s = ltb 0 (keys.exists now key s)

  module _ (laws : IsExpiring redis keys) where
    -- `exists` tells whether a read at the same time finds a record.
    exists_lem :
        (now : ℕ) (key : String) (s : redis.State)
        → exists now key s ≡ elim (redis.get now key s) [ none ↦ false | some v ↦ true ]
    unfolding exists
    exists_lem now key s = elim (Option-cases (redis.get now key s)) [
      | inl absent ↦ rw (absent, laws.exists_absent now key s absent) refl
      | inr (v, present) ↦ rw (present, laws.exists_present now key s v present) refl
    ]

    extended :
        (now : ℕ) (key : String) (ttl_hours : ℕ) (r : IdempotencyRecord) (s : redis.State)
        → redis.get now key s ≡ some r
        → Holds redis (now + ttl_hours * 3600) key r (extend_ttl now key ttl_hours s).0
    unfolding extend_ttl
    extended now key ttl_hours r s held later before =
        ground (arith, laws.get-expire now later key (ttl_hours * 3600) s r held, before)

    -- A record that has not expired is kept by `extendTTL` for the new time from now on, whoever calls it:
    -- until then a check is answered by the record.
    check-extend_ttl :
        IsRedis redis
        → (now at_1 at_2 at_3 at_4 : ℕ) (key hash owner : String) (ttl_hours fresh_hours : ℕ)
          (r : IdempotencyRecord) (s : redis.State)
        → redis.get now key s ≡ some r
        → at_1 < now + ttl_hours * 3600
        → at_2 < now + ttl_hours * 3600
        → ((extend_ttl now key ttl_hours s).1 ≡ true)
          × (check redis at_1 at_2 at_3 at_4 key hash owner fresh_hours
                (extend_ttl now key ttl_hours s).0
              ≡ ((extend_ttl now key ttl_hours s).0, answered (answer hash r)))
    unfolding extend_ttl
    check-extend_ttl redis_laws now at_1 at_2 at_3 at_4 key hash owner ttl_hours fresh_hours r s
          held one two =
        (
          rw (laws.expire_present now key (ttl_hours * 3600) s r held) refl,
          check_taken redis redis_laws (now + ttl_hours * 3600) at_1 at_2 at_3 at_4 key hash owner
              fresh_hours r _ (extended now key ttl_hours r s held) one two,
        )
