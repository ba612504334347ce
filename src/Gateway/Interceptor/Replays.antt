-- ===== src/Gateway/Interceptor/Replays.antt =====
-- Retried requests at the gateway: the handler's answer is replayed, and a failure is not kept.
use surgepay.Idempotency.Redis.{IdempotencyRecord, Commands, IsRedis}
use surgepay.Gateway.Interceptor.{
  throws, Handled, runs, response_for, checked_of, plan_for, fails, HeaderValue, received,
  set_header, replays, returns, end_request, begin_request,
}
use surgepay.Common.{
  ◌≤◌, eq_refl, none, ltb, refl, false, arith, Bool, some, ◌==◌, if◌then◌else◌, ◌*◌, ◌+◌, ◌<◌, true,
  ◌≡◌, List, Option, String, ℕ,
}
use surgepay.Messaging.Json.{Number, str, Json}
use surgepay.Idempotency.Locks.{
  operations-Holds, create_absent, Holds, run_operations, ByOthers, Timed,
}
use surgepay.Idempotency.{
  pending_record, check_step, delete, already_in_progress, check, cleanup, complete, key_reused,
  replay, answered, get_redis_key, create_in_progress,
}
use surgepay.Idempotency.Laws.{acquired-Holds, check_while_locked, check_after_completion}
use surgepay.Gateway.Interceptor.Cached.{
  received_body, headers_to_cache_lem, cached_body, cached_headers,
}

module _ (redis : Commands) (laws : IsRedis redis) where
  end_request_completes :
      (number_text : Number → String) (now : ℕ) (merchant_id key hash owner : String)
      (ttl_hours status : ℕ) (headers : List (String × HeaderValue)) (body : Option Json)
      (s : redis.State)
      → status < 500
      → end_request redis number_text now merchant_id key hash owner ttl_hours
          (returns status headers body)
          s
        ≡ (complete redis now
            (get_redis_key merchant_id key)
            owner
            hash
            (received (response_for number_text status headers body))
            ttl_hours
            s).0
  unfolding end_request
  end_request_completes number_text now merchant_id key hash owner ttl_hours status headers body s
        small =
      let test : ltb status 500 ≡ true = ground arith in rw test refl

  -- The first request of a key acquired its lock at `now`; what the handler answers, the interceptor
  -- completes before the lock expires, and whatever other owners do until the stored answer expires, a
  -- later request with the same key and body runs no handler: it gets the same status, the headers as
  -- texts but those of the connection, with the marker of a replay, and the body as JSON writes it, an
  -- empty object in place of a falsy one. One with another body gets 422.
  pub begin_request-end_request :
      (number_text : Number → String) (now done at_1 at_2 at_3 at_4 : ℕ)
      (merchant_id key hash owner other_hash other_owner : String) (status ttl_hours : ℕ)
      (headers : List (String × HeaderValue)) (body : Option Json) (before after : List Timed)
      (s : redis.State)
      → (create_in_progress redis now (get_redis_key merchant_id key) hash owner ttl_hours s).1
        ≡ true
      → 0 < status
      → status < 500
      → ByOthers redis (now + ttl_hours * 3600) owner before
      → done < now + ttl_hours * 3600
      → ByOthers redis (done + ttl_hours * 3600) owner after
      → at_1 < done + ttl_hours * 3600
      → at_2 < done + ttl_hours * 3600
      → let locked =
          run_operations redis before
            (create_in_progress redis now
              (get_redis_key merchant_id key)
              hash
              owner
              ttl_hours
              s).0 in
        let ended =
          end_request redis number_text done merchant_id key hash owner ttl_hours
            (returns status headers body)
            locked in
        (begin_request redis at_1 at_2 at_3 at_4 merchant_id key other_hash other_owner ttl_hours
          (run_operations redis after ended)).1
        ≡ (if hash == other_hash
            then replays status
                (set_header "Idempotency-Replayed"
                  (str "true")
                  (cached_headers number_text headers))
                (some (cached_body body))
            else fails 422)
  unfolding begin_request
  begin_request-end_request number_text now done at_1 at_2 at_3 at_4 merchant_id key hash owner
        other_hash other_owner status ttl_hours headers body before after s acquired positive small
        others in_time later_others before_1 before_2 =
      let checked =
        check_after_completion redis laws now done at_1 at_2 at_3 at_4
          (get_redis_key merchant_id key) hash owner other_hash other_owner
          (received (response_for number_text status headers body)) ttl_hours before after s
          acquired others in_time later_others before_1 before_2 in
      rw
        (
          end_request_completes number_text done merchant_id key hash owner ttl_hours status headers
              body _ small,
          checked.1,
          headers_to_cache_lem number_text headers,
          received_body number_text status headers body,
        )
        (either_point (hash == other_hash))
    where
      either_point :
          (b : Bool)
          → plan_for (
              checked_of (
                answered (
                  if b
                  then replay
                      (some status)
                      (some (cached_headers number_text headers))
                      (some (cached_body body))
                  else key_reused)))
            ≡ (if b
                then replays status
                    (set_header "Idempotency-Replayed"
                      (str "true")
                      (cached_headers number_text headers))
                    (some (cached_body body))
                else fails 422)
      either_point true = ground (arith, positive)
      either_point false = refl

  -- While the first request of a key holds its lock, whatever other owners do, a later request of the key
  -- runs no handler: it gets 409, or 422 where its body is another.
  pub begin_request_while_locked :
      (now at_1 at_2 at_3 at_4 : ℕ) (merchant_id key hash owner other_hash other_owner : String)
      (ttl_hours : ℕ) (ops : List Timed) (s : redis.State)
      → (create_in_progress redis now (get_redis_key merchant_id key) hash owner ttl_hours s).1
        ≡ true
      → ByOthers redis (now + ttl_hours * 3600) owner ops
      → at_1 < now + ttl_hours * 3600
      → at_2 < now + ttl_hours * 3600
      → (begin_request redis at_1 at_2 at_3 at_4 merchant_id key other_hash other_owner ttl_hours (
          run_operations redis ops
            (create_in_progress redis now
              (get_redis_key merchant_id key)
              hash
              owner
              ttl_hours
              s).0)).1
        ≡ (if hash == other_hash then fails 409 else fails 422)
  unfolding begin_request
  begin_request_while_locked now at_1 at_2 at_3 at_4 merchant_id key hash owner other_hash
        other_owner ttl_hours ops s acquired others before_1 before_2 =
      rw
        (check_while_locked redis laws now at_1 at_2 at_3 at_4 (get_redis_key merchant_id key) hash
          owner other_hash other_owner ttl_hours ops s acquired others before_1 before_2)
        (either_point (hash == other_hash))
    where
      either_point :
          (b : Bool)
          → plan_for (checked_of (answered (if b then already_in_progress else key_reused)))
            ≡ (if b then fails 409 else fails 422)
      either_point true = refl
      either_point false = refl

  -- The owner of an unexpired lock releases it.
  cleanup_held :
      (until now : ℕ) (key owner : String) (r : IdempotencyRecord) (s : redis.State)
      → Holds redis until key r s
      → now < until
      → r.owner_id ≡ owner
      → cleanup redis now key owner s ≡ redis.del now key s
  unfolding cleanup delete
  cleanup_held until now key owner r s h before mine =
      ground (arith, h now before, mine, eq_refl owner)

  acquires :
      (at_1 at_2 at_3 at_4 : ℕ) (merchant_id key hash owner : String) (ttl_hours : ℕ)
      (s : redis.State)
      → redis.get at_1 (get_redis_key merchant_id key) s ≡ none
      → (begin_request redis at_1 at_2 at_3 at_4 merchant_id key hash owner ttl_hours s).1
        ≡ runs owner hash
  unfolding begin_request check check_step
  acquires at_1 at_2 at_3 at_4 merchant_id key hash owner ttl_hours s absent =
      rw
        (create_absent redis laws at_1 (get_redis_key merchant_id key) hash owner ttl_hours s
          absent)
        refl

  -- A handler that failed: it threw, or answered 500 or more.
  abbrev pub IsFailure : Handled → Type 0
  IsFailure (returns status headers body) = 500 ≤ status
  IsFailure (throws status) = Unit

  end_request_cleans :
      (number_text : Number → String) (now : ℕ) (merchant_id key hash owner : String)
      (ttl_hours : ℕ) (handled : Handled) (s : redis.State)
      → IsFailure handled
      → end_request redis number_text now merchant_id key hash owner ttl_hours handled s
        ≡ cleanup redis now (get_redis_key merchant_id key) owner s
  unfolding end_request
  end_request_cleans number_text now merchant_id key hash owner ttl_hours
        (returns status headers body) s large =
      let test : ltb status 500 ≡ false = ground arith in rw test refl
  end_request_cleans number_text now merchant_id key hash owner ttl_hours (throws status) s failed =
      refl

  -- The first request of a key acquired its lock and its handler failed; the interceptor released the lock
  -- before it expired, whatever other owners did meanwhile. Then the next request of the key runs its
  -- handler, whatever its body: a failure is not kept.
  pub failure_not_kept :
      (number_text : Number → String) (now done at_1 at_2 at_3 at_4 : ℕ)
      (merchant_id key hash owner other_hash other_owner : String) (ttl_hours : ℕ)
      (handled : Handled) (before : List Timed) (s : redis.State)
      → (create_in_progress redis now (get_redis_key merchant_id key) hash owner ttl_hours s).1
        ≡ true
      → IsFailure handled
      → ByOthers redis (now + ttl_hours * 3600) owner before
      → done < now + ttl_hours * 3600
      → let locked =
          run_operations redis before
            (create_in_progress redis now
              (get_redis_key merchant_id key)
              hash
              owner
              ttl_hours
              s).0 in
        (begin_request redis at_1 at_2 at_3 at_4 merchant_id key other_hash other_owner ttl_hours (
          end_request redis number_text done merchant_id key hash owner ttl_hours handled locked)).1
        ≡ runs other_owner other_hash
  failure_not_kept number_text now done at_1 at_2 at_3 at_4 merchant_id key hash owner other_hash
        other_owner ttl_hours handled before s acquired failed others in_time =
      let redis_key = get_redis_key merchant_id key in
      let locked =
        run_operations redis before
          (create_in_progress redis now redis_key hash owner ttl_hours s).0 in
      let held =
        operations-Holds redis laws _ redis_key _ before _ others
          (acquired-Holds redis laws now redis_key hash owner ttl_hours s acquired) in
      rw
        (
          end_request_cleans number_text done merchant_id key hash owner ttl_hours handled locked
              failed,
          cleanup_held _ done redis_key owner (pending_record hash owner) locked held in_time refl,
        )
        (acquires at_1 at_2 at_3 at_4 merchant_id key other_hash other_owner ttl_hours _
          (laws.get-del done at_1 redis_key locked))
