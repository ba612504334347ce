-- ===== src/Idempotency/Laws.antt =====
-- `check` of the idempotency service before, during and after the execution of a request.
use surgepay.Idempotency.{
  CheckResult, completed_record, read, mark_completed, acquire, key_reused, already_in_progress,
  replay, complete, pending_record, Response, create_in_progress, find_request, check, check_step,
  answer, answered,
}
use surgepay.Idempotency.Redis.{IdempotencyRecord, IsRedis, Commands}
use surgepay.Common.{
  ◌∙◌, eq_refl, refl, inr, inl, Option-cases, ap, arith, ◌==◌, if◌then◌else◌, some, ◌*◌, ◌+◌, ◌<◌,
  true, ◌≡◌, List, String, ℕ,
}
use surgepay.Idempotency.Locks.{
  create_absent, operations-Holds, run_operations, ByOthers, create_present, Timed, Holds,
}

module _ (redis : Commands) (laws : IsRedis redis) where
  refused_step :
      (now : ℕ) (key hash owner : String) (ttl_hours : ℕ) (s : redis.State) (r : IdempotencyRecord)
      → redis.get now key s ≡ some r
      → check_step redis now key hash owner ttl_hours acquire s ≡ (s, read)
  unfolding check_step
  refused_step now key hash owner ttl_hours s r h =
      rw (create_present redis laws now key hash owner ttl_hours s r h) refl

  found_step :
      (now : ℕ) (key hash owner : String) (ttl_hours : ℕ) (s : redis.State) (r : IdempotencyRecord)
      → redis.get now key s ≡ some r
      → check_step redis now key hash owner ttl_hours read s ≡ (s, answered (answer hash r))
  unfolding check_step find_request
  found_step now key hash owner ttl_hours s r h = ground (arith, h)

  answered_step :
      (now : ℕ) (key hash owner : String) (ttl_hours : ℕ) (x : CheckResult) (s : redis.State)
      → check_step redis now key hash owner ttl_hours (answered x) s ≡ (s, answered x)
  unfolding check_step
  answered_step now key hash owner ttl_hours x s = refl

  -- A key that is taken makes `check` answer by the record, and change nothing.
  pub check_taken :
      (until at_1 at_2 at_3 at_4 : ℕ) (key hash owner : String) (ttl_hours : ℕ)
      (r : IdempotencyRecord) (s : redis.State)
      → Holds redis until key r s
      → at_1 < until
      → at_2 < until
      → check redis at_1 at_2 at_3 at_4 key hash owner ttl_hours s ≡ (s, answered (answer hash r))
  unfolding check
  check_taken until at_1 at_2 at_3 at_4 key hash owner ttl_hours r s h before_1 before_2 =
      rw
        (
          refused_step at_1 key hash owner ttl_hours s r (h at_1 before_1),
          found_step at_2 key hash owner ttl_hours s r (h at_2 before_2),
          answered_step at_3 key hash owner ttl_hours (answer hash r) s,
          answered_step at_4 key hash owner ttl_hours (answer hash r) s,
        )
        refl

  -- The owner of a record that has not expired completes it.
  complete_held :
      (until now : ℕ) (key owner hash : String) (response : Response) (ttl_hours : ℕ)
      (r : IdempotencyRecord) (s : redis.State)
      → Holds redis until key r s
      → now < until
      → r.owner_id ≡ owner
      → complete redis now key owner hash response ttl_hours s
        ≡ (redis.set now key (completed_record hash owner response) (ttl_hours * 3600) s, true)
  unfolding complete mark_completed
  complete_held until now key owner hash response ttl_hours r s h before mine =
      ground (arith, h now before, mine, eq_refl owner)

  set-Holds :
      (now : ℕ) (key : String) (v : IdempotencyRecord) (ttl : ℕ) (s : redis.State)
      → Holds redis (now + ttl) key v (redis.set now key v ttl s)
  set-Holds now key v ttl s later before = ground (arith, laws.get-set now later key v ttl s)

  pub acquired-Holds :
      (now : ℕ) (key hash owner : String) (ttl_hours : ℕ) (s : redis.State)
      → (create_in_progress redis now key hash owner ttl_hours s).1 ≡ true
      → Holds redis
          (now + ttl_hours * 3600)
          key
          (pending_record hash owner)
          (create_in_progress redis now key hash owner ttl_hours s).0
  acquired-Holds now key hash owner ttl_hours s acquired later before =
      elim (Option-cases (redis.get now key s)) [
        | inl absent ↦ rw (create_absent redis laws now key hash owner ttl_hours s absent) (
            ground
              (arith, laws.get-set now later key (pending_record hash owner) (ttl_hours * 3600) s))
        | inr (r, present) ↦ absurd (refused r present)
      ]
    where
      refused : (r : IdempotencyRecord) → redis.get now key s ≡ some r → ⊥
      refused r present = ground (
        arith,
        acquired,
        ap (λ x. x.1) (create_present redis laws now key hash owner ttl_hours s r present),
      )

  -- Once a caller has acquired the lock of a key, and until it expires, whatever other owners do, a check of
  -- the key by anyone acquires nothing: the same request is told that it is in progress, another one that
  -- the key is reused.
  pub check_while_locked :
      (now at_1 at_2 at_3 at_4 : ℕ) (key hash owner other_hash other_owner : String) (ttl_hours : ℕ)
      (ops : List Timed) (s : redis.State)
      → (create_in_progress redis now key hash owner ttl_hours s).1 ≡ true
      → ByOthers redis (now + ttl_hours * 3600) owner ops
      → at_1 < now + ttl_hours * 3600
      → at_2 < now + ttl_hours * 3600
      → (check redis at_1 at_2 at_3 at_4 key other_hash other_owner ttl_hours
          (run_operations redis ops (create_in_progress redis now key hash owner ttl_hours s).0)).1
        ≡ answered (if hash == other_hash then already_in_progress else key_reused)
  check_while_locked now at_1 at_2 at_3 at_4 key hash owner other_hash other_owner ttl_hours ops s
        acquired others before_1 before_2 =
      rw
        (check_taken _ at_1 at_2 at_3 at_4 key other_hash other_owner ttl_hours _ _
          (operations-Holds redis laws _ key _ ops _ others
            (acquired-Holds now key hash owner ttl_hours s acquired))
          before_1 before_2)
        (ground arith)

  -- The owner of the lock completes the request before the lock expires, whatever other owners did
  -- since: the completion is accepted. From then until the completed record expires, whatever other
  -- owners do, a check with the same request gets the stored response and one with another request is
  -- refused.
  pub check_after_completion :
      (now done at_1 at_2 at_3 at_4 : ℕ) (key hash owner other_hash other_owner : String)
      (response : Response) (ttl_hours : ℕ) (before after : List Timed) (s : redis.State)
      → (create_in_progress redis now key hash owner ttl_hours s).1 ≡ true
      → ByOthers redis (now + ttl_hours * 3600) owner before
      → done < now + ttl_hours * 3600
      → ByOthers redis (done + ttl_hours * 3600) owner after
      → at_1 < done + ttl_hours * 3600
      → at_2 < done + ttl_hours * 3600
      → let locked =
          run_operations redis before (create_in_progress redis now key hash owner ttl_hours s).0 in
        let (stored, accepted) = complete redis done key owner hash response ttl_hours locked in
        (accepted ≡ true)
        × ((check redis at_1 at_2 at_3 at_4 key other_hash other_owner ttl_hours
              (run_operations redis after stored)).1
            ≡ answered (
                if hash == other_hash
                then replay (some response.status_code) (some response.headers) (some response.body)
                else key_reused))
  check_after_completion now done at_1 at_2 at_3 at_4 key hash owner other_hash other_owner response
        ttl_hours before after s acquired others in_time later_others before_1 before_2 =
      rw
        (complete_held _ done key owner hash response ttl_hours (pending_record hash owner) _
          (operations-Holds redis laws _ key _ before _ others
            (acquired-Holds now key hash owner ttl_hours s acquired))
          in_time refl)
        (
          refl,
          ap (λ x. x.1)
                (check_taken _ at_1 at_2 at_3 at_4 key other_hash other_owner ttl_hours _ _
                  (operations-Holds redis laws _ key _ after _ later_others
                    (set-Holds done key _ (ttl_hours * 3600) _))
                  before_1 before_2)
              ∙ ground arith,
        )
