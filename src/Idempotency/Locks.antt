-- ===== src/Idempotency/Locks.antt =====
-- The lock of an idempotency key among many callers of the idempotency service: what the owner may
-- rely on until the key expires, whatever the others do.
use surgepay.Common.{
  subst, refl, inr, [], inl, true, Bool-cases, ◌∙◌, Option-cases, ◌∷◌, none, eq_iff, false, ◌*◌,
  arith, ◌==◌, some, ◌≢◌, ◌<◌, ◌≡◌, All, List, ℕ, String, Bool,
}
use surgepay.Idempotency.{
  create_in_progress, mark_completed, delete, Response, pending_record, completed_record,
}
use surgepay.Idempotency.Redis.{Commands, IsRedis, IdempotencyRecord}

-- The calls that change a key, each run by Redis as one.
pub data Operation : Type 0 where
  creating : String → String → String → ℕ → Operation
  completing : String → String → String → Response → ℕ → Operation
  deleting : String → String → Operation

abbrev pub key_of : Operation → String
key_of (creating key hash owner ttl_hours) = key
key_of (completing key owner hash response ttl_hours) = key
key_of (deleting key owner) = key

abbrev pub owner_of : Operation → String
owner_of (creating key hash owner ttl_hours) = owner
owner_of (completing key owner hash response ttl_hours) = owner
owner_of (deleting key owner) = owner

pub record Timed : Type 0 where
  pub at : ℕ
  pub operation : Operation

module _ (redis : Commands) where
  unfoldable pub run_operation : ℕ → Operation → redis.State → redis.State × Bool
  run_operation now (creating key hash owner ttl_hours) s =
      create_in_progress redis now key hash owner ttl_hours s
  run_operation now (completing key owner hash response ttl_hours) s =
      mark_completed redis now key owner hash response ttl_hours s
  run_operation now (deleting key owner) s = delete redis now key owner s

  -- Operations at their times, one after the other.
  unfoldable pub run_operations : List Timed → redis.State → redis.State
  run_operations [] s = s
  run_operations (x ∷ xs) s = run_operations xs (run_operation x.at x.operation s).0

  -- Until a time, a read of the key finds the record.
  abbrev pub Holds : ℕ → String → IdempotencyRecord → redis.State → Type 0
  Holds until key r s = (later : ℕ) → later < until → redis.get later key s ≡ some r

  -- The operations of other owners, before a time.
  abbrev pub ByOthers : ℕ → String → List Timed → Type 0
  ByOthers until owner = All (λ x. x.at < until × (owner_of x.operation == owner) ≡ false)

module _ (redis : Commands) (laws : IsRedis redis) where
  pub create_absent :
      (now : ℕ) (key hash owner : String) (ttl_hours : ℕ) (s : redis.State)
      → redis.get now key s ≡ none
      → create_in_progress redis now key hash owner ttl_hours s
        ≡ (redis.set now key (pending_record hash owner) (ttl_hours * 3600) s, true)
  unfolding create_in_progress
  create_absent now key hash owner ttl_hours s h = laws.set_nx_absent now key _ _ s h

  pub create_present :
      (now : ℕ) (key hash owner : String) (ttl_hours : ℕ) (s : redis.State) (r : IdempotencyRecord)
      → redis.get now key s ≡ some r
      → create_in_progress redis now key hash owner ttl_hours s ≡ (s, false)
  unfolding create_in_progress
  create_present now key hash owner ttl_hours s r h = laws.set_nx_present now key _ r _ s h

  create-get_other :
      (now later : ℕ) (key other hash owner : String) (ttl_hours : ℕ) (s : redis.State)
      → other ≢ key
      → redis.get later other (create_in_progress redis now key hash owner ttl_hours s).0
        ≡ redis.get later other s
  create-get_other now later key other hash owner ttl_hours s apart =
      elim (Option-cases (redis.get now key s)) [
        | inl absent ↦
            rw (create_absent now key hash owner ttl_hours s absent)
              (laws.get-set_other now later key other _ _ s apart)
        | inr (r, present) ↦ rw (create_present now key hash owner ttl_hours s r present) refl
      ]

  other_key :
      (until now : ℕ) (op : Operation) (key : String) (r : IdempotencyRecord) (s : redis.State)
      → key ≢ key_of op
      → Holds redis until key r s
      → Holds redis until key r (run_operation redis now op s).0
  unfolding run_operation create_in_progress mark_completed delete
  other_key until now (creating k hash owner ttl_hours) key r s apart h later before =
      create-get_other now later k key hash owner ttl_hours s apart ∙ h later before
  other_key until now (completing k owner hash response ttl_hours) key r s apart h later before =
      ground (
        arith,
        laws.get-set_other now later k key (completed_record hash owner response) (ttl_hours * 3600)
            s apart,
        h later before,
      )
  other_key until now (deleting k owner) key r s apart h later before =
      ground (arith, laws.get-del_other now later k key s apart, h later before)

  same_key :
      (now : ℕ) (op : Operation) (r : IdempotencyRecord) (s : redis.State)
      → redis.get now (key_of op) s ≡ some r
      → (owner_of op == r.owner_id) ≡ false
      → run_operation redis now op s ≡ (s, false)
  unfolding run_operation create_in_progress mark_completed delete
  same_key now (creating k hash owner ttl_hours) r s h other =
      laws.set_nx_present now k (pending_record hash owner) r (ttl_hours * 3600) s h
  same_key now (completing k owner hash response ttl_hours) r s h other =
      ground (arith, h, eq_iff owner r.owner_id, eq_iff r.owner_id owner)
  same_key now (deleting k owner) r s h other =
      ground (arith, h, eq_iff owner r.owner_id, eq_iff r.owner_id owner)

  -- One operation of another owner, on whatever key.
  operation-Holds :
      (until now : ℕ) (op : Operation) (key : String) (r : IdempotencyRecord) (s : redis.State)
      → now < until
      → (owner_of op == r.owner_id) ≡ false
      → Holds redis until key r s
      → Holds redis until key r (run_operation redis now op s).0
  operation-Holds until now op key r s before other h = elim (Bool-cases (key == key_of op)) [
    | inl same ↦ rw (same_key now op r s (held_there same) other) h
    | inr differs ↦
        other_key until now op key r s (ground (arith, differs, eq_iff key (key_of op))) h
  ]
    where
      held_there : (key == key_of op) ≡ true → redis.get now (key_of op) s ≡ some r
      held_there same = subst (λ k. redis.get now k s ≡ some r) (same_string same) (h now before)
        where
          same_string : (key == key_of op) ≡ true → key ≡ key_of op
          same_string e = ground (arith, eq_iff key (key_of op))

  -- Until the record of a key expires, no operations of other owners change what a read of it finds.
  pub operations-Holds :
      (until : ℕ) (key : String) (r : IdempotencyRecord) (ops : List Timed) (s : redis.State)
      → ByOthers redis until r.owner_id ops
      → Holds redis until key r s
      → Holds redis until key r (run_operations redis ops s)
  unfolding run_operations
  operations-Holds until key r [] s others h = h
  operations-Holds until key r (x ∷ xs) s ((before, other), others) h =
      operations-Holds until key r xs _ others
        (operation-Holds until x.at x.operation key r s before other h)
