-- ===== src/Idempotency/Slots.antt =====
-- What the idempotency service promises of one key: a slot that is free, or holds the record of the one
-- owner that took it. The commands of redis.repository.ts refine it.
use surgepay.Common.{
  ◌*◌, arith, inr, inl, if◌then◌else◌, true, Option-cases, false, ◌≡◌, none, some, ◌==◌, ℕ, ◌<◌,
  Bool, String, Option,
}
use surgepay.Idempotency.Locks.{
  create_present, create_absent, key_of, deleting, run_operation, completing, creating, Operation,
}
use surgepay.Idempotency.Redis.{IsRedis, IdempotencyRecord, Commands}
use surgepay.Idempotency.{pending_record, completed_record, delete, mark_completed}

-- A slot as an abstract machine: taking it works only while it is free, completing and releasing only
-- for the owner of its record.
pub record Slot : Type 0 where
  pub content : Option IdempotencyRecord

abbrev pub owned_by : String → IdempotencyRecord → Bool
owned_by owner r = r.owner_id == owner

abbrev pub take_slot : String → String → Slot → Slot × Bool
take_slot hash owner slot = elim slot.content [
  | none ↦ (record { content = some (pending_record hash owner) }, true)
  | some r ↦ (slot, false)
]

-- What the owner does to the record; others do nothing.
abbrev pub by_owner : String → Option IdempotencyRecord → Slot → Slot × Bool
by_owner owner next slot = elim slot.content [
  | none ↦ (slot, false)
  | some r ↦ if owned_by owner r then (record { content = next }, true) else (slot, false)
]

unfoldable pub slot_step : Operation → Slot → Slot × Bool
slot_step (creating key hash owner ttl_hours) slot = take_slot hash owner slot
slot_step (completing key owner hash response ttl_hours) slot =
    by_owner owner (some (completed_record hash owner response)) slot
slot_step (deleting key owner) slot = by_owner owner none slot

abbrev pub Lives : Operation → Type 0
Lives (creating key hash owner ttl_hours) = 0 < ttl_hours
Lives (completing key owner hash response ttl_hours) = 0 < ttl_hours
Lives (deleting key owner) = Unit

module _ (redis : Commands) (laws : IsRedis redis) where
  -- What a key holds at a time, as a slot.
  abbrev pub slot_at : ℕ → String → redis.State → Slot
  slot_at now key s = record { content = redis.get now key s }

  abbrev pub observe : ℕ → String → redis.State × Bool → Slot × Bool
  observe now key result = (slot_at now key result.0, result.1)

  -- Each operation on the store, at its time, does to the slot of its key what the abstract slot does,
  -- with the same answer, whatever the store: where records live for a positive time.
  pub run_operation-slot_step :
      (now : ℕ) (op : Operation) (s : redis.State)
      → Lives op
      → observe now (key_of op) (run_operation redis now op s)
        ≡ slot_step op (slot_at now (key_of op) s)
  unfolding run_operation slot_step mark_completed delete
  run_operation-slot_step now (creating key hash owner ttl_hours) s long =
      elim (Option-cases (redis.get now key s)) [
        | inl absent ↦ ground (
          arith,
          absent,
          create_absent redis laws now key hash owner ttl_hours s absent,
          laws.get-set now now key (pending_record hash owner) (ttl_hours * 3600) s,
        )
        | inr (r, present) ↦
            ground
              (arith, present, create_present redis laws now key hash owner ttl_hours s r present)
      ]
  run_operation-slot_step now (completing key owner hash response ttl_hours) s long =
      ground (
        arith,
        laws.get-set now now key (completed_record hash owner response) (ttl_hours * 3600) s,
      )
  run_operation-slot_step now (deleting key owner) s long =
      ground (arith, laws.get-del now now key s)
