-- ===== src/Idempotency/Tests.antt =====
-- The idempotency service over a concrete store that behaves as Redis does: a function from keys to
-- records with the time at which they expire.
use surgepay.Common.{
  [], ◌∷◌, refl, ◌<◌, List, ◌≡◌, false, ◌==◌, true, eq_iff, none, ltb, eq_refl, Bool, ◌+◌,
  if◌then◌else◌, some, arith, ℕ, Option, String,
}
use surgepay.Idempotency.Redis.{IdempotencyRecord, IsRedis, Commands}
use surgepay.Idempotency.{
  pending_record, key_reused, replay, answered, create_in_progress, complete, Response, check,
}
use surgepay.Messaging.Json.{str, null, end}
use surgepay.Idempotency.Locks.{
  run_operation, completing, deleting, creating, run_operations, Timed, ByOthers,
}
use surgepay.Idempotency.Expiry.{KeyCommands, IsExpiring, extend_ttl}
use surgepay.Idempotency.Laws.{check_after_completion}
use surgepay.Idempotency.Slots.{run_operation-slot_step, slot_at, slot_step, observe}

abbrev pub Store : Type 0
Store = String → Option (IdempotencyRecord × ℕ)

abbrev alive : ℕ → Option (IdempotencyRecord × ℕ) → Option IdempotencyRecord
alive now none = none
alive now (some (v, expiry)) = if ltb now expiry then some v else none

abbrev put : String → Option (IdempotencyRecord × ℕ) → Store → Store
put key x s other = if other == key then x else s other

abbrev put_absent : Option IdempotencyRecord → Store → Store → Store × Bool
put_absent none s t = (t, true)
put_absent (some old) s t = (s, false)

abbrev pub store : Commands
store = record {
  State = Store;
  get = λ now key s. alive now (s key);
  set = λ now key v ttl s. put key (some (v, now + ttl)) s;
  set_nx = λ now key v ttl s. put_absent (alive now (s key)) s (put key (some (v, now + ttl)) s);
  del = λ now key s. put key none s;
}

pub store-IsRedis : IsRedis store
store-IsRedis = record {
  get-set = λ now later key v ttl s. ground (arith, eq_refl key);
  get-set_other = λ now later key other v ttl s apart. ground (arith, apart, eq_iff other key);
  set_nx_absent = λ now key v ttl s h. ground (arith, h);
  set_nx_present = λ now key v old ttl s h. ground (arith, h);
  get-del = λ now later key s. ground (arith, eq_refl key);
  get-del_other = λ now later key other s apart. ground (arith, apart, eq_iff other key);
}

abbrev failure : Response
failure = record { status_code = 500; headers = end; body = null }

-- What the others try meanwhile: to take the key, to complete it, to release it, and to work on another key.
abbrev pub attempts : List Timed
attempts =
    record { at = 101; operation = creating "idem:m:k" "h2" "o-2" 24 }
    ∷ record { at = 102; operation = deleting "idem:m:k" "o-3" }
    ∷ record { at = 103; operation = completing "idem:m:other" "o-3" "h3" failure 24 }
    ∷ []

pub by_others : (until : ℕ) → 200 < until → ByOthers store until "o-1" attempts
by_others until h = ((omega arith, refl), ((omega arith, refl), ((omega arith, refl), tt)))

abbrev pub vacant : Store
vacant key = none

acquired : (create_in_progress store 100 "idem:m:k" "h" "o-1" 24 vacant).1 ≡ true
unfolding create_in_progress
acquired = refl

abbrev created : Response
created = record { status_code = 201; headers = end; body = str "pay-1" }

abbrev finished : Store × Bool
finished =
    complete store 150 "idem:m:k" "o-1" "h" created 24 (
      run_operations store attempts (create_in_progress store 100 "idem:m:k" "h" "o-1" 24 vacant).0)

check_after_completion_example :
    (finished.1 ≡ true)
    × ((check store 204 205 206 207 "idem:m:k" "h" "o-4" 24
          (run_operations store attempts finished.0)).1
        ≡ answered
            (if "h" == "h" then replay (some 201) (some end) (some (str "pay-1")) else key_reused))
check_after_completion_example =
    check_after_completion store store-IsRedis 100 150 204 205 206 207 "idem:m:k" "h" "o-1" "h"
      "o-4" created 24 attempts attempts vacant acquired (by_others _ (omega arith)) (omega arith)
      (by_others _ (omega arith)) (omega arith) (omega arith)

run_operation-slot_step_example :
    observe store store-IsRedis 150 "idem:m:k"
      (run_operation store 150 (creating "idem:m:k" "h" "o-1" 24) vacant)
    ≡ slot_step
        (creating "idem:m:k" "h" "o-1" 24)
        (slot_at store store-IsRedis 150 "idem:m:k" vacant)
run_operation-slot_step_example =
    run_operation-slot_step store store-IsRedis 150 (creating "idem:m:k" "h" "o-1" 24) vacant
      (omega arith)

-- The same store, with the two commands on keys.
abbrev expire_at : ℕ → String → ℕ → Option IdempotencyRecord → Store → Store × ℕ
expire_at now key ttl none s = (s, 0)
expire_at now key ttl (some v) s = (put key (some (v, now + ttl)) s, 1)

abbrev store_keys : KeyCommands store
store_keys = record {
  exists = λ now key s. elim (alive now (s key)) [ none ↦ 0 | some v ↦ 1 ];
  expire = λ now key ttl s. expire_at now key ttl (alive now (s key)) s;
}

store-IsExpiring : IsExpiring store store_keys
store-IsExpiring = record {
  exists_absent = λ now key s h. ground (arith, h);
  exists_present = λ now key s v h. ground (arith, h);
  expire_absent = λ now key ttl s h. ground (arith, h);
  expire_present = λ now key ttl s v h. ground (arith, h);
  get-expire = λ now later key ttl s v h. rw h (ground (arith, eq_refl key));
}

-- An hour on top of the first second.
extended_test :
    (extend_ttl store store_keys 5 "k" 1 (put "k" (some (pending_record "h" "o", 6)) (λ t. none))).1
    ≡ true
unfolding extend_ttl
extended_test = refl
