-- ===== src/Http/Laws.antt =====
-- How often a request is sent, and which answer is kept.
use surgepay.Http.{is_4xx, rejected, is_idempotent, resolved, attempts_loop, execute, Attempt}
use surgepay.Common.{
  refl, inr, ◌∙◌, inl, true, Bool-cases, leb, zero, ◌⊎◌, arith, ◌&&◌, not, suc, some, ◌+◌, ◌≡◌, ◌<◌,
  ◌||◌, false, ◌≤◌, Option, String, Bool, ℕ,
}

-- A rejection that is worth another call.
abbrev pub is_transient : Attempt → Bool
is_transient (resolved v) = false
is_transient (rejected status) = not (is_4xx status)

-- A test of a number of calls, from one on.
abbrev pub each_of : (ℕ → Bool) → ℕ → ℕ → Bool
each_of test attempt zero = true
each_of test attempt (suc n) = test attempt && each_of test (suc attempt) n

-- From the call `attempt` on, `more` calls were worth another one and allowed one, and the answer of the
-- next is the result. It is final: it is not transient, no retry is allowed, or the last one was made.
pub record Settles (max_attempts : ℕ) (should_retry : Bool) (fn : ℕ → Attempt) (attempt : ℕ)
    (result : Option (Attempt × ℕ)) : Type 0 where
  pub last : ℕ
  pub more : ℕ
  pub counted : last ≡ attempt + more
  pub repeated : each_of (λ n. is_transient (fn n) && should_retry) attempt more ≡ true
  pub kept : result ≡ some (fn last, suc last)
  pub bounded : last ≤ max_attempts
  pub final : ((is_transient (fn last) && should_retry) ≡ false) ⊎ (last ≡ max_attempts)

abbrev goes_on : ℕ → Bool → (ℕ → Attempt) → ℕ → Bool
goes_on max_attempts should_retry fn attempt =
    is_transient (fn attempt) && should_retry && leb (suc attempt) max_attempts

-- One round: the answer is kept, or the loop goes on.
round_kept :
    (max_attempts : ℕ) (should_retry : Bool) (fn : ℕ → Attempt) (fuel attempt : ℕ)
    → goes_on max_attempts should_retry fn attempt ≡ false
    → attempts_loop max_attempts should_retry fn (suc fuel) attempt ≡ some (fn attempt, suc attempt)
unfolding attempts_loop
round_kept max_attempts should_retry fn fuel attempt stop = ground (arith, stop)

round_repeated :
    (max_attempts : ℕ) (should_retry : Bool) (fn : ℕ → Attempt) (fuel attempt : ℕ)
    → goes_on max_attempts should_retry fn attempt ≡ true
    → attempts_loop max_attempts should_retry fn (suc fuel) attempt
      ≡ attempts_loop max_attempts should_retry fn fuel (suc attempt)
unfolding attempts_loop
round_repeated max_attempts should_retry fn fuel attempt more = ground (arith, more)

shift : (n k : ℕ) → suc n + k ≡ n + suc k
shift n k = omega arith

attempts_loop-Settles :
    (max_attempts : ℕ) (should_retry : Bool) (fn : ℕ → Attempt) (fuel attempt : ℕ)
    → attempt ≤ max_attempts
    → max_attempts < attempt + fuel
    → Settles max_attempts should_retry fn attempt
        (attempts_loop max_attempts should_retry fn fuel attempt)
attempts_loop-Settles max_attempts should_retry fn zero attempt low enough = absurd (omega arith)
attempts_loop-Settles max_attempts should_retry fn (suc fuel) attempt low enough =
    elim (Bool-cases (goes_on max_attempts should_retry fn attempt)) [
      | inl more ↦
          let later =
            attempts_loop-Settles max_attempts should_retry fn fuel (suc attempt)
              (ground (arith, more)) (omega arith) in
          record {
            last = later.last;
            more = suc later.more;
            counted = later.counted ∙ shift attempt later.more;
            repeated = ground (arith, more, later.repeated);
            kept = round_repeated max_attempts should_retry fn fuel attempt more ∙ later.kept;
            bounded = later.bounded;
            final = later.final;
          }
      | inr stop ↦ record {
        last = attempt;
        more = 0;
        counted = omega arith;
        repeated = refl;
        kept = round_kept max_attempts should_retry fn fuel attempt stop;
        bounded = low;
        final = ground (arith, stop, low);
      }
    ]

-- Whatever the calls answer, `execute` ends after at most `max_attempts + 1` calls with the answer of
-- the last one; it stops before that only at an answer that is no transient failure or where retries
-- are not allowed, and every call before the last one failed transiently where retries are allowed.
pub execute-Settles :
    (max_attempts : ℕ) (method : String) (force_retry : Bool) (fn : ℕ → Attempt)
    → Settles max_attempts
        (force_retry || is_idempotent method)
        fn
        0
        (execute max_attempts method force_retry fn)
unfolding execute
execute-Settles max_attempts method force_retry fn =
    attempts_loop-Settles max_attempts (force_retry || is_idempotent method) fn (suc max_attempts) 0
      (omega arith) (omega arith)

-- A request that is not idempotent and not forced is sent once, whatever it is answered.
pub execute_once :
    (max_attempts : ℕ) (method : String) (fn : ℕ → Attempt)
    → is_idempotent method ≡ false
    → execute max_attempts method false fn ≡ some (fn 0, 1)
unfolding execute attempts_loop
execute_once max_attempts method fn h = ground (arith, h)
