-- ===== src/Http.antt =====
-- packages/common/http/src/retry/retry.policy.ts: the loop of `execute`. The calls of `fn` are a
-- function from the number of the call, and waiting is left out.
pub mod Laws
pub mod Client
pub mod Tests
use surgepay.Common
use surgepay.Common.{
  zero, ltb, ◌&&◌, not, leb, if◌then◌else◌, some, suc, ◌||◌, none, ◌==◌, false, Bool, Option,
  String, ℕ,
}

-- A call that resolves, or one that is rejected with the HTTP status of the response, if there is one.
pub data Attempt : Type 0 where
  resolved : ℕ → Attempt
  rejected : Option ℕ → Attempt

-- `status !== undefined && status >= 400 && status < 500`
abbrev pub is_4xx : Option ℕ → Bool
is_4xx none = false
is_4xx (some status) = leb 400 status && ltb status 500

-- The method in upper case.
abbrev pub is_idempotent : String → Bool
is_idempotent method = method == "GET" || method == "PUT" || method == "DELETE"

-- The loop after `attempt` failures, with the number of calls made; `none` when the fuel runs out.
unfoldable pub attempts_loop : ℕ → Bool → (ℕ → Attempt) → ℕ → ℕ → Option (Attempt × ℕ)
attempts_loop max_attempts should_retry fn zero attempt = none
attempts_loop max_attempts should_retry fn (suc fuel) attempt =
    let rest = attempts_loop max_attempts should_retry fn fuel (suc attempt) in
    elim (fn attempt) [
      | resolved v ↦ some (resolved v, suc attempt)
      | rejected status ↦
          if not should_retry || is_4xx status || ltb max_attempts (suc attempt)
          then some (rejected status, suc attempt)
          else rest
    ]

-- Fuel for `max_attempts + 1` rounds.
unfoldable pub execute : ℕ → String → Bool → (ℕ → Attempt) → Option (Attempt × ℕ)
execute max_attempts method force_retry fn =
    attempts_loop max_attempts (force_retry || is_idempotent method) fn (suc max_attempts) 0
