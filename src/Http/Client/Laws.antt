-- ===== src/Http/Client/Laws.antt =====
-- What the caller of a service gets to know of its answer.
use surgepay.Common.{
  subst, true, ℕ, ◌-◌, ◌≤◌, String, Bool, Option, none, some, false, ◌≡◌, refl, suc, ◌∙◌, ap, ◌⊎◌,
  ◌||◌, ◌&&◌, arith,
}
use surgepay.Messaging.Json.{Json, property}
use surgepay.Errors.{Exception, http, create_error_response}
use surgepay.Errors.Filter.{Scene, judge, judge_object, catch, conflict_code}
use surgepay.Http.{Attempt, is_idempotent}
use surgepay.Http.Laws.{each_of, execute-Settles, execute_once, is_transient}
use surgepay.Http.Client.{
  Arrival, Target, attempt_of, request, translate_failure, settle, downstream_exception,
}
use mathlib.Core.Option

module _ (status_name : ℕ → Option String) (number_text : ℕ → String)
    (json_text : Json → String) where
  -- Whatever exception a service throws: a caller that fails with the answer of the service's filter
  -- answers with the same status and message, and with the same code but for the one that is renamed;
  -- the validation errors and the metadata are gone.
  pub judge-catch :
      (display : Json → String) (at : Scene) (t : Target) (x : Exception)
      → judge display (
          http (
            downstream_exception status_name number_text json_text t
              (catch display at x).status
              (catch display at x).body))
        ≡ record {
          status = (judge display x).status;
          code = conflict_code (judge display x).code;
          message = (judge display x).message;
          validation_errors = none;
          metadata = none;
        }
  unfolding judge judge_object catch create_error_response property
  judge-catch display at t x = refl

  settle_last :
      (t : Target) (calls : ℕ → Arrival) (kept : Attempt) (n : ℕ)
      → settle status_name number_text json_text t calls (kept, suc n)
        ≡ (translate_failure status_name number_text json_text t (calls n), suc n)
  settle_last t calls kept n =
      let same : suc n - 1 ≡ n = omega arith in
      ap (λ k. (translate_failure status_name number_text json_text t (calls k), suc n)) same

  -- Whatever axios comes to: a request ends after at most `max_attempts + 1` calls with what the last
  -- one is translated to. Each earlier call failed without a status from 400 to 499, and retries are
  -- forced or the method is idempotent; the last one did not, or the retries are used up.
  pub request_lem :
      (max_attempts : ℕ) (force_retry : Bool) (t : Target) (calls : ℕ → Arrival)
      → (last : ℕ) × (last ≤ max_attempts)
        × (request status_name number_text json_text max_attempts force_retry t calls
            ≡ some (translate_failure status_name number_text json_text t (calls last), suc last))
        × (each_of
              (λ n. is_transient (attempt_of (calls n)) && (force_retry || is_idempotent t.method))
              0
              last
            ≡ true)
        × (((is_transient (attempt_of (calls last)) && (force_retry || is_idempotent t.method))
              ≡ false)
            ⊎ (last ≡ max_attempts))
  unfolding request
  request_lem max_attempts force_retry t calls =
      let s = execute-Settles max_attempts t.method force_retry (λ n. attempt_of (calls n)) in
      let same : s.more ≡ s.last = omega (arith, s.counted) in
      (
        s.last,
        s.bounded,
        ap (Option.map (settle status_name number_text json_text t calls)) s.kept
            ∙ ap some (settle_last t calls (attempt_of (calls s.last)) s.last),
        subst
            (λ n.
              each_of
                (λ k.
                  is_transient (attempt_of (calls k)) && (force_retry || is_idempotent t.method))
                0 n
              ≡ true)
            same s.repeated,
        s.final,
      )

  -- A POST is sent once.
  pub request_once :
      (max_attempts : ℕ) (t : Target) (calls : ℕ → Arrival)
      → is_idempotent t.method ≡ false
      → request status_name number_text json_text max_attempts false t calls
        ≡ some (translate_failure status_name number_text json_text t (calls 0), 1)
  unfolding request
  request_once max_attempts t calls h =
      ap (Option.map (settle status_name number_text json_text t calls))
        (execute_once max_attempts t.method (λ n. attempt_of (calls n)) h)
