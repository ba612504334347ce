-- ===== src/Gateway/RateLimit/Repeated.antt =====
-- Requests that repeat one id: logging.middleware.ts takes the id of a request from its header
-- `x-request-id`, and the script uses it as the member of the set.
use surgepay.Gateway.SortedSets.{is_other, Entry, IsRedis, Commands}
use surgepay.Common.{
  refl, either_case, suc, eq_refl, [], ap, ◌+◌, ◌∷◌, map, ltb, ◌≡◌, ◌&&◌, true, either_branch,
  arith, List, length, ◌≤◌, count, String, ℕ,
}
use surgepay.Gateway.RateLimit.Window.{note, count-clear_before-le, IsOrdered, Request, serve_all}
use surgepay.Gateway.RateLimit.{Quota, check_rate_limit, clear_before, admit}

module _ (redis : Commands) (laws : IsRedis redis) (window limit : ℕ) (key id : String) where
  -- The set holds at most the one id.
  abbrev pub HoldsOnly : ℕ → redis.State → Type 0
  HoldsOnly now s =
      (later : ℕ)
      → now ≤ later
      → (length (redis.members later key s) ≤ 1)
        × (count (is_other id) (redis.members later key s) ≡ 0)

  length-count : (es : List Entry) → count (λ e. true) es ≡ length es
  unfolding count
  length-count [] = refl
  length-count (e ∷ es) = ap suc (length-count es)

  count-twice :
      (es : List Entry) → count (λ e. is_other id e && is_other id e) es ≡ count (is_other id) es
  unfolding count
  count-twice [] = refl
  count-twice (e ∷ es) = ground (arith, count-twice es)

  HoldsOnly-clear :
      (before now : ℕ) (s : redis.State)
      → before ≤ now
      → HoldsOnly before s
      → HoldsOnly now (clear_before redis now window key s)
  HoldsOnly-clear before now s h k = λ later l.
      let t = clear_before redis now window key s in
      (
        omega (
          arith,
          (k later (omega arith)).0,
          length-count (redis.members later key s),
          length-count (redis.members later key t),
          count-clear_before-le redis laws window limit key (λ e. true) now later s l,
        ),
        omega (
          arith,
          (k later (omega arith)).1,
          count-clear_before-le redis laws window limit key (is_other id) now later s l,
        ),
      )

  HoldsOnly-admit :
      (now : ℕ) (s : redis.State)
      → HoldsOnly now s
      → HoldsOnly now (admit redis now window key id s)
  unfolding count
  HoldsOnly-admit now s k = λ later l.
      let added = redis.zadd now key now id s in
      rw (laws.members-pexpire now later window key added l) (
        either_branch (λ es. (length es ≤ 1) × (count (is_other id) es ≡ 0))
          (ltb later (now + window)) _ _
          (
            omega (
              arith,
              length-count (redis.members now key added),
              laws.count-zadd now now key id s (λ e. true),
              (k now (omega arith)).1,
            ),
            ground (
              arith,
              laws.count-zadd now now key id s (is_other id),
              count-twice (redis.members now key s),
              (k now (omega arith)).1,
              eq_refl id,
            ),
          )
          (omega arith, refl))

  -- A merchant whose requests all carry the same id is never limited, where the limit is at least two:
  -- from a state that holds none of its requests or only that id, and where they come in the order of their
  -- times, every one of them is admitted, however many they are.
  pub repeated_id_admitted :
      (times : List ℕ) (s : redis.State) (before : ℕ) (admitted : List Request)
      → 2 ≤ limit
      → HoldsOnly before s
      → IsOrdered before (map (λ now. record { at = now; key = key; id = id }) times)
      → length
          (serve_all redis window limit key
            (map (λ now. record { at = now; key = key; id = id }) times)
            s
            admitted).1
        ≡ length admitted + length times
  unfolding serve_all check_rate_limit
  repeated_id_admitted [] s before admitted h k o = omega arith
  repeated_id_admitted (now ∷ times) s before admitted h k (o, os) =
      let cleared = HoldsOnly-clear before now s o k in
      let u = clear_before redis now window key s in
      let r : Request = record { at = now; key = key; id = id } in
      either_case
        (λ (x : redis.State × Quota).
          length
            (serve_all redis window limit key
              (map (λ now. record { at = now; key = key; id = id }) times) x.0
              (note redis window limit key r x.1 admitted)).1
          ≡ length admitted + suc (length times))
        (ltb (redis.zcard now key u) limit) _ _
        (λ test. rw (eq_refl key) (
          omega (
            arith,
            repeated_id_admitted times (admit redis now window key id u) now (r ∷ admitted) h
                (HoldsOnly-admit now u cleared) os,
          )))
        (λ test.
          absurd (ground (arith, test, laws.zcard_lem now key u, (cleared now (omega arith)).0)))
