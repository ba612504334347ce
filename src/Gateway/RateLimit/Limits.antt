-- ===== src/Gateway/RateLimit/Limits.antt =====
-- The limit of the sliding window over a sequence of requests of any merchants.
use surgepay.Gateway.SortedSets.{IsRedis, Commands}
use surgepay.Common.{
  ltb→lt, subst, eq_iff, either_case, sym, [], ap, eq_refl, All-map, count, false, ◌==◌, All,
  either_branch, refl, ◌-◌, ◌∙◌, inr, inl, ltb, arith, Bool-cases, ◌∷◌, ◌≡◌, ◌≤◌, ◌≢◌, List, String,
  ℕ,
}
use surgepay.Gateway.RateLimit.{admit, Quota, check_rate_limit, clear_before}
use surgepay.Gateway.RateLimit.Window.{
  WithinLimit, HasOwnIds, Tracks-admit, IsOrdered, count-admit, Tracks-clear, serve_all,
  count-clear_before-le, has_member, note, past-later, IsFresh, Tracks, serve, Request,
}

module _ (redis : Commands) (laws : IsRedis redis) (window limit : ℕ) (key : String) where
  abbrev after : Request → redis.State → redis.State
  after r s = (serve redis window limit r s).0

  -- A request of another key does not touch the key's set.
  members-clear_before_other :
      (now later : ℕ) (other : String) (s : redis.State)
      → key ≢ other
      → redis.members later key (clear_before redis now window other s) ≡ redis.members later key s
  unfolding clear_before
  members-clear_before_other now later other s apart = elim (Bool-cases (ltb now window)) [
    | inl early ↦ rw early refl
    | inr late ↦ rw late (laws.zremrangebyscore_other now later (now - window) other key s apart)
  ]

  members-after_other :
      (r : Request) (later : ℕ) (s : redis.State)
      → key ≢ r.key
      → redis.members later key (after r s) ≡ redis.members later key s
  unfolding check_rate_limit
  members-after_other r later s apart =
      let cleared = clear_before redis r.at window r.key s in
      let kept = members-clear_before_other r.at later r.key s apart in
      either_branch
        (λ (x : redis.State × Quota). redis.members later key x.0 ≡ redis.members later key s)
        (ltb (redis.zcard r.at r.key cleared) limit) _ _
        (laws.pexpire_other r.at later window r.key key _ apart
          ∙ laws.zadd_other r.at later r.at r.key key r.id cleared apart
          ∙ kept)
        kept

  -- What a request leaves of the tracking and of the ids to come.
  abbrev Keeps : ℕ → redis.State → List Request → List Request → Type 0
  Keeps now s admitted rs =
      Tracks redis laws window limit key now s admitted
      × IsFresh redis laws window limit key now s rs

  other_request :
      (r : Request) (rs : List Request) (s : redis.State) (admitted : List Request) (before : ℕ)
      → key ≢ r.key
      → before ≤ r.at
      → Keeps before s admitted (r ∷ rs)
      → Keeps r.at (after r s) admitted rs
  other_request r rs s admitted before apart h (k, fresh) = (
    record {
      counted = λ later l. rw (members-after_other r later s apart) (k.counted later (omega arith));
      past = past-later redis laws window limit key before r.at admitted k.past h;
      within = k.within;
    },
    λ later l. rw (members-after_other r later s apart) (fresh later (omega arith)).1,
  )

  no_longer_new :
      (now later : ℕ) (id : String) (u : redis.State) (rs : List Request)
      → now ≤ later
      → count (has_member id) (redis.members now key u) ≡ 0
      → All (λ x. (id == x.id) ≡ false) rs
      → All (λ x. count (has_member x.id) (redis.members now key u) ≡ 0) rs
      → All
          (λ x.
            count (has_member x.id) (redis.members later key (admit redis now window key id u)) ≡ 0)
          rs
  no_longer_new now later id u [] h new apart fresh = tt
  no_longer_new now later id u (x ∷ xs) h new (a, as_apart) (f, fresh) = (
    ground (arith, count-admit redis laws window limit key (has_member x.id) now later id u h new),
    no_longer_new now later id u xs h new as_apart fresh,
  )

  IsFresh-clear :
      (before now : ℕ) (s : redis.State) (rs : List Request)
      → before ≤ now
      → IsFresh redis laws window limit key before s rs
      → IsFresh redis laws window limit key now (clear_before redis now window key s) rs
  IsFresh-clear before now s rs h fresh = λ later l.
      All-map _ _
        (λ x f. omega (
          arith,
          f,
          count-clear_before-le redis laws window limit key (has_member x.id) now later s l,
        ))
        rs (fresh later (omega arith))

  -- A request of the key: the answer of the script says whether the request joined the set.
  own_request :
      (now : ℕ) (id : String) (rs : List Request) (s : redis.State) (admitted : List Request)
      (before : ℕ)
      → before ≤ now
      → All (λ x. (id == x.id) ≡ false) rs
      → Keeps before s admitted (record { at = now; key = key; id = id } ∷ rs)
      → (let r : Request = record { at = now; key = key; id = id } in
          Keeps now
            (after r s)
            (note redis window limit key r (serve redis window limit r s).1 admitted)
            rs)
  unfolding check_rate_limit
  own_request now id rs s admitted before h apart (k, fresh) =
      let r : Request = record { at = now; key = key; id = id } in
      let u = clear_before redis now window key s in
      let tracked = Tracks-clear redis laws window limit key before now s admitted h k in
      let still = IsFresh-clear before now s (r ∷ rs) h fresh in
      either_case
        (λ (x : redis.State × Quota). Keeps now x.0 (note redis window limit key r x.1 admitted) rs)
        (ltb (redis.zcard now key u) limit) _ _
        (λ test. rw (eq_refl key) (
          Tracks-admit redis laws window limit key r u admitted tracked (still now (omega arith)).0
              (ltb→lt _ _ test),
          λ later l.
              no_longer_new now later id u rs l (still now (omega arith)).0 apart
                (still now (omega arith)).1,
        ))
        (λ test. rw (eq_refl key) (tracked, λ later l. (still later l).1))

  one_request :
      (r : Request) (rs : List Request) (s : redis.State) (admitted : List Request) (before : ℕ)
      → before ≤ r.at
      → All (λ x. (r.id == x.id) ≡ false) rs
      → Keeps before s admitted (r ∷ rs)
      → Keeps r.at
          (after r s)
          (note redis window limit key r (serve redis window limit r s).1 admitted)
          rs
  one_request r rs s admitted before h apart k = elim (Bool-cases (r.key == key)) [
    | inl mine ↦
        let same : record { at = r.at; key = key; id = r.id } ≡ r =
          ap (λ x. record { at = r.at; key = x; id = r.id }) (sym ((eq_iff r.key key).0 mine)) in
        subst
          (λ (x : Request).
            Keeps x.at (after x s)
              (note redis window limit key x (serve redis window limit x s).1 admitted) rs)
          same (own_request r.at r.id rs s admitted before h apart k)
    | inr other ↦
        rw other (
          other_request r rs s admitted before (λ e. ground (arith, other, e, eq_iff r.key key)) h
            k)
  ]

  requests-WithinLimit :
      (rs : List Request) (s : redis.State) (admitted : List Request) (before : ℕ)
      → IsOrdered before rs
      → HasOwnIds rs
      → Keeps before s admitted rs
      → WithinLimit window limit (serve_all redis window limit key rs s admitted).1
  unfolding serve_all
  requests-WithinLimit [] s admitted before o u h = h.0.within
  requests-WithinLimit (r ∷ rs) s admitted before (o, os) (u, us) h =
      requests-WithinLimit rs (after r s) _ r.at os us (one_request r rs s admitted before o u h)

  -- From a state that holds no request of a merchant, where requests come in the order of their times,
  -- each with an id of its own, and whatever other merchants request: whenever the script admits a
  -- request of the merchant, at most `limit` of the merchant's admitted requests, that one included,
  -- are less than a window old.
  pub serve_all-WithinLimit :
      (rs : List Request) (s : redis.State) (before : ℕ)
      → ((later : ℕ) → redis.members later key s ≡ [])
      → IsOrdered before rs
      → HasOwnIds rs
      → WithinLimit window limit (serve_all redis window limit key rs s []).1
  unfolding count
  serve_all-WithinLimit rs s before empty o u = requests-WithinLimit rs s [] before o u (
    record { counted = λ later l. omega arith; past = tt; within = tt },
    λ later l. rw (empty later) (nothing rs),
  )
    where
      nothing : (rs : List Request) → All (λ x. count (has_member x.id) [] ≡ 0) rs
      nothing [] = tt
      nothing (x ∷ xs) = (refl, nothing xs)
