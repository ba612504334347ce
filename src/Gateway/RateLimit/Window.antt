-- ===== src/Gateway/RateLimit/Window.antt =====
-- The sliding window: how many requests of a merchant the script admits.
use surgepay.Common.{
  ap, ◌∙◌, length, All-map, ◌<◌, refl, arith, inr, inl, ◌-◌, false, Bool-cases, ◌&&◌, keep, ◌+◌,
  ◌≡◌, count, ◌==◌, [], All, if◌then◌else◌, ◌≤◌, ltb, Bool, ◌∷◌, String, ℕ, List,
}
use surgepay.Gateway.SortedSets.{is_other, is_above, Entry, IsRedis, Commands}
use surgepay.Gateway.RateLimit.{admit, check_rate_limit, clear_before, Quota}

-- A request as the script gets it, with the key of its merchant.
pub record Request : Type 0 where
  pub at : ℕ
  pub key : String
  pub id : String

-- Requests whose window is still open at a time.
abbrev pub is_live : ℕ → ℕ → Request → Bool
is_live window later r = ltb later (r.at + window)

abbrev pub entry_live : ℕ → ℕ → Entry → Bool
entry_live window later e = ltb later (e.score + window)

abbrev pub is_for : String → Request → Bool
is_for key r = r.key == key

module _ (redis : Commands) (window limit : ℕ) where
  abbrev pub serve : Request → redis.State → redis.State × Quota
  serve r s = check_rate_limit redis r.at window limit r.key r.id s

  -- The requests of a key that were admitted, the last one first.
  abbrev pub note : String → Request → Quota → List Request → List Request
  note key r q admitted = if is_for key r && q.allowed then r ∷ admitted else admitted

  unfoldable pub serve_all :
      String → List Request → redis.State → List Request → redis.State × List Request
  serve_all key [] s admitted = (s, admitted)
  serve_all key (r ∷ rs) s admitted =
      let (t, q) = serve r s in serve_all key rs t (note key r q admitted)

abbrev pub has_member : String → Entry → Bool
has_member id e = e.member == id

-- At each admitted request, at most `limit` of its key, itself included, have their window open.
abbrev pub WithinLimit : ℕ → ℕ → List Request → Type 0
WithinLimit window limit [] = Unit
WithinLimit window limit (r ∷ rs) =
    (count (is_live window r.at) (r ∷ rs) ≤ limit) × WithinLimit window limit rs

-- Each request comes no earlier than the one before, and has an id of its own.
abbrev pub IsOrdered : ℕ → List Request → Type 0
IsOrdered now [] = Unit
IsOrdered now (r ∷ rs) = (now ≤ r.at) × IsOrdered r.at rs

abbrev pub HasOwnIds : List Request → Type 0
HasOwnIds [] = Unit
HasOwnIds (r ∷ rs) = All (λ x. (r.id == x.id) ≡ false) rs × HasOwnIds rs

module _ (redis : Commands) (laws : IsRedis redis) (window limit : ℕ) (key : String) where
  -- What the key's set tells of the requests admitted so far, at any time from `now` on.
  pub record Tracks (now : ℕ) (s : redis.State) (admitted : List Request) : Type 0 where
    pub counted :
        (later : ℕ)
        → now ≤ later
        → count (is_live window later) admitted
          ≤ count (entry_live window later) (redis.members later key s)
    pub past : All (λ a. a.at ≤ now) admitted
    pub within : WithinLimit window limit admitted

  -- The ids of the requests to come are not in the set.
  abbrev pub IsFresh : ℕ → redis.State → List Request → Type 0
  IsFresh now s rs =
      (later : ℕ)
      → now ≤ later
      → All (λ r. count (has_member r.id) (redis.members later key s) ≡ 0) rs

  count-keep_live :
      (now later : ℕ) (es : List Entry)
      → now ≤ later
      → window ≤ now
      → count (entry_live window later) (keep (is_above (now - window)) es)
        ≡ count (entry_live window later) es
  unfolding count keep
  count-keep_live now later [] h k = refl
  count-keep_live now later (e ∷ es) h k = ground (arith, count-keep_live now later es h k)

  count-clear_before :
      (now later : ℕ) (s : redis.State)
      → now ≤ later
      → count
          (entry_live window later)
          (redis.members later key (clear_before redis now window key s))
        ≡ count (entry_live window later) (redis.members later key s)
  unfolding clear_before
  count-clear_before now later s h = elim (Bool-cases (ltb now window)) [
    | inl early ↦ rw early refl
    | inr late ↦
        rw (late, laws.members-zremrangebyscore now later (now - window) key s h)
          (count-keep_live now later (redis.members later key s) h (ground (arith, late)))
  ]

  count-keep-le : (p q : Entry → Bool) (es : List Entry) → count p (keep q es) ≤ count p es
  unfolding count keep
  count-keep-le p q [] = omega arith
  count-keep-le p q (e ∷ es) = ground (arith, count-keep-le p q es)

  count-le-length : (p : Entry → Bool) (es : List Entry) → count p es ≤ length es
  unfolding count
  count-le-length p [] = omega arith
  count-le-length p (e ∷ es) = ground (arith, count-le-length p es)

  pub count-clear_before-le :
      (p : Entry → Bool) (now later : ℕ) (s : redis.State)
      → now ≤ later
      → count p (redis.members later key (clear_before redis now window key s))
        ≤ count p (redis.members later key s)
  unfolding clear_before
  count-clear_before-le p now later s h = elim (Bool-cases (ltb now window)) [
    | inl early ↦ rw early (omega arith)
    | inr late ↦
        rw (late, laws.members-zremrangebyscore now later (now - window) key s h)
          (count-keep-le p (is_above (now - window)) (redis.members later key s))
  ]

  -- A set only loses entries with time.
  count-later-le :
      (p : Entry → Bool) (now later : ℕ) (s : redis.State)
      → now ≤ later
      → count p (redis.members later key s) ≤ count p (redis.members now key s)
  unfolding count
  count-later-le p now later s h = elim (laws.members-later now later key s h) [
    | inl same ↦ rw same (omega arith)
    | inr gone ↦ rw gone (omega arith)
  ]

  count-without :
      (p : Entry → Bool) (id : String) (es : List Entry)
      → count (has_member id) es ≡ 0
      → count (λ e. p e && is_other id e) es ≡ count p es
  unfolding count
  count-without p id [] h = refl
  count-without p id (e ∷ es) h = ground (arith, h, count-without p id es)

  -- What an admitted request of a new id leaves in the set.
  pub count-admit :
      (p : Entry → Bool) (now later : ℕ) (id : String) (s : redis.State)
      → now ≤ later
      → count (has_member id) (redis.members now key s) ≡ 0
      → count p (redis.members later key (admit redis now window key id s)) ≡ (
          if ltb later (now + window)
          then (if p (record { member = id; score = now }) then 1 else 0)
            + count p (redis.members now key s)
          else 0)
  unfolding count
  count-admit p now later id s h fresh =
      rw (laws.members-pexpire now later window key (redis.zadd now key now id s) h)
        (elim (Bool-cases (ltb later (now + window))) [
          | inl before ↦ rw before (
              laws.count-zadd now now key id s p
              ∙ ap (λ n. (if p (record { member = id; score = now }) then 1 else 0) + n)
                  (count-without p id (redis.members now key s) fresh))
          | inr after ↦ rw after refl
        ])

  none_live :
      (now later : ℕ) (admitted : List Request)
      → All (λ a. a.at ≤ now) admitted
      → now + window ≤ later
      → count (is_live window later) admitted ≡ 0
  unfolding count
  none_live now later [] h k = refl
  none_live now later (a ∷ rest) (h, hs) k = ground (arith, h, none_live now later rest hs k)

  pub past-later :
      (now later : ℕ) (admitted : List Request)
      → All (λ a. a.at ≤ now) admitted
      → now ≤ later
      → All (λ a. a.at ≤ later) admitted
  past-later now later admitted h k = All-map _ _ (λ a l. omega arith) admitted h

  pub Tracks-clear :
      (before now : ℕ) (s : redis.State) (admitted : List Request)
      → before ≤ now
      → Tracks before s admitted
      → Tracks now (clear_before redis now window key s) admitted
  Tracks-clear before now s admitted h k = record {
    counted =
        λ later l. omega (arith, k.counted later (omega arith), count-clear_before now later s l);
    past = past-later before now admitted k.past h;
    within = k.within;
  }

  pub Tracks-admit :
      (r : Request) (s : redis.State) (admitted : List Request)
      → Tracks r.at s admitted
      → count (has_member r.id) (redis.members r.at key s) ≡ 0
      → redis.zcard r.at key s < limit
      → Tracks r.at (admit redis r.at window key r.id s) (r ∷ admitted)
  unfolding count
  Tracks-admit r s admitted k fresh room = record {
    counted = λ later l. ground (
      arith,
      count-admit (entry_live window later) r.at later r.id s l fresh,
      k.counted later l,
      count-later-le (entry_live window later) r.at later s l,
      none_live r.at later admitted k.past,
    );
    past = (omega arith, k.past);
    within = (
      ground (
        arith,
        k.counted r.at (omega arith),
        count-le-length (entry_live window r.at) (redis.members r.at key s),
        laws.zcard_lem r.at key s,
      ),
      k.within,
    );
  }
