-- ===== src/Gateway/RateLimit/Tests.antt =====
-- The rate limiter over a store that behaves as Redis does: from keys to their entries, lowest score
-- first, with the time at which they expire.
use surgepay.Gateway.SortedSets.{IsRedis, lowest, is_above, is_other, Commands, Entry}
use surgepay.Common.{
  inr, eq_iff, map, inl, ◌∙◌, ◌⊎◌, Bool-cases, ◌≢◌, ◌≤◌, ap, eq_refl, refl, [], arith, length, ◌+◌,
  leb, ◌==◌, ◌&&◌, none, ltb, some, if◌then◌else◌, ◌∷◌, ◌≡◌, keep, Option, List, Bool, String, ℕ,
  count,
}
use surgepay.Gateway.RateLimit.Window.{Request, serve_all, HasOwnIds, IsOrdered, WithinLimit}
use surgepay.Gateway.RateLimit.{clear_before, check_rate_limit}
use surgepay.Gateway.RateLimit.Limits.{serve_all-WithinLimit}
use surgepay.Gateway.RateLimit.Repeated.{repeated_id_admitted}

abbrev Store : Type 0
Store = String → List Entry × Option ℕ

abbrev alive : ℕ → List Entry × Option ℕ → List Entry
alive now (es, none) = es
alive now (es, some expiry) = if ltb now expiry then es else []

abbrev put : String → List Entry × Option ℕ → Store → Store
put key x s other = if other == key then x else s other

unfoldable insert : Entry → List Entry → List Entry
insert e [] = e ∷ []
insert e (x ∷ xs) = let later = insert e xs in if leb e.score x.score then e ∷ x ∷ xs else x ∷ later

-- The expiry of a key that is still there.
abbrev expiry_at : ℕ → Option ℕ → Option ℕ
expiry_at now none = none
expiry_at now (some expiry) = if ltb now expiry then some expiry else none

abbrev add : Entry → ℕ → List Entry × Option ℕ → List Entry × Option ℕ
add e now (es, expiry) =
    (insert e (keep (is_other e.member) (alive now (es, expiry))), expiry_at now expiry)

abbrev store : Commands
store = record {
  State = Store;
  members = λ now key s. alive now (s key);
  zremrangebyscore = λ now key upto s. put key (keep (is_above upto) (s key).0, (s key).1) s;
  zcard = λ now key s. length (alive now (s key));
  zadd = λ now key score member s.
      put key (add (record { member = member; score = score }) now (s key)) s;
  pexpire = λ now key ms s. put key (alive now (s key), some (now + ms)) s;
  zfirst = λ now key s. lowest (alive now (s key));
}

count-insert :
    (p : Entry → Bool) (e : Entry) (es : List Entry)
    → count p (insert e es) ≡ (if p e then 1 else 0) + count p es
unfolding count insert
count-insert p e [] = ground arith
count-insert p e (x ∷ xs) = ground (arith, count-insert p e xs)

count-keep :
    (p q : Entry → Bool) (es : List Entry) → count p (keep q es) ≡ count (λ e. p e && q e) es
unfolding count keep
count-keep p q [] = refl
count-keep p q (x ∷ xs) = ground (arith, count-keep p q xs)

alive-expiry :
    (now : ℕ) (es : List Entry) (expiry : Option ℕ) → alive now (es, expiry_at now expiry) ≡ es
alive-expiry now es none = refl
alive-expiry now es (some expiry) = ground arith

alive-later :
    (now later : ℕ) (x : List Entry × Option ℕ)
    → now ≤ later
    → (alive later x ≡ alive now x) ⊎ (alive later x ≡ [])
alive-later now later (es, none) h = inl refl
alive-later now later (es, some expiry) h = elim (Bool-cases (ltb later expiry)) [
  | inl open_yet ↦ inl (ground (arith, open_yet))
  | inr over ↦ inr (rw over refl)
]

alive-keep :
    (later upto : ℕ) (es : List Entry) (expiry : Option ℕ)
    → alive later (keep (is_above upto) es, expiry)
      ≡ keep (is_above upto) (alive later (es, expiry))
unfolding keep
alive-keep later upto es none = refl
alive-keep later upto es (some expiry) = elim (Bool-cases (ltb later expiry)) [
  | inl open_yet ↦ rw open_yet refl
  | inr over ↦ rw over refl
]

added :
    (now : ℕ) (e : Entry) (x : List Entry × Option ℕ) (p : Entry → Bool)
    → count p (alive now (add e now x))
      ≡ (if p e then 1 else 0) + count (λ y. p y && is_other e.member y) (alive now x)
added now e (es, expiry) p =
    let others = keep (is_other e.member) (alive now (es, expiry)) in
    ap (count p) (alive-expiry now (insert e others) expiry)
    ∙ count-insert p e others
    ∙ ap (λ n. (if p e then 1 else 0) + n)
        (count-keep p (is_other e.member) (alive now (es, expiry)))

put_same : (key : String) (x : List Entry × Option ℕ) (s : Store) → put key x s key ≡ x
put_same key x s = rw (eq_refl key) refl

put_other :
    (key other : String) (x : List Entry × Option ℕ) (s : Store)
    → other ≢ key
    → put key x s other ≡ s other
put_other key other x s apart = elim (Bool-cases (other == key)) [
  | inl same ↦ absurd (apart ((eq_iff other key).0 same))
  | inr differs ↦ rw differs refl
]

store-IsRedis : IsRedis store
store-IsRedis = record {
  members-later = λ now later key s h. alive-later now later (s key) h;
  zcard_lem = λ now key s. refl;
  zfirst_lem = λ now key s. refl;
  members-zremrangebyscore = λ now later upto key s h.
      ap (alive later) (put_same key _ s) ∙ alive-keep later upto (s key).0 (s key).1;
  count-zadd = λ now score key member s p.
      ap (λ x. count p (alive now x)) (put_same key _ s)
      ∙ added now (record { member = member; score = score }) (s key) p;
  members-pexpire = λ now later ms key s h. ap (alive later) (put_same key _ s);
  zremrangebyscore_other =
      λ now later upto key other s apart. ap (alive later) (put_other key other _ s apart);
  zadd_other =
      λ now later score key other member s apart. ap (alive later) (put_other key other _ s apart);
  pexpire_other =
      λ now later ms key other s apart. ap (alive later) (put_other key other _ s apart);
}

abbrev empty_store : Store
empty_store key = ([], none)

abbrev request : ℕ → String → String → Request
request at key id = record { at = at; key = key; id = id }

-- Three requests of one merchant and one of another, with a limit of two in 100 milliseconds.
abbrev requests : List Request
requests =
    request 10 "a" "1"
    ∷ request 20 "b" "2"
    ∷ request 30 "a" "3"
    ∷ request 40 "a" "4"
    ∷ request 130 "a" "5"
    ∷ []

own_ids : HasOwnIds requests
own_ids = (
  (refl, (refl, (refl, (refl, tt)))),
  ((refl, (refl, (refl, tt))), ((refl, (refl, tt)), ((refl, tt), (tt, tt)))),
)

in_order : IsOrdered 0 requests
in_order = (omega arith, (omega arith, (omega arith, (omega arith, (omega arith, tt)))))

admitted_test :
    (serve_all store 100 2 "a" requests empty_store []).1
    ≡ request 130 "a" "5" ∷ request 30 "a" "3" ∷ request 10 "a" "1" ∷ []
unfolding serve_all check_rate_limit clear_before keep insert
admitted_test = refl

serve_all-WithinLimit_example :
    WithinLimit 100 2 (serve_all store 100 2 "a" requests empty_store []).1
serve_all-WithinLimit_example =
    serve_all-WithinLimit store store-IsRedis 100 2 "a" requests empty_store 0 (λ later. refl)
      in_order own_ids

abbrev times : List ℕ
times = 10 ∷ 11 ∷ 12 ∷ 13 ∷ []

repeated_id_admitted_example :
    length (serve_all store 100 2 "a" (map (λ now. request now "a" "x") times) empty_store []).1
    ≡ 0 + 4
unfolding count
repeated_id_admitted_example =
    repeated_id_admitted store store-IsRedis 100 2 "a" "x" times empty_store 0 [] (omega arith)
      (λ later h. (omega arith, refl))
      (omega arith, (omega arith, (omega arith, (omega arith, tt))))
