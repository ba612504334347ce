-- ===== src/Common/Tables.antt =====
-- A database table as a list of rows: what `update ... where` does to a search and to a count.
use Prim.Native.Nat.{ℕ, zero, suc, ◌≤◌}
use mathlib.Core.Path.{◌≡◌, refl, ap}
use mathlib.Core.Bool.{Bool, true, false}
use mathlib.Core.List.{List, [], ◌∷◌, ◌++◌}
use mathlib.Core.Option
use mathlib.Core.Option.{Option, none, some}
use native.Mathlib.Omega.{arith}
use surgepay.Common.Tests.{if◌then◌else◌}
use surgepay.Common.Lists.{length, find, count, keep, take, All}

module _ {ℓ} {A : Type ℓ} where
  -- `UPDATE ... SET f WHERE p`
  unfoldable pub update_where : (A → Bool) → (A → A) → List A → List A
  update_where p f [] = []
  update_where p f (r ∷ rs) = (if p r then f r else r) ∷ update_where p f rs

  -- What an update that keeps the key `q` does to the row found by that key.
  pub find-update_where :
      (q p : A → Bool) (f : A → A)
      → ((r : A) → q (f r) ≡ q r)
      → (t : List A)
      → find q (update_where p f t) ≡ Option.map (λ r. if p r then f r else r) (find q t)
  unfolding find update_where
  find-update_where q p f keeps [] = refl
  find-update_where q p f keeps (r ∷ rs) = ground (arith, keeps r, find-update_where q p f keeps rs)

  pub length-update_where :
      (p : A → Bool) (f : A → A) (t : List A) → length (update_where p f t) ≡ length t
  unfolding update_where
  length-update_where p f [] = refl
  length-update_where p f (r ∷ rs) = ground (arith, length-update_where p f rs)

  -- A new row is found by its key unless an older row was.
  pub find-append_some :
      (q : A → Bool) (t : List A) (r : A)
      → find q t ≡ none
      → q r ≡ true
      → find q (t ++ r ∷ []) ≡ some r
  unfolding find
  find-append_some q [] r h e = rw e
  find-append_some q (x ∷ xs) r h e = ground (arith, find-append_some q xs r)

  -- A new row with another key changes no search.
  pub find-append_other :
      (q : A → Bool) (t : List A) (r : A) → q r ≡ false → find q (t ++ r ∷ []) ≡ find q t
  unfolding find
  find-append_other q [] r e = rw e
  find-append_other q (x ∷ xs) r e = ground (arith, find-append_other q xs r e)

  -- What is found passes the test.
  pub find_sound : (q : A → Bool) (t : List A) (r : A) → find q t ≡ some r → q r ≡ true
  unfolding find
  find_sound q [] r e = cc
  find_sound q (x ∷ xs) r e = ground (arith, find_sound q xs r)

  -- A search that fails shows that no row would be updated.
  pub count-eq-zero_of_find :
      (q p : A → Bool)
      → ((r : A) → p r ≡ true → q r ≡ true)
      → (t : List A) → find q t ≡ none
      → count p t ≡ 0
  unfolding find count
  count-eq-zero_of_find q p below [] e = refl
  count-eq-zero_of_find q p below (r ∷ rs) e =
      ground (arith, below r, count-eq-zero_of_find q p below rs)

  -- An update of no row leaves the table as it is.
  pub update_where-eq_of_count :
      (p : A → Bool) (f : A → A) (t : List A) → count p t ≡ 0 → update_where p f t ≡ t
  unfolding count update_where
  update_where-eq_of_count p f [] e = refl
  update_where-eq_of_count p f (r ∷ rs) e = ground (arith, update_where-eq_of_count p f rs)

  -- A row that passes the test is counted.
  pub count-pos_of_find :
      (q p : A → Bool) (t : List A) (r : A) → find q t ≡ some r → p r ≡ true → 1 ≤ count p t
  unfolding find count
  count-pos_of_find q p [] r e h = cc
  count-pos_of_find q p (x ∷ xs) r e h = ground (arith, count-pos_of_find q p xs r)

  -- An update of rows that the key `q` does not name changes no search by `q`.
  pub find-update_where_other :
      (q p : A → Bool) (f : A → A)
      → ((r : A) → q (f r) ≡ q r)
      → ((r : A) → q r ≡ true → p r ≡ false)
      → (t : List A) → find q (update_where p f t) ≡ find q t
  unfolding find update_where
  find-update_where_other q p f keeps apart [] = refl
  find-update_where_other q p f keeps apart (r ∷ rs) =
      ground (arith, keeps r, apart r, find-update_where_other q p f keeps apart rs)

  pub count-update_where :
      (q p : A → Bool) (f : A → A)
      → ((r : A) → q (f r) ≡ q r)
      → (t : List A) → count q (update_where p f t) ≡ count q t
  unfolding count update_where
  count-update_where q p f keeps [] = refl
  count-update_where q p f keeps (r ∷ rs) =
      ground (arith, keeps r, count-update_where q p f keeps rs)

  pub count-le :
      (q p : A → Bool) → ((r : A) → p r ≡ true → q r ≡ true) → (t : List A) → count p t ≤ count q t
  unfolding count
  count-le q p below [] = omega arith
  count-le q p below (x ∷ xs) = ground (arith, below x, count-le q p below xs)

  -- Where the key is unique, a row that fails the test is the only one that could have passed it.
  pub count-eq-zero_of_unique :
      (q p : A → Bool)
      → ((r : A) → p r ≡ true → q r ≡ true)
      → (t : List A) (r : A) → count q t ≤ 1
      → find q t ≡ some r
      → p r ≡ false
      → count p t ≡ 0
  unfolding find count
  count-eq-zero_of_unique q p below [] r u e h = cc
  count-eq-zero_of_unique q p below (x ∷ xs) r u e h =
      ground (arith, below x, count-le q p below xs, count-eq-zero_of_unique q p below xs r)

-- Two tables related row by row.
module _ {ℓ} {A : Type ℓ} (R : A → A → Type 0) where
  abbrev pub Rows : List A → List A → Type 0
  Rows [] [] = Unit
  Rows (x ∷ xs) (y ∷ ys) = R x y × Rows xs ys
  Rows _ _ = ⊥

  -- Related tables hold related rows at the same places, and as many.
  pub length-Rows : (t u : List A) → Rows t u → length t ≡ length u
  length-Rows [] [] h = refl
  length-Rows (x ∷ xs) (y ∷ ys) (h, k) = ap suc (length-Rows xs ys k)
  length-Rows [] (y ∷ ys) h = absurd h
  length-Rows (x ∷ xs) [] h = absurd h

  pub Rows-refl : ((r : A) → R r r) → (t : List A) → Rows t t
  Rows-refl same [] = tt
  Rows-refl same (x ∷ xs) = (same x, Rows-refl same xs)

  pub Rows-trans :
      ((a b c : A) → R a b → R b c → R a c) → (t u v : List A) → Rows t u → Rows u v → Rows t v
  Rows-trans chain [] [] [] h k = tt
  Rows-trans chain (x ∷ xs) (y ∷ ys) (z ∷ zs) (h, hs) (k, ks) =
      (chain x y z h k, Rows-trans chain xs ys zs hs ks)
  Rows-trans chain [] (y ∷ ys) v h k = absurd h
  Rows-trans chain (x ∷ xs) [] v h k = absurd h
  Rows-trans chain [] [] (z ∷ zs) h k = absurd k
  Rows-trans chain (x ∷ xs) (y ∷ ys) [] h k = absurd k

  pub Rows-update_where :
      (p : A → Bool) (f : A → A)
      → ((r : A) → R r r)
      → ((r : A) → p r ≡ true → R r (f r))
      → (t : List A) → Rows t (update_where p f t)
  unfolding update_where
  Rows-update_where p f same moves [] = tt
  Rows-update_where p f same moves (x ∷ xs) =
      (updated (p x) refl, Rows-update_where p f same moves xs)
    where
      updated : (b : Bool) → p x ≡ b → R x (if p x then f x else x)
      updated true e = rw e (moves x e)
      updated false e = rw e (same x)

module _ {ℓ κ} {A : Type ℓ} (P : A → Type κ) where
  pub All-update_where :
      (p : A → Bool) (f : A → A)
      → ((r : A) → P r → p r ≡ true → P (f r))
      → (t : List A) → All P t
      → All P (update_where p f t)
  unfolding update_where
  All-update_where p f moves [] h = tt
  All-update_where p f moves (x ∷ xs) (h, hs) =
      (updated (p x) refl, All-update_where p f moves xs hs)
    where
      updated : (b : Bool) → p x ≡ b → P (if p x then f x else x)
      updated true e = rw e (moves x h e)
      updated false e = rw e h

  kept_or_not :
      (b : Bool) (x : A) (rest : List A) → P x → All P rest → All P (if b then x ∷ rest else rest)
  kept_or_not true x rest h k = (h, k)
  kept_or_not false x rest h k = k

  pub All-keep : (p : A → Bool) (t : List A) → All P t → All P (keep p t)
  unfolding keep
  All-keep p [] h = tt
  All-keep p (x ∷ xs) (h, hs) = kept_or_not (p x) x (keep p xs) h (All-keep p xs hs)

  pub All-take : (n : ℕ) (t : List A) → All P t → All P (take n t)
  All-take zero t h = tt
  All-take (suc n) [] h = tt
  All-take (suc n) (x ∷ xs) (h, hs) = (h, All-take n xs hs)

tested {ℓ} :
    {A : Type ℓ} (p : A → Bool) (x : A) (rest : List A) (b : Bool)
    → p x ≡ b
    → All (λ y. p y ≡ true) rest
    → All (λ y. p y ≡ true) (if b then x ∷ rest else rest)
tested p x rest true e h = (e, h)
tested p x rest false e h = h

-- What the test keeps passes it.
pub All-keep_test {ℓ} : {A : Type ℓ} (p : A → Bool) (t : List A) → All (λ x. p x ≡ true) (keep p t)
unfolding keep
All-keep_test p [] = tt
All-keep_test p (x ∷ xs) = tested p x (keep p xs) (p x) refl (All-keep_test p xs)
