-- ===== src/Database/Laws.antt =====
-- Which clients the registry hands out.
use surgepay.Common.{
  ◌⊎◌, subst, ℕ, ◌≡◌, ◌<◌, ◌++◌, Bool, Option, true, false, refl, sym, arith, String, List, [], ◌∷◌,
  none, some, ◌==◌, eq_refl, All, All-map, All-join, Option-cases, inl, inr, if◌then◌else◌,
}
use surgepay.Database.{
  Registry, contains, lookup, get_or_create_prisma_client, disconnect_all, construct, cached,
  cache_key, global_client,
}

-- A client that the next `disconnectAll` closes, and that none has closed.
abbrev IsOpen : List ℕ → List ℕ → ℕ → Type 0
IsOpen active closed c = (contains c active ≡ true) × (contains c closed ≡ false)

record IsTracked (s : Registry) : Type 0 where
  pub cached_open : All (λ p. IsOpen s.active_clients s.closed p.1) s.client_cache
  pub active_old : All (λ c. c < s.constructed) s.active_clients
  pub closed_old : All (λ c. c < s.constructed) s.closed

contains-last : (c : ℕ) (xs : List ℕ) → contains c (xs ++ c ∷ []) ≡ true
contains-last c [] = ground arith
contains-last c (x ∷ xs) = ground (arith, contains-last c xs)

contains-new : (c : ℕ) (xs : List ℕ) → All (λ d. d < c) xs → contains c xs ≡ false
contains-new c [] h = refl
contains-new c (x ∷ xs) (p, h) = ground (arith, contains-new c xs h)

contains-front : (c : ℕ) (xs ys : List ℕ) → contains c xs ≡ true → contains c (xs ++ ys) ≡ true
contains-front c [] ys h = cc
contains-front c (x ∷ xs) ys h = ground (arith, h, contains-front c xs ys)

either_some :
    {A : Type 0} (b : Bool) (a c : A) (o : Option A)
    → (if b then some a else o) ≡ some c
    → (a ≡ c) ⊎ (o ≡ some c)
either_some true a c o h = inl cc
either_some false a c o h = inr h

cached_one :
    (key : String) (P : ℕ → Type 0) (xs : List (String × ℕ)) (c : ℕ)
    → All (λ p. P p.1) xs
    → lookup key xs ≡ some c
    → P c
cached_one key P [] c h found = cc
cached_one key P ((k, d) ∷ xs) c (p, h) found =
    elim (either_some (k == key) d c (lookup key xs) found) [
      | inl same ↦ subst P same p
      | inr later ↦ cached_one key P xs c h later
    ]

construct-IsOpen :
    (s : Registry) → IsTracked s → IsOpen (construct s).active_clients s.closed s.constructed
construct-IsOpen s h =
    (contains-last s.constructed s.active_clients, contains-new s.constructed s.closed h.closed_old)

still-IsOpen :
    (s : Registry) (c : ℕ)
    → IsOpen s.active_clients s.closed c
    → IsOpen (construct s).active_clients s.closed c
still-IsOpen s c (active, unclosed) = (contains-front c s.active_clients _ active, unclosed)

construct_old :
    (s : Registry) (xs : List ℕ)
    → All (λ c. c < s.constructed) xs
    → All (λ c. c < (construct s).constructed) xs
construct_old s = All-map _ _ (λ c h. omega (arith, h))

-- A call that ends with a registry and a client.
record HandsOut (name url : String) (p : Registry × ℕ) : Type 0 where
  pub tracked : IsTracked p.0
  pub unclosed : IsOpen p.0.active_clients p.0.closed p.1
  pub single : get_or_create_prisma_client true name url p.0 ≡ p

abbrev created : String → Registry → Registry
created key s = record (construct s) { client_cache = (key, s.constructed) ∷ s.client_cache }

cached-created :
    (key : String) (s : Registry) → cached key (created key s) ≡ (created key s, s.constructed)
cached-created key s = rw (eq_refl key, cached) refl

created-IsTracked : (key : String) (s : Registry) → IsTracked s → IsTracked (created key s)
created-IsTracked key s h = record {
  cached_open =
      (construct-IsOpen s h, All-map _ _ (λ p. still-IsOpen s p.1) s.client_cache h.cached_open);
  active_old = All-join _ s.active_clients _ (construct_old s _ h.active_old) (omega arith, tt);
  closed_old = construct_old s _ h.closed_old;
}

-- In production each client that is handed out is open, and a further call gets the same one.
get_or_create_prisma_client-HandsOut :
    (name url : String) (s : Registry)
    → IsTracked s
    → HandsOut name url (get_or_create_prisma_client true name url s)
unfolding get_or_create_prisma_client
get_or_create_prisma_client-HandsOut name url s h =
    let key = cache_key name url in
    elim (Option-cases (lookup key s.client_cache)) [
      | inl missing ↦
          let same : cached key s ≡ (created key s, s.constructed) = rw (missing, cached) refl in
          subst (HandsOut name url) (sym same) (record {
            tracked = created-IsTracked key s h;
            unclosed = construct-IsOpen s h;
            single = cached-created key s;
          })
      | inr (c, found) ↦
          let same : cached key s ≡ (s, c) = rw (found, cached) refl in
          subst (HandsOut name url) (sym same) (record {
            tracked = h;
            unclosed =
                cached_one key (IsOpen s.active_clients s.closed) s.client_cache c h.cached_open
                  found;
            single = same;
          })
    ]

disconnect_all-IsTracked : (s : Registry) → IsTracked s → IsTracked (disconnect_all s)
unfolding disconnect_all
disconnect_all-IsTracked s h = record {
  cached_open = tt;
  active_old = tt;
  closed_old = All-join _ s.active_clients s.closed h.active_old h.closed_old;
}

-- Outside production a client survives `disconnectAll` in the global object: a later call gets the
-- closed one, which the next `disconnectAll` passes over, whatever the address.
closed_client_handed :
    (name url other : String) (s : Registry)
    → lookup name s.globals ≡ none
    → (t : Registry) × (get_or_create_prisma_client false name url s ≡ (t, s.constructed))
      × (get_or_create_prisma_client false name other (disconnect_all t)
          ≡ (disconnect_all t, s.constructed))
      × (contains s.constructed (disconnect_all t).closed ≡ true)
unfolding get_or_create_prisma_client disconnect_all
closed_client_handed name url other s missing = (
  record (construct s) { globals = (name, s.constructed) ∷ s.globals },
  rw (missing, global_client) refl,
  rw (eq_refl name, global_client) refl,
  contains-front s.constructed _ s.closed (contains-last s.constructed s.active_clients),
)
