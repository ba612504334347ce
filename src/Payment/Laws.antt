-- ===== src/Payment/Laws.antt =====
-- What `createPayment` does to the store, on every branch.
use surgepay.Payment.{
  unexpected, unavailable, timed_out, order_unexpected, order_status_error, downstream,
  order_unavailable, order_timed_out, database_failure, after_order, persist, Outcome, conclude,
  duplicate_reference, new_event, find_by_reference, created, after_fraud, thrown, answered,
  new_payment, PaymentError, FraudAnswer, Reply, has_reference, Request, PaymentEvent, Context,
  create_payment, Store, Payment,
}
use surgepay.Common.{
  eq_iff, count-eq-zero_of_find, count-append, ◌∙◌, ap, List, Option, find, true, refl, false, sym,
  subst, arith, inl, inr, Option-cases, none, ◌⊎◌, [], ◌∷◌, ◌≤◌, ◌==◌, ◌≡◌, ◌++◌, count, Bool,
  String,
}

abbrev pub has_payment_id : String → Payment → Bool
has_payment_id key p = p.id == key

abbrev pub has_aggregate_id : String → PaymentEvent → Bool
has_aggregate_id key e = e.aggregate_id == key

-- As many events as payments for each payment id.
abbrev pub IsPaired : Store → Type 0
IsPaired s =
    (key : String) → count (has_payment_id key) s.payments ≡ count (has_aggregate_id key) s.outbox

abbrev pub HasUniqueReferences : Store → Type 0
HasUniqueReferences s = (merchant ref : String) → count (has_reference merchant ref) s.payments ≤ 1

pair_added :
    (event_id : String) (s : Store) (p : Payment) (order_id : String) (method : Option String)
    (key : String)
    → count (has_payment_id key) s.payments ≡ count (has_aggregate_id key) s.outbox
    → count (has_payment_id key) (s.payments ++ p ∷ [])
      ≡ count (has_aggregate_id key) (s.outbox ++ new_event event_id p order_id method ∷ [])
unfolding count new_event
pair_added event_id s p order_id method key h = ground (
  arith,
  h,
  count-append (has_payment_id key) s.payments (p ∷ []),
  count-append (has_aggregate_id key) s.outbox (new_event event_id p order_id method ∷ []),
)

absent_count :
    (t : List Payment) (merchant ref m r : String)
    → find (has_reference merchant ref) t ≡ none
    → merchant ≡ m
    → ref ≡ r
    → count (has_reference m r) t ≡ 0
absent_count t merchant ref m r missing same_merchant same_ref =
    count-eq-zero_of_find (has_reference merchant ref) (has_reference m r)
      (λ x k. rw (same_merchant, same_ref) k) t missing

reference_added :
    (merchant ref : String) (t : List Payment) (p : Payment)
    → p.merchant_id ≡ merchant
    → p.reference ≡ ref
    → find (has_reference merchant ref) t ≡ none
    → (m r : String) → count (has_reference m r) t ≤ 1
    → count (has_reference m r) (t ++ p ∷ []) ≤ 1
unfolding count
reference_added merchant ref t p own named missing m r h = ground (
  arith,
  own,
  named,
  missing,
  h,
  absent_count t merchant ref m r missing,
  eq_iff p.merchant_id m,
  eq_iff p.reference r,
  count-append (has_reference m r) t (p ∷ []),
)

-- The store after a payment and its event.
abbrev pub with_payment : Store → Payment → PaymentEvent → Store
with_payment s p e = record { payments = s.payments ++ p ∷ []; outbox = s.outbox ++ e ∷ [] }

module _ (trim : String → String) (payment_id event_id : String) where
  -- Why a payment was created, and what the store is then.
  pub record Created (c : Context) (r : Request) (merchant : String) (order : Reply String)
      (fraud : Reply FraudAnswer) (seen s after : Store) (p : Payment) : Type 0 where
    pub order_id : String
    pub made : p ≡ new_payment trim payment_id c r merchant
    pub order_valid : order ≡ answered order_id
    pub fraud_passed : after_fraud fraud ≡ none
    pub unseen : find_by_reference seen.payments merchant (trim r.reference) ≡ none
    pub fresh : find_by_reference s.payments merchant (trim r.reference) ≡ none
    pub stored : after ≡ with_payment s p (new_event event_id p order_id r.payment_method)

  abbrev pub Ends :
      Context
      → Request
      → String
      → Reply String
      → Reply FraudAnswer
      → Store
      → Store
      → Outcome × Store
      → Type 0
  Ends c r merchant order fraud seen s result =
      ((x : PaymentError) × (result ≡ (thrown x, s)))
      ⊎ ((p : Payment) × (after : Store) × (result ≡ (created p, after))
          × Created c r merchant order fraud seen s after p)

  pub goes_on :
      (c : Context) (r : Request) (merchant : String) (order : Reply String)
      (fraud : Reply FraudAnswer) (accepted : Bool) (seen s : Store)
      → find_by_reference seen.payments merchant (trim r.reference) ≡ none
      → create_payment trim payment_id event_id c r merchant order fraud accepted seen s
        ≡ conclude trim payment_id event_id c r merchant
            (after_order order)
            (after_fraud fraud)
            accepted
            s
  unfolding create_payment
  goes_on c r merchant order fraud accepted seen s free = ground (arith, free)

  stores :
      (c : Context) (r : Request) (merchant order_id : String) (fraud : Reply FraudAnswer)
      (accepted : Bool) (seen s : Store)
      → find_by_reference seen.payments merchant (trim r.reference) ≡ none
      → after_fraud fraud ≡ none
      → Ends c r merchant
          (answered order_id)
          fraud
          seen
          s
          (conclude trim payment_id event_id c r merchant (inr order_id) none accepted s)
  unfolding conclude persist new_payment
  stores c r merchant order_id fraud false seen s free passed = inl (database_failure, refl)
  stores c r merchant order_id fraud true seen s free passed =
      let p = new_payment trim payment_id c r merchant in
      elim (Option-cases (find_by_reference s.payments merchant (trim r.reference))) [
        | inr (x, taken) ↦ inl (database_failure, ground (arith, taken))
        | inl fresh ↦ inr (
          p,
          with_payment s p (new_event event_id p order_id r.payment_method),
          ground (arith, fresh),
          record {
            order_id = order_id;
            made = refl;
            order_valid = refl;
            fraud_passed = passed;
            unseen = free;
            fresh = fresh;
            stored = refl;
          },
        )
      ]

  conclude_cases :
      (c : Context) (r : Request) (merchant : String) (order : Reply String)
      (fraud : Reply FraudAnswer) (accepted : Bool) (seen s : Store)
      → find_by_reference seen.payments merchant (trim r.reference) ≡ none
      → Ends c r merchant order fraud seen s (
          conclude trim payment_id event_id c r merchant
            (after_order order)
            (after_fraud fraud)
            accepted
            s)
  unfolding conclude after_order
  conclude_cases c r merchant (answered order_id) fraud accepted seen s free =
      elim (Option-cases (after_fraud fraud)) [
        | inr (x, bad) ↦ inl (x, rw bad refl)
        | inl passed ↦
            subst
              (λ x.
                Ends c r merchant (answered order_id) fraud seen s
                  (conclude trim payment_id event_id c r merchant (inr order_id) x accepted s))
              (sym passed) (stores c r merchant order_id fraud accepted seen s free passed)
      ]
  conclude_cases c r merchant timed_out fraud accepted seen s free = inl (order_timed_out, refl)
  conclude_cases c r merchant unavailable fraud accepted seen s free = inl (order_unavailable, refl)
  conclude_cases c r merchant (downstream status) fraud accepted seen s free =
      inl (order_status_error status, refl)
  conclude_cases c r merchant unexpected fraud accepted seen s free = inl (order_unexpected, refl)

  -- A payment is created only after the order validated, the fraud check passed and the reference was
  -- free both when it was first looked for and in the transaction; then the payment and its event are
  -- added together. In every other case an exception is thrown and the store is left as it was.
  pub create_payment_cases :
      (c : Context) (r : Request) (merchant : String) (order : Reply String)
      (fraud : Reply FraudAnswer) (accepted : Bool) (seen s : Store)
      → Ends c r merchant order fraud seen s
          (create_payment trim payment_id event_id c r merchant order fraud accepted seen s)
  unfolding create_payment
  create_payment_cases c r merchant order fraud accepted seen s =
      elim (Option-cases (find_by_reference seen.payments merchant (trim r.reference))) [
        | inr (x, taken) ↦ inl (duplicate_reference, ground (arith, taken))
        | inl free ↦
            subst (Ends c r merchant order fraud seen s)
              (sym (goes_on c r merchant order fraud accepted seen s free))
              (conclude_cases c r merchant order fraud accepted seen s free)
      ]

  merchant_of :
      (c : Context) (r : Request) (merchant : String)
      → (new_payment trim payment_id c r merchant).merchant_id ≡ merchant
  unfolding new_payment
  merchant_of c r merchant = refl

  reference_of :
      (c : Context) (r : Request) (merchant : String)
      → (new_payment trim payment_id c r merchant).reference ≡ trim r.reference
  unfolding new_payment
  reference_of c r merchant = refl

  free_now :
      (c : Context) (r : Request) (merchant : String) (order : Reply String)
      (fraud : Reply FraudAnswer) (seen s after : Store) (p : Payment)
      → Created c r merchant order fraud seen s after p
      → find (has_reference merchant (trim r.reference)) s.payments ≡ none
  unfolding find_by_reference
  free_now c r merchant order fraud seen s after p why = why.fresh

  -- `createPayment` keeps as many events as payments for each payment id, however it ends.
  pub create_payment-IsPaired :
      (c : Context) (r : Request) (merchant : String) (order : Reply String)
      (fraud : Reply FraudAnswer) (accepted : Bool) (seen s : Store)
      → IsPaired s
      → IsPaired
          (create_payment trim payment_id event_id c r merchant order fraud accepted seen s).1
  create_payment-IsPaired c r merchant order fraud accepted seen s h =
      elim (create_payment_cases c r merchant order fraud accepted seen s) [
        | inl (x, e) ↦ rw e h
        | inr (p, after, e, why) ↦
            rw (e, why.stored)
              (λ key. pair_added event_id s p why.order_id r.payment_method key (h key))
      ]

  -- `createPayment` keeps the references of a merchant's payments unique, also where another request
  -- stored the same reference after the first look for it.
  pub create_payment-HasUniqueReferences :
      (c : Context) (r : Request) (merchant : String) (order : Reply String)
      (fraud : Reply FraudAnswer) (accepted : Bool) (seen s : Store)
      → HasUniqueReferences s
      → HasUniqueReferences
          (create_payment trim payment_id event_id c r merchant order fraud accepted seen s).1
  create_payment-HasUniqueReferences c r merchant order fraud accepted seen s h =
      elim (create_payment_cases c r merchant order fraud accepted seen s) [
        | inl (x, e) ↦ rw e h
        | inr (p, after, e, why) ↦
            rw (e, why.stored)
              (λ m ref.
                reference_added merchant (trim r.reference) s.payments p
                  (ap (λ x. x.merchant_id) why.made ∙ merchant_of c r merchant)
                  (ap (λ x. x.reference) why.made ∙ reference_of c r merchant)
                  (free_now c r merchant order fraud seen s after p why) m ref (h m ref))
      ]
