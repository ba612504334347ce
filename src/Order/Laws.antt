-- ===== src/Order/Laws.antt =====
-- What an order that validates is, and what `createOrder` keeps.
use surgepay.Order.{
  refunded, cancelled, paid, OrderStatus, transition_to, created, valid, owned_by, validate_order,
  find_by_merchant_and_reference, create_order, Order,
}
use surgepay.Common.{
  ◌<◌, ◌⊎◌, count-eq-zero_of_find, [], true, ◌∷◌, ◌==◌, count-append, none, find, inr, eq_iff, inl,
  find_sound, arith, Option-cases, some, ◌≤◌, ℕ, ◌≡◌, count, List, String,
}
use surgepay.Messaging.Json.{whole, Number}

module _ (to_upper : String → String) where
  -- An order validates only for its own merchant, reference, exact amount and currency, and only
  -- while it is CREATED.
  pub validate_order_sound :
      (t : List Order) (merchant ref : String) (requested : Number) (unit : String) (o : Order)
      → validate_order to_upper t merchant ref requested unit ≡ valid o
      → (find_by_merchant_and_reference t merchant ref ≡ some o)
        × (o.merchant_id ≡ merchant)
        × (requested ≡ whole o.amount)
        × (to_upper o.currency ≡ to_upper unit)
        × (o.status ≡ created)
  unfolding validate_order find_by_merchant_and_reference
  validate_order_sound t merchant ref requested unit o h =
      elim (Option-cases (find_by_merchant_and_reference t merchant ref)) [
        | inl missing ↦ ground (arith, missing)
        | inr (x, found) ↦ ground (
          arith,
          found,
          eq_iff x.merchant_id merchant,
          eq_iff (to_upper x.currency) (to_upper unit),
        )
      ]

  -- And each such order validates.
  pub validate_order_complete :
      (t : List Order) (merchant ref : String) (unit : String) (o : Order)
      → find_by_merchant_and_reference t merchant ref ≡ some o
      → to_upper o.currency ≡ to_upper unit
      → o.status ≡ created
      → validate_order to_upper t merchant ref (whole o.amount) unit ≡ valid o
  unfolding validate_order find_by_merchant_and_reference
  validate_order_complete t merchant ref unit o found money fresh = ground (
    arith,
    found,
    money,
    fresh,
    find_sound (owned_by merchant ref) t o,
    eq_iff o.merchant_id merchant,
    eq_iff (to_upper o.currency) (to_upper unit),
  )

-- The merchant and reference of an order are unique.
abbrev pub HasUniqueReferences : List Order → Type 0
HasUniqueReferences t = (merchant ref : String) → count (owned_by merchant ref) t ≤ 1

absent_count :
    (t : List Order) (merchant ref m r : String)
    → find (owned_by merchant ref) t ≡ none
    → (merchant == m) ≡ true
    → (ref == r) ≡ true
    → count (owned_by m r) t ≡ 0
absent_count t merchant ref m r missing same_merchant same_ref =
    count-eq-zero_of_find (owned_by merchant ref) (owned_by m r)
      (λ x k. ground (
        arith,
        k,
        eq_iff merchant m,
        eq_iff ref r,
        eq_iff x.merchant_id m,
        eq_iff x.reference r,
        eq_iff x.merchant_id merchant,
        eq_iff x.reference ref,
      ))
      t missing

-- `createOrder` keeps the merchant and reference of orders unique, and the order it adds is found by them.
pub create_order-HasUniqueReferences :
    (drawn : String) (t u : List Order) (merchant : String) (price : ℕ) (unit ref : String)
    → HasUniqueReferences t
    → create_order drawn t merchant price unit ref ≡ some u
    → HasUniqueReferences u
unfolding create_order find_by_merchant_and_reference count
create_order-HasUniqueReferences drawn t u merchant price unit ref h e m r =
    elim (Option-cases (find (owned_by merchant ref) t)) [
      | inr (x, found) ↦ ground (arith, found)
      | inl missing ↦ ground (
        arith,
        missing,
        h m r,
        absent_count t merchant ref m r missing,
        count-append (owned_by m r) t (
            record {
              id = drawn;
              merchant_id = merchant;
              amount = price;
              currency = unit;
              status = created;
              reference = ref;
            }
            ∷ []),
      )
    ]

-- How far an order has come; the two last states are terminal.
abbrev pub rank : OrderStatus → ℕ
rank created = 0
rank paid = 1
rank cancelled = 2
rank refunded = 2

-- A transition that does not throw ends at the status asked for, and either leaves the status alone
-- or brings the order forward, so no status is ever taken back.
pub transition_to_forward :
    (s t u : OrderStatus) → transition_to s t ≡ some u → (u ≡ t) × ((s ≡ u) ⊎ (rank s < rank u))
unfolding transition_to
transition_to_forward created t u h = ground arith
transition_to_forward paid t u h = ground arith
transition_to_forward cancelled t u h = ground arith
transition_to_forward refunded t u h = ground arith
