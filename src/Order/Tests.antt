-- ===== src/Order/Tests.antt =====
-- The order service on a small table.
use surgepay.Order.{
  paid, transition_to, order_cancelled, order_not_found, merchant_ownership, valid, invalid,
  cancelled, find_by_reference_only, created, create_order, find_by_merchant_and_reference,
  validate_order, Order,
}
use surgepay.Common.{refl, arith, some, find, [], ◌≡◌, ◌∷◌, count, String, List}
use surgepay.Order.Laws.{HasUniqueReferences}
use surgepay.Messaging.Json.{whole}

abbrev same_case : String → String
same_case s = s

abbrev order : Order
order = record {
  id = "o-1";
  merchant_id = "m-1";
  amount = 500;
  currency = "INR";
  status = created;
  reference = "ref-1";
}

abbrev orders : List Order
orders = order ∷ record order { id = "o-2"; reference = "ref-2"; status = cancelled } ∷ []

validates : validate_order same_case orders "m-1" "ref-1" (whole 500) "INR" ≡ valid order
unfolding validate_order find_by_merchant_and_reference find
validates = refl

refusals_test :
    (validate_order same_case orders "m-2" "ref-1" (whole 500) "INR" ≡ invalid merchant_ownership)
    × (validate_order same_case orders "m-1" "ref-9" (whole 500) "INR" ≡ invalid order_not_found)
    × (validate_order same_case orders "m-1" "ref-2" (whole 500) "INR" ≡ invalid order_cancelled)
unfolding validate_order find_by_merchant_and_reference find_by_reference_only find
refusals_test = (refl, refl, refl)

found_order : find_by_merchant_and_reference orders "m-1" "ref-1" ≡ some order
unfolding find_by_merchant_and_reference find
found_order = refl

empty-HasUniqueReferences : HasUniqueReferences []
unfolding count
empty-HasUniqueReferences m r = omega arith

adds_order : create_order "o-1" [] "m-1" 500 "INR" "ref-1" ≡ some (order ∷ [])
unfolding create_order find_by_merchant_and_reference find
adds_order = refl

pays : transition_to created paid ≡ some paid
unfolding transition_to
pays = refl
