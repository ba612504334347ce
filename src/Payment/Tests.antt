-- ===== src/Payment/Tests.antt =====
-- A payment through the three services.
use surgepay.Order
use surgepay.Fraud
use surgepay.Payment.{
  processing, pending, completed, transition, order_not_found, new_payment, after_fraud,
  after_order, persist, created, conclude, order_amount_mismatch, answered, thrown, create_payment,
  FraudAnswer, Outcome, PaymentError, Store, Request, find_by_reference, Context, Payment,
}
use surgepay.Common.{
  update_where, ◌⊎◌, ◌∷◌, refl, none, arith, [], true, some, find, List, ◌≡◌, String, count,
}
use surgepay.Payment.Laws.{
  create_payment-HasUniqueReferences, create_payment-IsPaired, IsPaired, HasUniqueReferences,
}
use surgepay.Payment.Checkout.{
  serve_fraud, serve_order, checkout_cases, Bought, currency_mismatch_as_amount, working, checkout,
}
use surgepay.Messaging.Json.{whole}
use surgepay.Payment.Machine.{follow}
use surgepay.Payment.Status.{update_status, transition_to}

abbrev same : String → String
same t = t

abbrev settings : Fraud.Config
settings = record {
  max_amount_threshold = some 1000;
  supported_currencies = none;
  blacklisted_merchants = none;
}

abbrev order : Order.Order
order = record {
  id = "o-1";
  merchant_id = "m-1";
  amount = 500;
  currency = "INR";
  status = Order.created;
  reference = "ref-1";
}

abbrev orders : List Order.Order
orders = order ∷ []

abbrev request : Request
request = record {
  amount = whole 500;
  currency = "INR";
  reference = "ref-1";
  payment_method = none;
}

abbrev request_context : Context
request_context = record { request_id = some "r-1"; correlation_id = none; merchant_id = none }

abbrev empty : Store
empty = record { payments = []; outbox = [] }

abbrev result : Request → String → Outcome × Store
result r merchant =
    checkout same same settings "p-1" "e-1" orders working working request_context r merchant true
      empty empty

checkout_test :
    ((result request "m-1").1.payments ≡ new_payment same "p-1" request_context request "m-1" ∷ [])
    × ((result request "m-2") ≡ (thrown order_not_found, empty))
unfolding checkout create_payment conclude persist find_by_reference find after_order after_fraud
    serve_order serve_fraud Order.validate_order Order.find_by_merchant_and_reference
    Order.find_by_reference_only Order.status_code Fraud.run_precheck Fraud.fraud_rules Fraud.screen
    Fraud.amount_threshold_rule Fraud.unsupported_currency_rule Fraud.blacklisted_merchant_rule
    Fraud.velocity_threshold_rule Fraud.known_fraud_pattern_rule new_payment
checkout_test = (refl, refl)

checkout_cases_example :
    ((x : PaymentError) × (result request "m-1" ≡ (thrown x, empty)))
    ⊎ ((p : Payment) × (after : Store) × (result request "m-1" ≡ (created p, after))
        × Bought same same settings "p-1" "e-1" orders request "m-1" empty empty after p)
checkout_cases_example =
    checkout_cases same same settings "p-1" "e-1" orders working working request_context request
      "m-1" true empty empty

unseen : find_by_reference [] "m-1" "ref-1" ≡ none
unfolding find_by_reference find
unseen = refl

known_order : Order.find_by_merchant_and_reference orders "m-1" "ref-1" ≡ some order
unfolding Order.find_by_merchant_and_reference find
known_order = refl

abbrev in_dollars : Request
in_dollars = record request { currency = "USD" }

currency_mismatch_as_amount_example :
    result in_dollars "m-1" ≡ (thrown order_amount_mismatch, empty)
currency_mismatch_as_amount_example =
    currency_mismatch_as_amount same same settings "p-1" "e-1" orders order working request_context
      in_dollars "m-1" true empty empty unseen known_order refl refl

abbrev approval : FraudAnswer
approval = record { approved = true; risk_score = 12 }

abbrev stored : Outcome × Store
stored =
    create_payment same "p-1" "e-1" request_context request "m-1" (answered "o-1")
      (answered approval) true empty empty

empty-IsPaired : IsPaired empty
unfolding count
empty-IsPaired key = refl

empty-HasUniqueReferences : HasUniqueReferences empty
unfolding count
empty-HasUniqueReferences merchant ref = omega arith

create_payment-IsPaired_example : IsPaired stored.1
create_payment-IsPaired_example =
    create_payment-IsPaired same "p-1" "e-1" request_context request "m-1" (answered "o-1")
      (answered approval) true empty empty empty-IsPaired

create_payment-HasUniqueReferences_example : HasUniqueReferences stored.1
create_payment-HasUniqueReferences_example =
    create_payment-HasUniqueReferences same "p-1" "e-1" request_context request "m-1"
      (answered "o-1") (answered approval) true empty empty empty-HasUniqueReferences

settles : follow pending (processing ∷ completed ∷ []) ≡ some completed
unfolding transition
settles = refl

abbrev stored_payment : Payment
stored_payment = record {
  id = "p-1";
  merchant_id = "m";
  amount = whole 5;
  currency = "INR";
  status = pending;
  reference = "ref-1";
  request_id = "r-1";
  correlation_id = "c-1";
  causation_id = "r-1";
  created_by = "m";
}

-- The repository writes a status that the state machine refuses.
unchecked_test :
    (transition_to completed stored_payment ≡ none)
    × (update_status "p-1" completed (stored_payment ∷ [])
        ≡ some (record stored_payment { status = completed } ∷ []))
unfolding transition_to transition update_status find update_where
unchecked_test = (refl, refl)
