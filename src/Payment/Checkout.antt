-- ===== src/Payment/Checkout.antt =====
-- A payment request through the three services: the payment service with the order service and the
-- fraud service behind it. `serve_order` and `serve_fraud` are what the HTTP client
-- (packages/common/http/src/interceptors/response.interceptor.ts) makes of the answers of the
-- controllers (apps/order-service/src/controllers/order.controller.ts) and of a failing link.
use surgepay.Order
use surgepay.Fraud
use surgepay.Payment.{
  order_amount_mismatch, new_event, conclude, created, duplicate_reference, pending, thrown,
  find_by_reference, PaymentError, new_payment, after_order, Payment, create_payment, Outcome,
  unavailable, Store, timed_out, Context, downstream, after_fraud, answered, FraudAnswer, Reply,
  Request,
}
use surgepay.Common.{
  find_sound, ◌==◌, inr, inl, ◌⊎◌, ◌∙◌, some, sym, ap, false, refl, Bool, ℕ, true, none, arith, ◌≡◌,
  List, String,
}
use surgepay.Messaging.Json.{whole, Number}
use surgepay.Fraud.Laws.{run_precheck-fraud_rules}
use surgepay.Payment.Laws.{create_payment_cases, with_payment}
use surgepay.Order.Laws.{validate_order_sound}

pub data Link : Type 0 where
  working slow down : Link

unfoldable pub serve_order : Link → Order.Validation → Reply String
serve_order working (Order.valid o) = answered o.id
serve_order working (Order.invalid e) = downstream (Order.status_code e)
serve_order slow v = timed_out
serve_order down v = unavailable

unfoldable pub serve_fraud : Link → Fraud.Screening → Reply FraudAnswer
serve_fraud working (Fraud.approved score) =
    answered (record { approved = true; risk_score = score })
serve_fraud working (Fraud.rejected score why) = downstream 403
serve_fraud slow v = timed_out
serve_fraud down v = unavailable

abbrev pub precheck_of : Request → String → Fraud.Precheck
precheck_of r merchant = record { merchant_id = merchant; amount = r.amount; currency = r.currency }

module _ (trim to_upper : String → String) (settings : Fraud.Config)
    (payment_id event_id : String) where
  abbrev pub order_reply : List Order.Order → Link → Request → String → Reply String
  order_reply orders link r merchant =
      serve_order link
        (Order.validate_order to_upper orders merchant (trim r.reference) r.amount r.currency)

  abbrev pub fraud_reply : Link → Request → String → Reply FraudAnswer
  fraud_reply link r merchant =
      serve_fraud link
        (Fraud.run_precheck (Fraud.fraud_rules trim to_upper settings) (precheck_of r merchant))

  unfoldable pub checkout :
      List Order.Order
      → Link
      → Link
      → Context
      → Request
      → String
      → Bool
      → Store
      → Store
      → Outcome × Store
  checkout orders order_link fraud_link c r merchant accepted seen s =
      create_payment trim payment_id event_id c r merchant
        (order_reply orders order_link r merchant) (fraud_reply fraud_link r merchant) accepted seen
        s

  order_was_valid :
      (link : Link) (v : Order.Validation) (key : String)
      → serve_order link v ≡ answered key
      → (o : Order.Order) × (v ≡ Order.valid o) × (o.id ≡ key)
  unfolding serve_order
  order_was_valid working (Order.valid o) key h = (o, refl, ground (arith, h))
  order_was_valid working (Order.invalid e) key h = cc
  order_was_valid slow v key h = cc
  order_was_valid down v key h = cc

  fraud_was_approved :
      (link : Link) (v : Fraud.Screening)
      → after_fraud (serve_fraud link v) ≡ none
      → (score : ℕ) × (v ≡ Fraud.approved score)
  unfolding serve_fraud after_fraud
  fraud_was_approved working (Fraud.approved score) h = (score, refl)
  fraud_was_approved working (Fraud.rejected score why) h = ground (arith, h)
  fraud_was_approved slow v h = cc
  fraud_was_approved down v h = cc

  -- What stands behind a payment that was created.
  pub record Bought (orders : List Order.Order) (r : Request) (merchant : String)
      (seen s after : Store) (p : Payment) : Type 0 where
    pub order : Order.Order
    pub found : Order.find_by_merchant_and_reference orders merchant (trim r.reference) ≡ some order
    pub unpaid : order.status ≡ Order.created
    pub exact : p.amount ≡ whole order.amount
    pub same_currency : to_upper order.currency ≡ to_upper p.currency
    pub within_limit : Fraud.exceeds settings (precheck_of r merchant) ≡ false
    pub supported : Fraud.is_supported trim to_upper settings (precheck_of r merchant) ≡ true
    pub trusted : Fraud.is_blacklisted settings (precheck_of r merchant) ≡ false
    pub new_reference : find_by_reference s.payments merchant (trim r.reference) ≡ none
    pub pending_now : p.status ≡ pending
    pub stored : after ≡ with_payment s p (new_event event_id p order.id r.payment_method)

  rules_passed :
      (r : Request) (merchant : String) (score : ℕ)
      → Fraud.run_precheck (Fraud.fraud_rules trim to_upper settings) (precheck_of r merchant)
        ≡ Fraud.approved score
      → (Fraud.exceeds settings (precheck_of r merchant) ≡ false)
        × (Fraud.is_supported trim to_upper settings (precheck_of r merchant) ≡ true)
        × (Fraud.is_blacklisted settings (precheck_of r merchant) ≡ false)
  rules_passed r merchant score h =
      ground
        (arith, sym (run_precheck-fraud_rules trim to_upper settings (precheck_of r merchant)) ∙ h)

  -- However the links to the two services behave and whatever the database does, a request either
  -- creates no payment and leaves the store as it was, or creates one PENDING payment, with its
  -- event, for an order of the same merchant and reference that is CREATED, has exactly the amount
  -- and the same currency, and passes all the fraud rules.
  pub checkout_cases :
      (orders : List Order.Order) (order_link fraud_link : Link) (c : Context) (r : Request)
      (merchant : String) (accepted : Bool) (seen s : Store)
      → ((x : PaymentError) × (checkout orders order_link fraud_link c r merchant accepted seen s
            ≡ (thrown x, s)))
        ⊎ ((p : Payment) × (after : Store) × (checkout orders order_link fraud_link c r merchant
                accepted seen s
              ≡ (created p, after))
            × Bought orders r merchant seen s after p)
  unfolding checkout new_payment
  checkout_cases orders order_link fraud_link c r merchant accepted seen s =
      elim (create_payment_cases trim payment_id event_id c r merchant
        (order_reply orders order_link r merchant) (fraud_reply fraud_link r merchant) accepted seen
        s) [
          | inl refused ↦ inl refused
          | inr (p, after, e, why) ↦
              let (o, validated, same_id) =
                order_was_valid order_link _ why.order_id why.order_valid in
              let (score, screened) = fraud_was_approved fraud_link _ why.fraud_passed in
              let (found, own, exact, money, fresh) =
                validate_order_sound to_upper orders merchant (trim r.reference) r.amount r.currency
                  o validated in
              let (limit, currency, trust) = rules_passed r merchant score screened in
              inr (
                p,
                after,
                e,
                record {
                  order = o;
                  found = found;
                  unpaid = fresh;
                  exact = ap (λ x. x.amount) why.made ∙ exact;
                  same_currency = money ∙ sym (ap (λ x. to_upper x.currency) why.made);
                  within_limit = limit;
                  supported = currency;
                  trusted = trust;
                  new_reference = why.fresh;
                  pending_now = ap (λ x. x.status) why.made;
                  stored =
                      why.stored
                      ∙ ap (λ key. with_payment s p (new_event event_id p key r.payment_method))
                          (sym same_id);
                },
              )
        ]

  missing_order :
      (orders : List Order.Order) (link : Link) (merchant ref : String) (n : Number) (unit : String)
      → Order.find_by_merchant_and_reference orders merchant ref ≡ none
      → after_order (serve_order link (Order.validate_order to_upper orders merchant ref n unit))
        ≡ after_order (serve_order link (Order.invalid Order.order_not_found))
  unfolding Order.validate_order serve_order after_order Order.status_code
  missing_order orders working merchant ref n unit h = ground (arith, h)
  missing_order orders slow merchant ref n unit h = refl
  missing_order orders down merchant ref n unit h = refl

  -- A merchant who has no order of a reference gets the same answer whether other merchants have one
  -- or not.
  pub others_orders_hidden :
      (orders orders' : List Order.Order) (order_link fraud_link : Link) (c : Context) (r : Request)
      (merchant : String) (accepted : Bool) (seen s : Store)
      → Order.find_by_merchant_and_reference orders merchant (trim r.reference) ≡ none
      → Order.find_by_merchant_and_reference orders' merchant (trim r.reference) ≡ none
      → checkout orders order_link fraud_link c r merchant accepted seen s
        ≡ checkout orders' order_link fraud_link c r merchant accepted seen s
  unfolding checkout create_payment
  others_orders_hidden orders orders' order_link fraud_link c r merchant accepted seen s h k =
      ap
        (λ x. elim (find_by_reference seen.payments merchant (trim r.reference)) [
          | some _ ↦ (thrown duplicate_reference, s)
          | none ↦
              conclude trim payment_id event_id c r merchant x
                (after_fraud (fraud_reply fraud_link r merchant)) accepted s
        ])
        (missing_order orders order_link merchant (trim r.reference) r.amount r.currency h
          ∙ sym
              (missing_order orders' order_link merchant (trim r.reference) r.amount r.currency k))

  mismatch_reply :
      (orders : List Order.Order) (o : Order.Order) (r : Request) (merchant : String)
      → Order.find_by_merchant_and_reference orders merchant (trim r.reference) ≡ some o
      → r.amount ≡ whole o.amount
      → (to_upper o.currency == to_upper r.currency) ≡ false
      → after_order (order_reply orders working r merchant) ≡ inl order_amount_mismatch
  unfolding Order.validate_order Order.find_by_merchant_and_reference serve_order after_order
      Order.status_code
  mismatch_reply orders o r merchant found exact differs = ground (
    arith,
    found,
    exact,
    differs,
    find_sound (Order.owned_by merchant (trim r.reference)) orders o found,
  )

  -- A request in another currency than the order's, with the exact amount and a working order
  -- service, is told of an amount mismatch, whatever the fraud check says.
  pub currency_mismatch_as_amount :
      (orders : List Order.Order) (o : Order.Order) (fraud_link : Link) (c : Context) (r : Request)
      (merchant : String) (accepted : Bool) (seen s : Store)
      → find_by_reference seen.payments merchant (trim r.reference) ≡ none
      → Order.find_by_merchant_and_reference orders merchant (trim r.reference) ≡ some o
      → r.amount ≡ whole o.amount
      → (to_upper o.currency == to_upper r.currency) ≡ false
      → checkout orders working fraud_link c r merchant accepted seen s
        ≡ (thrown order_amount_mismatch, s)
  unfolding checkout create_payment conclude
  currency_mismatch_as_amount orders o fraud_link c r merchant accepted seen s free found exact
        differs =
      let reply : after_order (order_reply orders working r merchant) ≡ inl order_amount_mismatch =
        mismatch_reply orders o r merchant found exact differs in
      ground (arith, free, reply)
