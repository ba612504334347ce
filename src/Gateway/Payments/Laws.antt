-- ===== src/Gateway/Payments/Laws.antt =====
-- What a payment request through the gateway adds to the payment service's store.
use surgepay.Common.{
  either_text, sym, subst, ◌==◌, arith, either_branch, true, refl, some, false, inr, inl, [],
  Option-cases, ◌∷◌, Option, none, ◌++◌, Bool, ◌⊎◌, ◌≡◌, String,
}
use surgepay.Payment.{
  Outcome, find_by_reference, finish, PaymentError, pending, PaymentEvent, Payment, new_event,
  Context, new_payment, persist, conclude, create_payment, Store,
}
use surgepay.Gateway.Payments.{
  Forwarded, Answered, GatewayBody, forward_payment_request, create_through_gateway, create,
  validate_body, create_for, Surroundings,
}
use surgepay.Payment.{Request}
use surgepay.Payment.Laws.{goes_on}

-- Nothing, or one payment of the merchant with its event, whose payment method is `card`.
abbrev pub Adds : String → Store → Store → Type 0
Adds merchant s t =
    (t ≡ s)
    ⊎ ((p : Payment) × (e : PaymentEvent) × (t
          ≡ record { payments = s.payments ++ p ∷ []; outbox = s.outbox ++ e ∷ [] })
        × (p.merchant_id ≡ merchant)
        × (p.status ≡ pending)
        × (e.aggregate_id ≡ p.id)
        × (e.merchant_id ≡ merchant)
        × (e.payment_method ≡ "card"))

module _ (trim : String → String) (is_valid : Forwarded → Bool) where
  persist-Adds :
      (merchant : String) (b : Bool) (p : Payment) (e : PaymentEvent) (s : Store)
      → p.merchant_id ≡ merchant
      → p.status ≡ pending
      → e.aggregate_id ≡ p.id
      → e.merchant_id ≡ merchant
      → e.payment_method ≡ "card"
      → Adds merchant s (finish p s (persist b p e s)).1
  unfolding persist
  persist-Adds merchant false p e s h i j k l = inl refl
  persist-Adds merchant true p e s h i j k l =
      elim (Option-cases (find_by_reference s.payments p.merchant_id p.reference)) [
        | inl free ↦ rw (free, finish) (inr (p, e, refl, h, i, j, k, l))
        | inr (x, taken) ↦ rw (taken, finish) (inl refl)
      ]

  conclude-Adds :
      (c : Context) (payment_id event_id : String) (r : Request) (merchant : String)
      (order : PaymentError ⊎ String) (fraud : Option PaymentError) (b : Bool) (s : Store)
      → r.payment_method ≡ none
      → Adds merchant s (conclude trim payment_id event_id c r merchant order fraud b s).1
  unfolding conclude new_payment new_event
  conclude-Adds c payment_id event_id r merchant (inl x) fraud b s h = inl refl
  conclude-Adds c payment_id event_id r merchant (inr order) (some x) b s h = inl refl
  conclude-Adds c payment_id event_id r merchant (inr order) none b s h =
      persist-Adds merchant b _ _ s refl refl refl refl (rw h refl)

  create_payment-Adds :
      (c : Context) (w : Surroundings) (r : Request) (merchant : String)
      → r.payment_method ≡ none
      → Adds merchant w.store (create_for trim is_valid c w r merchant).1
  unfolding create_payment
  create_payment-Adds c w r merchant h =
      elim (Option-cases (find_by_reference w.seen.payments merchant (trim r.reference))) [
        | inl free ↦
            subst (λ (x : Outcome × Store). Adds merchant w.store x.1)
              (sym (
                goes_on trim w.payment_id w.event_id c r merchant w.order w.fraud
                  w.transaction_accepted w.seen w.store free))
              (conclude-Adds c w.payment_id w.event_id r merchant _ _ w.transaction_accepted w.store
                h)
        | inr (x, taken) ↦ inl (ground (arith, taken))
      ]

  valid_method :
      (body : GatewayBody) (r : Request)
      → validate_body is_valid (forward_payment_request body) ≡ some r
      → r.payment_method ≡ none
  unfolding validate_body forward_payment_request
  valid_method body r h = elim (Option-cases (either_text body.reference body.order_id)) [
    | inl missing ↦ absurd (ground (arith, h, missing))
    | inr (ref, given) ↦ ground (arith, h, given)
  ]

  create-Adds :
      (c : Context) (w : Surroundings) (found : Option Request) (merchant : String)
      → ((r : Request) → found ≡ some r → r.payment_method ≡ none)
      → Adds merchant w.store (create trim is_valid c w found (some merchant)).1
  unfolding create
  create-Adds c w none merchant h = inl refl
  create-Adds c w (some r) merchant h =
      (either_branch (λ (x : Answered × Store). Adds merchant w.store x.1) (merchant == "") _ _
        (inl refl) (create_payment-Adds c w r merchant (h r refl)))

  -- Whatever a merchant sends and however the services answer: a request through the gateway adds nothing
  -- to the payment service's store, or one PENDING payment of the authenticated merchant with its event,
  -- and the event says that the payment method is `card`, whatever method the body asked for.
  pub create_through_gateway-Adds :
      (c : Context) (w : Surroundings) (body : GatewayBody) (merchant : String)
      → c.merchant_id ≡ some merchant
      → Adds merchant w.store (create_through_gateway trim is_valid c w body).1
  unfolding create_through_gateway
  create_through_gateway-Adds c w body merchant k =
      subst
        (λ header.
          Adds merchant w.store
            (create trim is_valid c w (validate_body is_valid (forward_payment_request body))
              header).1)
        (sym k)
        (create-Adds c w (validate_body is_valid (forward_payment_request body)) merchant
          (valid_method body))
