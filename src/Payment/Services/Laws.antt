-- ===== src/Payment/Services/Laws.antt =====
-- The replies that `createPayment` works with are what the HTTP calls come to.
use surgepay.Order
use surgepay.Fraud
use surgepay.Common.{ℕ, String, Option, some, false, ◌≡◌, refl, ◌∙◌, ap, ◌⊎◌}
use surgepay.Messaging.Json.{Json, Number, property}
use surgepay.Errors.Filter.{Scene, Response, catch, judge}
use surgepay.Http.{is_idempotent}
use surgepay.Http.Client.{request, Target, translate_failure}
use surgepay.Http.Client.Laws.{request_once}
use surgepay.Payment.Checkout.{Link, working, slow, down, serve_order, serve_fraud}
use surgepay.Errors.Domain
use surgepay.Errors.{HttpError}
use surgepay.Payment.Services.{
  order_response, fraud_response, order_exception, arrival_over, read_order, read_fraud, OrderQuery,
}
use mathlib.Core.Option

module _ (status_name : ℕ → Option String) (status_text : ℕ → String)
    (number_text : Number → String) (display : Json → String) (at : Scene) (t : Target) where
  abbrev arrived : Link → Response → Json ⊎ HttpError
  arrived link r = translate_failure status_name status_text display t (arrival_over link r)

  read-order_response :
      (q : OrderQuery) (link : Link) (v : Order.Validation)
      → read_order (arrived link (order_response number_text display at q v)) ≡ serve_order link v
  unfolding read_order serve_order order_response order_exception translate_failure catch judge
      property Domain.order_not_found Domain.order_already_paid Domain.merchant_ownership
      Order.status_code Domain.order_currency_mismatch Domain.order_amount_mismatch
  read-order_response q slow v = refl
  read-order_response q down v = refl
  read-order_response q working (Order.valid o) = refl
  read-order_response q working (Order.invalid Order.merchant_ownership) = refl
  read-order_response q working (Order.invalid Order.order_not_found) = refl
  read-order_response q working (Order.invalid Order.amount_mismatch) = refl
  read-order_response q working (Order.invalid Order.currency_mismatch) = refl
  read-order_response q working (Order.invalid Order.order_cancelled) = refl
  read-order_response q working (Order.invalid Order.order_refunded) = refl
  read-order_response q working (Order.invalid Order.order_already_paid) = refl

  read-fraud_response :
      (p : Fraud.Precheck) (link : Link) (v : Fraud.Screening)
      → read_fraud (arrived link (fraud_response number_text display at p v)) ≡ serve_fraud link v
  unfolding read_fraud serve_fraud fraud_response translate_failure catch judge property
      Domain.fraud_rejected
  read-fraud_response p slow v = refl
  read-fraud_response p down v = refl
  read-fraud_response p working (Fraud.approved score) = refl
  read-fraud_response p working (Fraud.rejected score reason) = refl

  -- The call as `createPayment` makes it: a POST, which is sent once.
  abbrev pub call {ℓ} : {A : Type ℓ} → (Json ⊎ HttpError → A) → ℕ → Link → Response → Option (A × ℕ)
  call read retries link r =
      Option.map (λ x. (read x.0, x.1))
        (request status_name status_text display retries false t (λ n. arrival_over link r))

  once {ℓ} :
      {A : Type ℓ} (read : Json ⊎ HttpError → A) (retries : ℕ) (link : Link) (r : Response)
      → is_idempotent t.method ≡ false
      → call read retries link r ≡ some (read (arrived link r), 1)
  once read retries link r posted =
      ap (Option.map (λ (x : (Json ⊎ HttpError) × ℕ). (read x.0, x.1)))
        (request_once status_name status_text display retries t (λ n. arrival_over link r) posted)

  -- Whatever the order service decides and however the link behaves, the POST to it is sent once, and
  -- `createPayment` gets the reply that `serve_order` gives; likewise for the fraud service.
  pub call-serve :
      (retries : ℕ) (link : Link) (q : OrderQuery) (v : Order.Validation) (p : Fraud.Precheck)
      (w : Fraud.Screening)
      → is_idempotent t.method ≡ false
      → (call read_order retries link (order_response number_text display at q v)
          ≡ some (serve_order link v, 1))
        × (call read_fraud retries link (fraud_response number_text display at p w)
            ≡ some (serve_fraud link w, 1))
  call-serve retries link q v p w posted = (
    once read_order retries link (order_response number_text display at q v) posted
        ∙ ap (λ r. some (r, 1)) (read-order_response q link v),
    once read_fraud retries link (fraud_response number_text display at p w) posted
        ∙ ap (λ r. some (r, 1)) (read-fraud_response p link w),
  )
