-- ===== src/Gateway/Auth/Laws.antt =====
-- Who passes the gateway's authentication, with the merchant service behind it.
use surgepay.Messaging.Json.{property}
use surgepay.Gateway.Auth.{
  is_public, is_lost, arrives, faults, by_header, Delivery, use_auth, call_merchant, passes_as,
  respond, attach, as_merchant, to_json, MerchantContext, read_context, authenticate,
}
use surgepay.Merchant.{
  validate_merchant_api_key, inactive_merchant, invalid_key, missing_key, valid, KeyCheck, ApiKey,
  ValidateMerchantResponse,
}
use surgepay.Common.{
  inr, inl, none, Bool-cases, arith, some, Option, subst, sym, refl, ◌≡◌, List, String,
}
use surgepay.Merchant.Laws.{validate_merchant_api_key_iff, UsableKey}

abbrev pub context_for : ValidateMerchantResponse → MerchantContext
context_for r = record {
  merchant_id = r.merchant_id;
  merchant_name = r.merchant_name;
  permissions = r.permissions;
}

read-to_json :
    (r : ValidateMerchantResponse) → read_context (to_json r) ≡ as_merchant (context_for r)
unfolding property
read-to_json r = refl

answered_merchant :
    (context : MerchantContext) (checked : KeyCheck)
    → attach (authenticate (respond checked)) ≡ passes_as context
    → (r : ValidateMerchantResponse) × (checked ≡ valid r) × (context ≡ context_for r)
unfolding authenticate
answered_merchant context (valid r) h =
    (r, refl, sym (same r (subst (λ x. attach x ≡ passes_as context) (read-to_json r) h)))
  where
    same :
        (r : ValidateMerchantResponse)
        → passes_as (context_for r) ≡ passes_as context
        → context_for r ≡ context
    same r e = cc
answered_merchant context missing_key h = cc
answered_merchant context invalid_key h = cc
answered_merchant context inactive_merchant h = cc

called_merchant :
    (hash_api_key : String → String) (keys : List ApiKey) (delivery : Delivery) (key : String)
    (context : MerchantContext)
    → attach (authenticate (call_merchant hash_api_key keys delivery key)) ≡ passes_as context
    → (r : ValidateMerchantResponse) × (validate_merchant_api_key hash_api_key key keys ≡ valid r)
      × (context ≡ context_for r)
unfolding authenticate call_merchant
called_merchant hash_api_key keys arrives key context h = answered_merchant context _ h
called_merchant hash_api_key keys (faults status) key context h = cc
called_merchant hash_api_key keys is_lost key context h = cc

keyed_merchant :
    (hash_api_key : String → String) (keys : List ApiKey) (delivery : Delivery)
    (header : Option String) (context : MerchantContext)
    → by_header (call_merchant hash_api_key keys delivery) header ≡ passes_as context
    → (key : String) × (header ≡ some key)
      × (attach (authenticate (call_merchant hash_api_key keys delivery key)) ≡ passes_as context)
keyed_merchant hash_api_key keys delivery none context h = cc
keyed_merchant hash_api_key keys delivery (some key) context h = (key, refl, ground (arith, h))

-- However the call of the merchant service goes: the gateway passes a request on as a merchant's only if
-- the request carries a key that the merchant service's table has as active, not revoked and of an
-- active merchant, and then it is that merchant's.
pub use_auth_sound :
    (hash_api_key : String → String) (keys : List ApiKey) (delivery : Delivery) (url : String)
    (header : Option String) (context : MerchantContext)
    → use_auth (call_merchant hash_api_key keys delivery) url header ≡ passes_as context
    → (key : String) × (r : ValidateMerchantResponse) × (header ≡ some key)
      × UsableKey hash_api_key key keys r
      × (context ≡ context_for r)
unfolding use_auth
use_auth_sound hash_api_key keys delivery url header context h = elim (Bool-cases (is_public url)) [
  | inl open_path ↦ absurd (ground (arith, h, open_path))
  | inr guarded ↦
      let (key, given, passed) =
        keyed_merchant hash_api_key keys delivery header context (ground (arith, h, guarded)) in
      let (r, accepted, same) = called_merchant hash_api_key keys delivery key context passed in
      (key, r, given, (validate_merchant_api_key_iff hash_api_key key keys r).0 accepted, same)
]
