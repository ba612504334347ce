-- ===== src/Merchant/Laws.antt =====
-- Which API keys the merchant service accepts.
use surgepay.Merchant.{
  is_revoked, describe, has_hash, valid, judge_key, find_active_key_with_merchant,
  ValidateMerchantResponse, ApiKey, validate_merchant_api_key,
}
use surgepay.Common.{
  sym, ap, ◌↔◌, refl, eq_iff, inr, arith, false, inl, ◌==◌, Bool-cases, ℕ, some, find, none, List,
  true, String, ◌≡◌, Option,
}

-- The key in the table that a raw key stands for is usable.
pub record IsUsable (k : ApiKey) : Type 0 where
  pub active : k.active ≡ true
  pub revoked_at : k.revoked_at ≡ none
  pub status : k.merchant.status ≡ "ACTIVE"

judge_key_sound :
    (found : Option ApiKey) (response : ValidateMerchantResponse)
    → judge_key found ≡ valid response
    → (k : ApiKey) × (found ≡ some k) × IsUsable k × (response ≡ describe k.merchant)
judge_key_sound none response h = cc
judge_key_sound (some k) response h = (
  k,
  refl,
  record {
    active = ground (arith, h);
    revoked_at = not_revoked k.revoked_at (ground (arith, h));
    status = (eq_iff k.merchant.status "ACTIVE").0 (ground (arith, h));
  },
  ground (arith, h),
)
  where
    not_revoked : (at : Option ℕ) → is_revoked at ≡ false → at ≡ none
    not_revoked none e = refl
    not_revoked (some t) e = cc

accepted-judge :
    (hash_api_key : String → String) (api_key : String) (keys : List ApiKey)
    (response : ValidateMerchantResponse)
    → validate_merchant_api_key hash_api_key api_key keys ≡ valid response
    → ((api_key == "") ≡ false)
      × (judge_key (find (has_hash (hash_api_key api_key)) keys) ≡ valid response)
unfolding validate_merchant_api_key find_active_key_with_merchant
accepted-judge hash_api_key api_key keys response h = elim (Bool-cases (api_key == "")) [
  | inl empty ↦ absurd (ground (arith, h, empty))
  | inr given ↦ (given, ground (arith, h, given))
]

-- The key that a raw key stands for: the table's key of its hash, active, not revoked, of an active
-- merchant.
abbrev pub UsableKey : (String → String) → String → List ApiKey → ValidateMerchantResponse → Type 0
UsableKey hash_api_key api_key keys response =
    ((api_key == "") ≡ false)
    × ((k : ApiKey) × (find (has_hash (hash_api_key api_key)) keys ≡ some k)
        × IsUsable k
        × (response ≡ describe k.merchant))

usable-accepted :
    (hash_api_key : String → String) (api_key : String) (keys : List ApiKey)
    (response : ValidateMerchantResponse)
    → UsableKey hash_api_key api_key keys response
    → validate_merchant_api_key hash_api_key api_key keys ≡ valid response
unfolding validate_merchant_api_key find_active_key_with_merchant
usable-accepted hash_api_key api_key keys response (given, (k, found, usable, same)) =
    rw
      (
        given,
        found,
        usable.active,
        usable.revoked_at,
        (eq_iff k.merchant.status "ACTIVE").1 usable.status,
      )
      (ap valid (sym same))

-- A raw key is accepted exactly where it is not empty and the table has a key of its hash that is
-- active, not revoked, and of a merchant whose status is ACTIVE; the answer describes that merchant.
pub validate_merchant_api_key_iff :
    (hash_api_key : String → String) (api_key : String) (keys : List ApiKey)
    (response : ValidateMerchantResponse)
    → (validate_merchant_api_key hash_api_key api_key keys ≡ valid response)
      ↔ UsableKey hash_api_key api_key keys response
validate_merchant_api_key_iff hash_api_key api_key keys response = (
  λ h.
      let (given, judged) = accepted-judge hash_api_key api_key keys response h in
      (given, judge_key_sound _ response judged),
  usable-accepted hash_api_key api_key keys response,
)
