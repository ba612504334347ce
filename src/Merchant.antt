-- ===== src/Merchant.antt =====
-- apps/merchant-service/src: api-keys/api-keys.service.ts and internal/internal-merchant.service.ts,
-- over the tables of API keys and merchants, joined. The hash of a key is a parameter; the update of
-- `lastUsedAt` is a step of its own, since the code does not wait for it.
use surgepay.Common.{
  none, true, update_where, false, find, ◌||◌, ◌==◌, not, List, Bool, some, Option, ℕ, String,
  if◌then◌else◌,
}
use surgepay.Messaging.Json.{nil, bool, end, arr, Json, Fields, Items, property}
pub mod Laws

pub record Merchant : Type 0 where
  pub merchant_id : String
  pub name : String
  pub status : String
  pub metadata : Option Fields

pub record ApiKey : Type 0 where
  pub id : String
  pub api_key_hash : String
  pub active : Bool
  pub revoked_at : Option ℕ
  pub last_used_at : Option ℕ
  pub merchant : Merchant

abbrev pub has_hash : String → ApiKey → Bool
has_hash hash k = k.api_key_hash == hash

abbrev pub has_key_id : String → ApiKey → Bool
has_key_id id k = k.id == id

-- `findUnique` by the hash.
unfoldable pub find_active_key_with_merchant :
    (String → String) → String → List ApiKey → Option ApiKey
find_active_key_with_merchant hash_api_key raw_key keys =
    find (has_hash (hash_api_key raw_key)) keys

-- `updateLastUsedAtAsync`, where the update takes effect.
unfoldable pub update_last_used_at : ℕ → String → List ApiKey → List ApiKey
update_last_used_at now id =
    update_where (has_key_id id) (λ k. record k { last_used_at = some now })

pub record ValidateMerchantResponse : Type 0 where
  pub merchant_id : String
  pub merchant_name : String
  pub status : String
  pub permissions : Items
  pub webhook_enabled : Bool

-- `UnauthorizedException` with its message, or `ForbiddenException`.
pub data KeyCheck : Type 0 where
  valid : ValidateMerchantResponse → KeyCheck
  missing_key invalid_key : KeyCheck
  inactive_merchant : KeyCheck

-- `merchant.metadata || {}`
abbrev pub metadata_of : Option Fields → Fields
metadata_of none = end
metadata_of (some fields) = fields

abbrev pub permissions_in : Option Json → Items
permissions_in (some (arr items)) = items
permissions_in _ = nil

abbrev pub webhook_in : Option Json → Bool
webhook_in (some (bool b)) = b
webhook_in _ = true

abbrev pub describe : Merchant → ValidateMerchantResponse
describe m = record {
  merchant_id = m.merchant_id;
  merchant_name = m.name;
  status = m.status;
  permissions = permissions_in (property "permissions" (metadata_of m.metadata));
  webhook_enabled = webhook_in (property "webhookEnabled" (metadata_of m.metadata));
}

abbrev pub is_revoked : Option ℕ → Bool
is_revoked none = false
is_revoked (some at) = true

abbrev pub judge_merchant : Merchant → KeyCheck
judge_merchant m = if not (m.status == "ACTIVE") then inactive_merchant else valid (describe m)

abbrev pub judge_key : Option ApiKey → KeyCheck
judge_key none = invalid_key
judge_key (some k) =
    if not k.active || is_revoked k.revoked_at then invalid_key else judge_merchant k.merchant

unfoldable pub validate_merchant_api_key : (String → String) → String → List ApiKey → KeyCheck
validate_merchant_api_key hash_api_key api_key keys =
    if api_key == ""
    then missing_key
    else judge_key (find_active_key_with_merchant hash_api_key api_key keys)
