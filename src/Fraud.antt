-- ===== src/Fraud.antt =====
-- apps/fraud-service/src/fraud: the rules and fraud.service.ts. The values of the configuration are as
-- `configService.get` gives them; `trim` and `toUpperCase` are parameters. The delay for one test
-- merchant has no effect on the result and is left out.
pub mod Laws
pub mod Tests
use surgepay.Messaging.Json.{Number}
use surgepay.Messaging.Serializer.{is_above}
use surgepay.Common.{
  ◌=ℕ◌, ◌+◌, ◌==◌, none, some, true, [], ◌∷◌, not, ◌∷◌, false, String, List, Option, ℕ, Bool,
  if◌then◌else◌,
}

pub record Precheck : Type 0 where
  pub merchant_id : String
  pub amount : Number
  pub currency : String

pub record Verdict : Type 0 where
  pub approved : Bool
  pub risk_score : ℕ
  pub reason : Option String

pub record Config : Type 0 where
  pub max_amount_threshold : Option ℕ
  pub supported_currencies : Option (List String)
  pub blacklisted_merchants : Option (List String)

abbrev pub Rule : Type 0
Rule = Precheck → Verdict

abbrev pub includes : List String → String → Bool
includes [] x = false
includes (y ∷ ys) x = if y == x then true else includes ys x

abbrev pub pass : ℕ → Verdict
pass score = record { approved = true; risk_score = score; reason = none }

abbrev pub reject : ℕ → String → Verdict
reject score text = record { approved = false; risk_score = score; reason = some text }

-- `value || 10000000`, where 0 is no value.
abbrev pub threshold_of : Option ℕ → ℕ
threshold_of none = 10000000
threshold_of (some n) = if n =ℕ 0 then 10000000 else n

abbrev pub currencies_of : Option (List String) → List String
currencies_of none = "INR" ∷ "USD" ∷ "EUR" ∷ "GBP" ∷ []
currencies_of (some l) = l

abbrev pub merchants_of : Option (List String) → List String
merchants_of none = []
merchants_of (some l) = l

abbrev pub exceeds : Config → Precheck → Bool
exceeds c p = is_above p.amount (threshold_of c.max_amount_threshold)

unfoldable pub amount_threshold_rule : Config → Rule
amount_threshold_rule c p = if exceeds c p then reject 96 "AMOUNT_THRESHOLD_EXCEEDED" else pass 0

abbrev pub is_blacklisted : Config → Precheck → Bool
is_blacklisted c p = includes (merchants_of c.blacklisted_merchants) p.merchant_id

unfoldable pub blacklisted_merchant_rule : Config → Rule
blacklisted_merchant_rule c p =
    if is_blacklisted c p then reject 99 "MERCHANT_BLACKLISTED" else pass 0

unfoldable pub velocity_threshold_rule : Rule
velocity_threshold_rule p = pass 2

unfoldable pub known_fraud_pattern_rule : Rule
known_fraud_pattern_rule p = pass 0

pub data Screening : Type 0 where
  approved : ℕ → Screening
  rejected : ℕ → Option String → Screening

-- The loop of `runPrecheck`, from the score so far.
unfoldable pub screen : ℕ → List Rule → Precheck → Screening
screen score [] p = approved score
screen score (r ∷ rs) p =
    let rest = screen (score + (r p).risk_score) rs p in
    if (r p).approved then rest else rejected (r p).risk_score (r p).reason

unfoldable pub run_precheck : List Rule → Precheck → Screening
run_precheck rs p = screen 10 rs p

module _ (trim to_upper : String → String) where
  abbrev pub is_supported : Config → Precheck → Bool
  is_supported c p = includes (currencies_of c.supported_currencies) (to_upper (trim p.currency))

  unfoldable pub unsupported_currency_rule : Config → Rule
  unsupported_currency_rule c p =
      if not (is_supported c p) then reject 90 "UNSUPPORTED_CURRENCY" else pass 0

  -- `FRAUD_RULES`
  unfoldable pub fraud_rules : Config → List Rule
  fraud_rules c =
      amount_threshold_rule c
      ∷ unsupported_currency_rule c
      ∷ blacklisted_merchant_rule c
      ∷ velocity_threshold_rule
      ∷ known_fraud_pattern_rule
      ∷ []
