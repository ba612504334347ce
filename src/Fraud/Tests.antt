-- ===== src/Fraud/Tests.antt =====
-- The screening of two requests.
use surgepay.Fraud.{
  is_blacklisted, approved, known_fraud_pattern_rule, is_supported, velocity_threshold_rule,
  blacklisted_merchant_rule, rejected, unsupported_currency_rule, exceeds, amount_threshold_rule,
  screen, Precheck, reject, fraud_rules, run_precheck, Rule, Config,
}
use surgepay.Common.{refl, not, if◌then◌else◌, [], ◌≡◌, ℕ, ◌∷◌, none, String, some}
use surgepay.Messaging.Json.{whole}
use surgepay.Fraud.Laws.{run_precheck-fraud_rules}

abbrev same : String → String
same s = s

abbrev settings : Config
settings = record {
  max_amount_threshold = some 1000;
  supported_currencies = none;
  blacklisted_merchants = some ("m-9" ∷ []);
}

abbrev request : String → ℕ → Precheck
request merchant n = record { merchant_id = merchant; amount = whole n; currency = "INR" }

run_precheck_test :
    (run_precheck (fraud_rules same same settings) (request "m-1" 1000) ≡ approved 12)
    × (run_precheck (fraud_rules same same settings) (request "m-9" 1001)
        ≡ rejected 96 (some "AMOUNT_THRESHOLD_EXCEEDED"))
unfolding run_precheck fraud_rules screen amount_threshold_rule unsupported_currency_rule
    blacklisted_merchant_rule velocity_threshold_rule known_fraud_pattern_rule
run_precheck_test = (refl, refl)

abbrev strict : Rule
strict p = reject 50 "STRICT"

run_precheck-fraud_rules_example :
    run_precheck (fraud_rules same same settings) (request "m-9" 7) ≡ (
      if exceeds settings (request "m-9" 7)
      then rejected 96 (some "AMOUNT_THRESHOLD_EXCEEDED")
      else if not (is_supported same same settings (request "m-9" 7))
      then rejected 90 (some "UNSUPPORTED_CURRENCY")
      else if is_blacklisted settings (request "m-9" 7)
      then rejected 99 (some "MERCHANT_BLACKLISTED")
      else approved 12)
run_precheck-fraud_rules_example = run_precheck-fraud_rules same same settings (request "m-9" 7)
