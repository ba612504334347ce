-- ===== src/Fraud/Laws.antt =====
-- What the screening decides, for any rules and for those of the service.
use surgepay.Fraud.{
  is_blacklisted, is_supported, exceeds, Config, known_fraud_pattern_rule, rejected,
  velocity_threshold_rule, blacklisted_merchant_rule, unsupported_currency_rule, approved,
  amount_threshold_rule, Screening, fraud_rules, run_precheck, Precheck, screen, Rule,
}
use surgepay.Common.{
  ◌∙◌, if◌then◌else◌, none, some, arith, [], ap, ◌+◌, not, ◌≡◌, find, ◌∷◌, Option, Bool, String,
  List, ℕ,
}

abbrev pub refuses : Precheck → Rule → Bool
refuses p r = not (r p).approved

abbrev pub total_risk : List Rule → Precheck → ℕ
total_risk [] p = 0
total_risk (r ∷ rs) p = (r p).risk_score + total_risk rs p

abbrev pub decided : ℕ → Precheck → Option Rule → Screening
decided score p none = approved score
decided score p (some r) = rejected (r p).risk_score (r p).reason

screen_lem :
    (score : ℕ) (rs : List Rule) (p : Precheck)
    → screen score rs p ≡ decided (score + total_risk rs p) p (find (refuses p) rs)
unfolding screen find
screen_lem score [] p = ap approved (omega arith)
screen_lem score (r ∷ rs) p =
    let rest : screen (score + (r p).risk_score) rs p
        ≡ decided (score + ((r p).risk_score + total_risk rs p)) p (find (refuses p) rs) =
      screen_lem (score + (r p).risk_score) rs p
      ∙ ap (λ n. decided n p (find (refuses p) rs)) (omega arith) in
    ground (arith, rest)

-- Whatever the rules, the first one that refuses rejects with its own score and reason, and where none
-- refuses the risk is 10 and the sum of all their scores.
pub run_precheck_lem :
    (rs : List Rule) (p : Precheck)
    → run_precheck rs p ≡ decided (10 + total_risk rs p) p (find (refuses p) rs)
unfolding run_precheck
run_precheck_lem rs p = screen_lem 10 rs p

module _ (trim to_upper : String → String) where
  -- With the rules of the service a precheck passes, always with risk 12, exactly where the amount is
  -- within the limit, the currency is supported and the merchant is not blacklisted; the first of
  -- these that fails gives the score and the reason of the rejection.
  pub run_precheck-fraud_rules :
      (c : Config) (p : Precheck)
      → run_precheck (fraud_rules trim to_upper c) p ≡ (
          if exceeds c p
          then rejected 96 (some "AMOUNT_THRESHOLD_EXCEEDED")
          else if not (is_supported trim to_upper c p)
          then rejected 90 (some "UNSUPPORTED_CURRENCY")
          else if is_blacklisted c p
          then rejected 99 (some "MERCHANT_BLACKLISTED")
          else approved 12)
  unfolding run_precheck fraud_rules screen amount_threshold_rule unsupported_currency_rule
      blacklisted_merchant_rule velocity_threshold_rule known_fraud_pattern_rule
  run_precheck-fraud_rules c p = ground arith
