-- ===== src/Examples/Policies.antt =====
-- The theorems on policy/ at concrete inputs.
use algebra.Prelude.{
  ℕ, ◌*◌, ◌≡◌, ◌≢◌, refl, ◌⊎◌, ◌↔◌, false, Option, none, some, List, [], ◌∷◌, arith, bytes, All,
}
use algebra.Prelude.Int.{pos, ◌+ℤ◌, IsInt64, wrap64, add64, mul64, neg64}
use algebra.Policy.Decision.{Decision, allow, deny, require_approval, PolicyDecision, Input, merge}
use algebra.Policy.Decision.Merge.{
  AtMost, Decided, Allows, merge_worst, merge-allow_iff, merge_deny_iff,
}
use algebra.Policy.Rules.{Rules, default_rules, contains}
use algebra.Policy.Usdc.{
  parse_usdc_micros, usdc_above, usdc_at_or_above, trim_space, trim_left, cut, split_sign, pad,
  sscanf_d, skip_space, scan_magnitude, scan_digits,
}
use algebra.Policy.Usdc.Whole.{parse_whole_exact}
use algebra.Policy.Provider.{
  decide, evaluate_merchant, evaluate_category, evaluate_amount, evaluate_payment_source,
  evaluate_shipping, evaluate_international, evaluate_crypto_recipient,
  evaluate_crypto_confirm_threshold, evaluate_crypto_purchase_intent, evaluate_purchase_intent,
  evaluate_payment, evaluate_crypto_amount, is_crypto_rail,
}
use algebra.Policy.Provider.Compliance.{
  Compliant, WithinHardCaps, purchase_allow_iff, payment_allow_iff,
}
use algebra.Policy.Provider.Recheck.{payment_asks_nothing, cleared_passes_recheck}
use algebra.Policy.Provider.Overflow.{crypto_cap_overflow}

-- A purchase of groceries for 999.00 INR.
abbrev groceries : Input
groceries = record {
  user_id = "u1";
  agent_id = "a1";
  merchant = "amazon.in";
  category = "groceries";
  amount_minor_units = pos 99900;
  currency = "INR";
  payment_profile = "payment:personal";
  shipping_profile = "shipping:home";
  international = false;
  spend_today_minor_units = pos 100000;
  crypto_recipient = "";
  amount_usdc = [];
}

groceries_rail : is_crypto_rail groceries ≡ false
groceries_rail = refl

groceries_fit : IsInt64 (groceries.spend_today_minor_units +ℤ groceries.amount_minor_units)
unfolding ◌+ℤ◌
groceries_fit = record { upper = omega arith; lower = omega arith }

purchase_allow_iff_example :
    (d : PolicyDecision) × (evaluate_purchase_intent default_rules 5 groceries ≡ some d)
    × ((d.decision ≡ allow) ↔ Compliant default_rules groceries)
purchase_allow_iff_example =
    purchase_allow_iff default_rules 5 groceries groceries_rail groceries_fit

payment_allow_iff_example :
    (d : PolicyDecision) × (evaluate_payment default_rules 5 groceries ≡ some d)
    × ((d.decision ≡ allow) ↔ WithinHardCaps default_rules groceries)
payment_allow_iff_example = payment_allow_iff default_rules 5 groceries groceries_rail groceries_fit

abbrev answer_of : Option PolicyDecision → Option Decision
answer_of none = none
answer_of (some d) = some d.decision

groceries_allowed : answer_of (evaluate_purchase_intent default_rules 5 groceries) ≡ some allow
unfolding evaluate_purchase_intent evaluate_merchant evaluate_category evaluate_amount
    evaluate_payment_source evaluate_shipping evaluate_international merge contains add64 wrap64
groceries_allowed = refl

abbrev allowed : PolicyDecision
allowed = decide default_rules 5 allow "AMOUNT_OK"

abbrev asked : PolicyDecision
asked = decide default_rules 5 require_approval "INTERNATIONAL"

abbrev denied : PolicyDecision
denied = decide default_rules 5 deny "CATEGORY_BLOCKED"

merge_worst_example :
    All
      (AtMost (merge 5 (some allowed ∷ none ∷ some denied ∷ some asked ∷ [])).decision)
      (some allowed ∷ none ∷ some denied ∷ some asked ∷ [])
    × (((merge 5 (some allowed ∷ none ∷ some denied ∷ some asked ∷ [])).decision ≡ allow)
        ⊎ Decided
            (merge 5 (some allowed ∷ none ∷ some denied ∷ some asked ∷ [])).decision
            (some allowed ∷ none ∷ some denied ∷ some asked ∷ []))
merge_worst_example = merge_worst 5 (some allowed ∷ none ∷ some denied ∷ some asked ∷ [])

asked_twice : (merge 5 (some asked ∷ some allowed ∷ [])).decision ≡ require_approval
unfolding merge
asked_twice = refl

merge-allow_iff_example :
    ((merge 5 (some allowed ∷ some asked ∷ [])).decision ≡ allow)
    ↔ All Allows (some allowed ∷ some asked ∷ [])
merge-allow_iff_example = merge-allow_iff 5 (some allowed ∷ some asked ∷ [])

merge_deny_iff_example :
    ((merge 5 (some denied ∷ some asked ∷ [])).decision ≡ deny)
    ↔ Decided deny (some denied ∷ some asked ∷ [])
merge_deny_iff_example = merge_deny_iff 5 (some denied ∷ some asked ∷ [])

abbrev crypto : Input
crypto = record groceries { merchant = ""; crypto_recipient = "0xabc"; amount_usdc = bytes "3" }

-- Five USDC may leave in one transfer, and two already want a confirmation.
abbrev crypto_rules : Rules
crypto_rules = record default_rules {
  max_crypto_tx_usdc = bytes "5";
  crypto_confirm_threshold_usdc = bytes "2";
}

abbrev crypto_answer : PolicyDecision
crypto_answer = record {
  decision = require_approval;
  reason_codes =
      "CRYPTO_RECIPIENT_OK" ∷ "CRYPTO_AMOUNT_OK" ∷ "CRYPTO_AMOUNT_AT_OR_ABOVE_CONFIRM_THRESHOLD"
      ∷ [];
  policy_version = "local-rules-v1";
  approval_requirement = some (record { reason = "CRYPTO_AMOUNT_AT_OR_ABOVE_CONFIRM_THRESHOLD" });
  evaluated_at = 5;
}

crypto_asked : evaluate_purchase_intent crypto_rules 5 crypto ≡ some crypto_answer
unfolding evaluate_purchase_intent evaluate_crypto_purchase_intent evaluate_crypto_recipient
    evaluate_crypto_amount evaluate_crypto_confirm_threshold usdc_above usdc_at_or_above
    parse_usdc_micros trim_space trim_left cut split_sign pad sscanf_d skip_space scan_magnitude
    scan_digits merge contains add64 mul64 wrap64 neg64
crypto_asked = refl

cleared_passes_recheck_example :
    (e : PolicyDecision) × (evaluate_payment crypto_rules 5 crypto ≡ some e) × (e.decision ≡ allow)
cleared_passes_recheck_example =
    cleared_passes_recheck crypto_rules 5 crypto crypto_answer crypto_asked (λ q. cc)

abbrev crypto_cleared : PolicyDecision
crypto_cleared = record {
  decision = allow;
  reason_codes = "CRYPTO_RECIPIENT_OK" ∷ "CRYPTO_AMOUNT_OK" ∷ [];
  policy_version = "local-rules-v1";
  approval_requirement = none;
  evaluated_at = 5;
}

crypto_passes : evaluate_payment crypto_rules 5 crypto ≡ some crypto_cleared
unfolding evaluate_payment evaluate_crypto_recipient evaluate_crypto_amount usdc_above
    parse_usdc_micros trim_space trim_left cut split_sign pad sscanf_d skip_space scan_magnitude
    scan_digits merge contains add64 mul64 wrap64 neg64
crypto_passes = refl

payment_asks_nothing_example : crypto_cleared.decision ≢ require_approval
payment_asks_nothing_example =
    payment_asks_nothing crypto_rules 5 crypto crypto_cleared crypto_passes

parse_whole_exact_example :
    parse_usdc_micros (bytes "12") ≡ some (pos (scan_digits 0 (bytes "12") * 1000000))
unfolding scan_digits
parse_whole_exact_example = parse_whole_exact 49 (50 ∷ []) (refl, (refl, tt)) (omega arith)

-- Ten trillion USDC, against a limit of 5.
abbrev huge : List ℕ
huge = bytes "0000000000000"

five : parse_usdc_micros (bytes "5") ≡ some (pos 5000000)
unfolding scan_digits
five = parse_whole_exact 53 [] (refl, tt) (omega arith)

crypto_cap_overflow_example :
    evaluate_crypto_amount crypto_rules 5 (bytes "10000000000000")
    ≡ some (decide crypto_rules 5 allow "CRYPTO_AMOUNT_OK")
unfolding scan_digits
crypto_cap_overflow_example =
    crypto_cap_overflow crypto_rules 5 49 huge 5000000
      (
        refl,
        (
          refl,
          (
            refl,
            (
              refl,
              (refl, (refl, (refl, (refl, (refl, (refl, (refl, (refl, (refl, (refl, tt)))))))))),
            ),
          ),
        ),
      )
      (omega arith) (omega arith) five

-- No cap on one transaction, and 5,000.00 a day.
abbrev day_rules : Rules
day_rules = record default_rules { max_per_transaction_minor_units = pos 0 }
