-- ===== src/Policy/Provider.antt =====
-- policy/local_provider.go. A provider is its rules; `now` is the reading of the clock that stamps
-- the decisions, and `none` is an error.
pub mod Compliance
pub mod Recheck
pub mod Overflow
use algebra.Prelude.{
  ℕ, String, Bool, true, false, not, ◌&&◌, Option, none, some, List, [], ◌∷◌, str_eq, is_empty,
  if◌then◌else◌,
}
use algebra.Prelude.Int.{ℤ, pos, ltb_ℤ, leb_ℤ, add64}
use algebra.Policy.Decision.{
  Decision, allow, deny, require_approval, ApprovalRequirement, PolicyDecision, Input, merge,
}
use algebra.Policy.Rules.{Rules, contains}
use algebra.Policy.Usdc.{usdc_above, usdc_at_or_above, ◌>>=◌}

abbrev requirement : Decision → String → Option ApprovalRequirement
requirement require_approval reason = some (record { reason = reason })
requirement _ reason = none

abbrev pub is_crypto_rail : Input → Bool
is_crypto_rail input = not (str_eq input.crypto_recipient "") && not (is_empty input.amount_usdc)

module _ (p : Rules) (now : ℕ) where
  abbrev pub decide : Decision → String → PolicyDecision
  decide d reason = record {
    decision = d;
    reason_codes = reason ∷ [];
    policy_version = p.version;
    approval_requirement = requirement d reason;
    evaluated_at = now;
  }

  unfoldable pub evaluate_merchant : String → PolicyDecision
  evaluate_merchant merchant =
      if contains p.blocked_merchants merchant
      then decide deny "MERCHANT_BLOCKED"
      else if not (is_empty p.allowed_merchants) && not (contains p.allowed_merchants merchant)
      then decide deny "MERCHANT_NOT_ALLOWLISTED"
      else decide allow "MERCHANT_OK"

  unfoldable pub evaluate_category : String → PolicyDecision
  evaluate_category category =
      if not (str_eq category "") && contains p.blocked_categories category
      then decide deny "CATEGORY_BLOCKED"
      else decide allow "CATEGORY_OK"

  -- The tests that the two amount checks share, in their order.
  abbrev wrong_currency : String → Bool
  wrong_currency currency = not (str_eq p.currency "") && not (str_eq currency p.currency)

  abbrev above_transaction_cap : ℤ → Bool
  above_transaction_cap amount =
      ltb_ℤ (pos 0) p.max_per_transaction_minor_units
      && ltb_ℤ p.max_per_transaction_minor_units amount

  abbrev above_day_cap : ℤ → ℤ → Bool
  above_day_cap amount spend_today =
      ltb_ℤ (pos 0) p.max_per_day_minor_units
      && ltb_ℤ p.max_per_day_minor_units (add64 spend_today amount)

  unfoldable pub evaluate_amount : ℤ → String → ℤ → PolicyDecision
  evaluate_amount amount currency spend_today =
      if wrong_currency currency
      then decide deny "CURRENCY_NOT_SUPPORTED"
      else if above_transaction_cap amount
      then decide deny "AMOUNT_EXCEEDS_PER_TRANSACTION_LIMIT"
      else if above_day_cap amount spend_today
      then decide deny "AMOUNT_EXCEEDS_DAILY_LIMIT"
      else if ltb_ℤ (pos 0) p.approval_threshold_minor_units
          && leb_ℤ p.approval_threshold_minor_units amount
      then decide require_approval "AMOUNT_AT_OR_ABOVE_APPROVAL_THRESHOLD"
      else decide allow "AMOUNT_OK"

  unfoldable pub evaluate_hard_amount_caps : ℤ → String → ℤ → PolicyDecision
  evaluate_hard_amount_caps amount currency spend_today =
      if wrong_currency currency
      then decide deny "CURRENCY_NOT_SUPPORTED"
      else if above_transaction_cap amount
      then decide deny "AMOUNT_EXCEEDS_PER_TRANSACTION_LIMIT"
      else if above_day_cap amount spend_today
      then decide deny "AMOUNT_EXCEEDS_DAILY_LIMIT"
      else decide allow "AMOUNT_WITHIN_HARD_LIMITS"

  unfoldable pub evaluate_payment_source : String → PolicyDecision
  evaluate_payment_source profile =
      if not (is_empty p.allowed_payment_profiles)
        && not (contains p.allowed_payment_profiles profile)
      then decide deny "PAYMENT_PROFILE_NOT_ALLOWED"
      else decide allow "PAYMENT_PROFILE_OK"

  unfoldable pub evaluate_shipping : String → PolicyDecision
  evaluate_shipping profile =
      if not (is_empty p.allowed_shipping_profiles)
        && not (contains p.allowed_shipping_profiles profile)
      then decide deny "SHIPPING_PROFILE_NOT_ALLOWED"
      else decide allow "SHIPPING_PROFILE_OK"

  unfoldable pub evaluate_international : Bool → PolicyDecision
  evaluate_international international =
      if international && p.international_requires_approval
      then decide require_approval "INTERNATIONAL_MERCHANT_REQUIRES_APPROVAL"
      else decide allow "INTERNATIONAL_OK"

  unfoldable pub evaluate_crypto_recipient : String → PolicyDecision
  evaluate_crypto_recipient recipient =
      if contains p.blocked_crypto_recipients recipient
      then decide deny "CRYPTO_RECIPIENT_BLOCKED"
      else if not (is_empty p.allowed_crypto_recipients)
          && not (contains p.allowed_crypto_recipients recipient)
      then decide deny "CRYPTO_RECIPIENT_NOT_ALLOWLISTED"
      else decide allow "CRYPTO_RECIPIENT_OK"

  unfoldable pub evaluate_crypto_amount : List ℕ → Option PolicyDecision
  evaluate_crypto_amount amount =
      if is_empty p.max_crypto_tx_usdc then some (decide allow "CRYPTO_AMOUNT_OK") else do
        exceeds ← usdc_above amount p.max_crypto_tx_usdc
        some (
            if exceeds
            then decide deny "CRYPTO_AMOUNT_EXCEEDS_PER_TRANSACTION_LIMIT"
            else decide allow "CRYPTO_AMOUNT_OK")

  unfoldable pub evaluate_crypto_confirm_threshold : List ℕ → Option PolicyDecision
  evaluate_crypto_confirm_threshold amount =
      if is_empty p.crypto_confirm_threshold_usdc
      then some (decide allow "CRYPTO_CONFIRM_THRESHOLD_OK")
      else do
        exceeds ← usdc_at_or_above amount p.crypto_confirm_threshold_usdc
        some (
            if exceeds
            then decide require_approval "CRYPTO_AMOUNT_AT_OR_ABOVE_CONFIRM_THRESHOLD"
            else decide allow "CRYPTO_CONFIRM_THRESHOLD_OK")

  unfoldable pub evaluate_crypto_purchase_intent : Input → Option PolicyDecision
  evaluate_crypto_purchase_intent input = do
    amount_dec ← evaluate_crypto_amount input.amount_usdc
    confirm_dec ← evaluate_crypto_confirm_threshold input.amount_usdc
    some (
        merge now (
          some (evaluate_crypto_recipient input.crypto_recipient)
          ∷ some amount_dec
          ∷ some confirm_dec
          ∷ []))

  -- The six checks of a purchase that is not on a crypto rail, in the order of the merge.
  abbrev pub purchase_checks : Input → List (Option PolicyDecision)
  purchase_checks input =
      some (evaluate_merchant input.merchant)
      ∷ some (evaluate_category input.category)
      ∷ some (evaluate_amount input.amount_minor_units input.currency input.spend_today_minor_units)
      ∷ some (evaluate_payment_source input.payment_profile)
      ∷ some (evaluate_shipping input.shipping_profile)
      ∷ some (evaluate_international input.international)
      ∷ []

  unfoldable pub evaluate_purchase_intent : Input → Option PolicyDecision
  evaluate_purchase_intent input =
      if is_crypto_rail input
      then evaluate_crypto_purchase_intent input
      else some (merge now (purchase_checks input))

  abbrev pub payment_checks : Input → List (Option PolicyDecision)
  payment_checks input =
      some (
        evaluate_hard_amount_caps input.amount_minor_units input.currency
          input.spend_today_minor_units)
      ∷ some (evaluate_payment_source input.payment_profile)
      ∷ []

  unfoldable pub evaluate_payment : Input → Option PolicyDecision
  evaluate_payment input =
      if is_crypto_rail input
      then (do
        amount_dec ← evaluate_crypto_amount input.amount_usdc
        some (
            merge now
              (some (evaluate_crypto_recipient input.crypto_recipient) ∷ some amount_dec ∷ [])))
      else some (merge now (payment_checks input))
