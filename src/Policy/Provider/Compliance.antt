-- ===== src/Policy/Provider/Compliance.antt =====
-- When the checks of local_provider.go allow: a description by the rules alone.
use algebra.Prelude.{
  ℕ, String, ◌≡◌, ◌⊎◌, ◌↔◌, Bool, true, false, some, List, [], ◌∷◌, arith, All, eq_iff,
}
use algebra.Prelude.Int.{ℤ, pos, ◌+ℤ◌, ◌≤ℤ◌, ◌<ℤ◌, IsInt64, add64, add64_fits}
use algebra.Policy.Decision.{allow, PolicyDecision, Input, merge}
use algebra.Policy.Decision.Merge.{Allows, merge-allow_iff}
use algebra.Policy.Rules.{Rules, contains}
use algebra.Policy.Provider.{
  evaluate_merchant, evaluate_category, evaluate_amount, evaluate_hard_amount_caps,
  evaluate_payment_source, evaluate_shipping, evaluate_international, purchase_checks,
  payment_checks, evaluate_purchase_intent, evaluate_payment, is_crypto_rail,
}

abbrev pub Listed : String → List String → Type 0
Listed v [] = ⊥
Listed v (x ∷ xs) = (x ≡ v) ⊎ Listed v xs

pub contains_iff : (list : List String) (v : String) → (contains list v ≡ true) ↔ Listed v list
unfolding contains
contains_iff [] v = (λ e. cc, λ h. absurd h)
contains_iff (x ∷ xs) v = ground (arith, eq_iff x v, contains_iff xs v)

-- An allow-list that is empty allows everything.
abbrev pub Permitted : String → List String → Type 0
Permitted v list = (list ≡ []) ⊎ Listed v list

-- A limit of 0 or less is no limit.
abbrev pub Under : ℤ → ℤ → Type 0
Under limit a = pos 0 <ℤ limit → a ≤ℤ limit

abbrev pub CurrencyFits : Rules → String → Type 0
CurrencyFits p c = (p.currency ≡ "") ⊎ (c ≡ p.currency)

module _ (p : Rules) (now : ℕ) where
  merchant_iff :
      (m : String)
      → ((evaluate_merchant p now m).decision ≡ allow)
        ↔ ((¬ Listed m p.blocked_merchants) × Permitted m p.allowed_merchants)
  unfolding evaluate_merchant
  merchant_iff m =
      ground (arith, contains_iff p.blocked_merchants m, contains_iff p.allowed_merchants m)

  category_iff :
      (c : String)
      → ((evaluate_category p now c).decision ≡ allow)
        ↔ ((c ≡ "") ⊎ (¬ Listed c p.blocked_categories))
  unfolding evaluate_category
  category_iff c = ground (arith, eq_iff c "", contains_iff p.blocked_categories c)

  pub caps_iff :
      (a : ℤ) (c : String) (spent : ℤ)
      → ((evaluate_hard_amount_caps p now a c spent).decision ≡ allow) ↔ (
          CurrencyFits p c
          × Under p.max_per_transaction_minor_units a
          × Under p.max_per_day_minor_units (add64 spent a))
  unfolding evaluate_hard_amount_caps
  caps_iff a c spent = ground (arith, eq_iff p.currency "", eq_iff c p.currency)

  amount_iff :
      (a : ℤ) (c : String) (spent : ℤ)
      → ((evaluate_amount p now a c spent).decision ≡ allow) ↔ (
          CurrencyFits p c
          × Under p.max_per_transaction_minor_units a
          × Under p.max_per_day_minor_units (add64 spent a)
          × (pos 0 <ℤ p.approval_threshold_minor_units → a <ℤ p.approval_threshold_minor_units))
  unfolding evaluate_amount
  amount_iff a c spent = ground (arith, eq_iff p.currency "", eq_iff c p.currency)

  payment_source_iff :
      (s : String)
      → ((evaluate_payment_source p now s).decision ≡ allow)
        ↔ Permitted s p.allowed_payment_profiles
  unfolding evaluate_payment_source
  payment_source_iff s = ground (arith, contains_iff p.allowed_payment_profiles s)

  shipping_iff :
      (s : String)
      → ((evaluate_shipping p now s).decision ≡ allow) ↔ Permitted s p.allowed_shipping_profiles
  unfolding evaluate_shipping
  shipping_iff s = ground (arith, contains_iff p.allowed_shipping_profiles s)

  international_iff :
      (b : Bool)
      → ((evaluate_international p now b).decision ≡ allow)
        ↔ (b ≡ true → p.international_requires_approval ≡ false)
  unfolding evaluate_international
  international_iff b = ground arith

-- What the rules ask of a purchase that no human has to confirm.
pub record Compliant (p : Rules) (input : Input) : Type 0 where
  pub not_blocked : ¬ Listed input.merchant p.blocked_merchants
  pub merchant_permitted : Permitted input.merchant p.allowed_merchants
  pub category_open : (input.category ≡ "") ⊎ (¬ Listed input.category p.blocked_categories)
  pub currency_fits : CurrencyFits p input.currency
  pub under_transaction_cap : Under p.max_per_transaction_minor_units input.amount_minor_units
  pub under_day_cap :
      Under p.max_per_day_minor_units (input.spend_today_minor_units +ℤ input.amount_minor_units)
  pub below_threshold :
      pos 0 <ℤ p.approval_threshold_minor_units
      → input.amount_minor_units <ℤ p.approval_threshold_minor_units
  pub source_permitted : Permitted input.payment_profile p.allowed_payment_profiles
  pub shipping_permitted : Permitted input.shipping_profile p.allowed_shipping_profiles
  pub domestic : input.international ≡ true → p.international_requires_approval ≡ false

-- The rules that no approval overrides, as they are checked again before a payment.
pub record WithinHardCaps (p : Rules) (input : Input) : Type 0 where
  pub currency_fits : CurrencyFits p input.currency
  pub under_transaction_cap : Under p.max_per_transaction_minor_units input.amount_minor_units
  pub under_day_cap :
      Under p.max_per_day_minor_units (input.spend_today_minor_units +ℤ input.amount_minor_units)
  pub source_permitted : Permitted input.payment_profile p.allowed_payment_profiles

module _ (p : Rules) (now : ℕ) (input : Input) where
  abbrev SumFits : Type 0
  SumFits = IsInt64 (input.spend_today_minor_units +ℤ input.amount_minor_units)

  exact_sum :
      SumFits
      → add64 input.spend_today_minor_units input.amount_minor_units
        ≡ input.spend_today_minor_units +ℤ input.amount_minor_units
  exact_sum h = add64_fits input.spend_today_minor_units input.amount_minor_units h

  checks_Compliant : SumFits → All Allows (purchase_checks p now input) → Compliant p input
  checks_Compliant fits h =
      let money = rw (exact_sum fits) at (
        (amount_iff p now input.amount_minor_units input.currency input.spend_today_minor_units).0
          h.1.1.0) in
      let shop = (merchant_iff p now input.merchant).0 h.0 in
      record {
        not_blocked = shop.0;
        merchant_permitted = shop.1;
        category_open = (category_iff p now input.category).0 h.1.0;
        currency_fits = money.0;
        under_transaction_cap = money.1;
        under_day_cap = money.2;
        below_threshold = money.3;
        source_permitted = (payment_source_iff p now input.payment_profile).0 h.1.1.1.0;
        shipping_permitted = (shipping_iff p now input.shipping_profile).0 h.1.1.1.1.0;
        domestic = (international_iff p now input.international).0 h.1.1.1.1.1.0;
      }

  Compliant-checks : SumFits → Compliant p input → All Allows (purchase_checks p now input)
  Compliant-checks fits c = (
    (merchant_iff p now input.merchant).1 (c.not_blocked, c.merchant_permitted),
    (
      (category_iff p now input.category).1 c.category_open,
      (
        (amount_iff p now input.amount_minor_units input.currency input.spend_today_minor_units).1 (
          c.currency_fits,
          c.under_transaction_cap,
          rw (exact_sum fits) c.under_day_cap,
          c.below_threshold,
        ),
        (
          (payment_source_iff p now input.payment_profile).1 c.source_permitted,
          (
            (shipping_iff p now input.shipping_profile).1 c.shipping_permitted,
            ((international_iff p now input.international).1 c.domestic, tt),
          ),
        ),
      ),
    ),
  )

  -- On a purchase that is not on a crypto rail, whose day's total fits an int64, the policy answers,
  -- and it answers ALLOW exactly when the purchase keeps all the rules and stays below the approval
  -- threshold.
  pub purchase_allow_iff :
      is_crypto_rail input ≡ false
      → IsInt64 (input.spend_today_minor_units +ℤ input.amount_minor_units)
      → (d : PolicyDecision) × (evaluate_purchase_intent p now input ≡ some d)
        × ((d.decision ≡ allow) ↔ Compliant p input)
  unfolding evaluate_purchase_intent
  purchase_allow_iff rail fits =
      let (to, from) = merge-allow_iff now (purchase_checks p now input) in
      (
        merge now (purchase_checks p now input),
        rw rail,
        (λ e. checks_Compliant fits (to e), λ c. from (Compliant-checks fits c)),
      )

  -- The re-check before a payment that is not on a crypto rail, where the day's total fits an int64:
  -- it answers, and whatever the threshold of approval is, it answers ALLOW exactly when the hard caps
  -- hold and the payment source is permitted.
  pub payment_allow_iff :
      is_crypto_rail input ≡ false
      → IsInt64 (input.spend_today_minor_units +ℤ input.amount_minor_units)
      → (d : PolicyDecision) × (evaluate_payment p now input ≡ some d)
        × ((d.decision ≡ allow) ↔ WithinHardCaps p input)
  unfolding evaluate_payment
  payment_allow_iff rail fits =
      let (to, from) = merge-allow_iff now (payment_checks p now input) in
      let caps =
        caps_iff p now input.amount_minor_units input.currency input.spend_today_minor_units in
      let source = payment_source_iff p now input.payment_profile in
      (
        merge now (payment_checks p now input),
        rw rail,
        (
          λ e.
              let money = rw (exact_sum fits) at (caps.0 (to e).0) in
              record {
                currency_fits = money.0;
                under_transaction_cap = money.1;
                under_day_cap = money.2;
                source_permitted = source.0 (to e).1.0;
              },
          λ c. from (
            caps.1 (c.currency_fits, c.under_transaction_cap, rw (exact_sum fits) c.under_day_cap),
            (source.1 c.source_permitted, tt),
          ),
        ),
      )
