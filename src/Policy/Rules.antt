-- ===== src/Policy/Rules.antt =====
-- policy/rules.go
use algebra.Prelude.{ℕ, String, Bool, true, false, ◌||◌, List, [], ◌∷◌, str_eq}
use algebra.Prelude.Int.{ℤ, pos}

pub record Rules : Type 0 where
  pub version : String
  pub max_per_transaction_minor_units : ℤ
  pub max_per_day_minor_units : ℤ
  pub currency : String
  pub approval_threshold_minor_units : ℤ
  pub allowed_merchants : List String
  pub blocked_merchants : List String
  pub blocked_categories : List String
  pub allowed_payment_profiles : List String
  pub allowed_shipping_profiles : List String
  pub international_requires_approval : Bool
  pub allowed_crypto_recipients : List String
  pub blocked_crypto_recipients : List String
  pub max_crypto_tx_usdc : List ℕ
  pub crypto_confirm_threshold_usdc : List ℕ

abbrev pub default_rules : Rules
default_rules = record {
  version = "local-rules-v1";
  max_per_transaction_minor_units = pos 200000;
  max_per_day_minor_units = pos 500000;
  currency = "INR";
  approval_threshold_minor_units = pos 100000;
  allowed_merchants = [];
  blocked_merchants = [];
  blocked_categories = "gift_cards" ∷ [];
  allowed_payment_profiles = "payment:personal" ∷ [];
  allowed_shipping_profiles = "shipping:home" ∷ [];
  international_requires_approval = true;
  allowed_crypto_recipients = [];
  blocked_crypto_recipients = [];
  max_crypto_tx_usdc = [];
  crypto_confirm_threshold_usdc = [];
}

unfoldable pub contains : List String → String → Bool
contains [] v = false
contains (item ∷ list) v = str_eq item v || contains list v
